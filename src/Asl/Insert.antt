-- ===== src/Asl/Insert.antt =====
-- `insertBlocked` and `initASL` of phase1/asl.c.
use mathlib.Core.List.{map-append}
use multi_pand_os.Base.{
  refl, ℕ, ◌≤◌, ◌≡◌, ◌∙◌, ap, false, Option, some, List, [], ◌∷◌, ◌++◌, arith, map, ◌==◌, has,
  length, out-append, Apart, Apart-sym,
}
use multi_pand_os.Listx.{update, Links, init_list_head, list_add, list_del, list_add_tail}
use multi_pand_os.Listx.Ring.{Ring, SameOutside, Ring-frame}
use multi_pand_os.Listx.Edit.{
  list_add_tail-Ring, list_add-Ring, list_add_tail-SameOutside, list_del-Ring, list_del-spares,
  list_empty-nil, list_empty-cons, init_list_head-Ring, init_list_head-SameOutside,
}
use multi_pand_os.Kernel.{Kernel, Layout, max_proc, s_link, semd_of_s_link, s_procq}
use multi_pand_os.Asl.{insert_blocked, insert_active, insert_new}
use multi_pand_os.Asl.Active.{
  NoKey, Actives, Located, semd_of_s_link-s_link, active-Located, active-NoKey,
}

-- The process blocks on an active semaphore: it is queued last there, and remembers the semaphore.
pub insert_blocked-active :
    {y : Layout} {k : Kernel} {sem s : ℕ} {before after : List ℕ} (p : ℕ) (q : List ℕ)
    → Located y k sem s before after
    → Ring k.links (s_procq s) q
    → has p (s_procq s ∷ q) ≡ false
    → (k' : Kernel) × (insert_blocked y sem p k ≡ some (0, k'))
      × Ring k'.links (s_procq s) (q ++ p ∷ [])
      × SameOutside (p ∷ s_procq s ∷ q) k.links k'.links
      × (k' ≡ record k { links = k'.links; p_sem_add = update k.p_sem_add p sem })
unfolding insert_blocked insert_active
insert_blocked-active {y} {k} {sem} {s} p q w r out = (
  insert_active y (s_link s) sem p k,
  rw (active-Located w),
  rw (semd_of_s_link-s_link s) (list_add_tail-Ring p (s_procq s) q r out),
  rw (semd_of_s_link-s_link s) (list_add_tail-SameOutside p (s_procq s) q r out),
  refl,
)

-- No active semaphore has the key and no descriptor is free: 1, and nothing changes.
pub insert_blocked-full :
    {y : Layout} {k : Kernel} (sem p : ℕ) (ss : List ℕ)
    → Actives y k ss
    → NoKey k sem ss
    → Ring k.links y.semd_free_h []
    → insert_blocked y sem p k ≡ some (1, k)
unfolding insert_blocked
insert_blocked-full {y} {k} sem p ss a n r =
    rw (active-NoKey sem a n, list_empty-nil y.semd_free_h r)

-- The descriptor lists before `insertBlocked` activates `s` for `p`, and the addresses that must
-- differ for the two lists, the new queue and the process to be separate objects.
pub record Separate (y : Layout) (k : Kernel) (p s : ℕ) (fs ss : List ℕ) : Type 0 where
  pub free : Ring k.links y.semd_free_h (map s_link (s ∷ fs))
  pub active : Ring k.links y.semd_h (map s_link ss)
  pub lists : Apart (y.semd_free_h ∷ map s_link (s ∷ fs)) (y.semd_h ∷ map s_link ss)
  pub cells_active : Apart (p ∷ s_procq s ∷ []) (y.semd_h ∷ map s_link ss ++ s_link s ∷ [])
  pub cells_free : Apart (p ∷ s_procq s ∷ []) (y.semd_free_h ∷ map s_link fs)
  pub cells : (p == s_procq s) ≡ false

-- The nodes of the lists that the branch of a new semaphore works on.
abbrev pub worked_on : Layout → (p s : ℕ) (fs ss : List ℕ) → List ℕ
worked_on y p s fs ss =
    (p ∷ s_procq s ∷ []) ++ ((y.semd_h ∷ map s_link ss) ++ y.semd_free_h ∷ map s_link (s ∷ fs))

module _ {y : Layout} {k : Kernel} (sem p s : ℕ) (fs ss : List ℕ) (w : Separate y k p s fs ss) where
  abbrev unlinked : Links
  unlinked = list_del (s_link s) k.links

  abbrev relinked : Links
  relinked = list_add_tail (s_link s) y.semd_h unlinked

  abbrev queued : Links
  queued = list_add p (s_procq s) (init_list_head (s_procq s) relinked)

  abbrev activated : Kernel
  activated = record k {
    links = queued;
    s_key = update k.s_key s sem;
    p_sem_add = update k.p_sem_add p sem;
  }

  insert_new_eq : insert_new y sem p k ≡ activated
  unfolding insert_new
  insert_new_eq =
      let first : semd_of_s_link (k.links.next y.semd_free_h) ≡ s =
        rw w.free.chain.0.0 (semd_of_s_link-s_link s) in
      rw first

  unlinked-free : Ring unlinked y.semd_free_h (map s_link fs)
  unlinked-free = (list_del-Ring y.semd_free_h (s_link s) [] (map s_link fs) w.free).0

  unlinked-active : Ring unlinked y.semd_h (map s_link ss)
  unlinked-active =
      Ring-frame y.semd_h (map s_link ss) (y.semd_free_h ∷ map s_link (s ∷ fs)) w.active
        (list_del-spares y.semd_free_h (s_link s) [] (map s_link fs) w.free) w.lists

  not_active : has (s_link s) (y.semd_h ∷ map s_link ss) ≡ false
  not_active = w.lists.1.0

  relinked-active : Ring relinked y.semd_h (map s_link ss ++ s_link s ∷ [])
  relinked-active =
      list_add_tail-Ring (s_link s) y.semd_h (map s_link ss) unlinked-active not_active

  free-Apart : Apart (s_link s ∷ y.semd_h ∷ map s_link ss) (y.semd_free_h ∷ map s_link fs)
  free-Apart = (
    ground (arith, w.free.distinct.0, w.free.distinct.1.0),
    Apart-sym (y.semd_free_h ∷ map s_link fs) (y.semd_h ∷ map s_link ss) (w.lists.0, w.lists.1.1),
  )

  relinked-free : Ring relinked y.semd_free_h (map s_link fs)
  relinked-free =
      Ring-frame y.semd_free_h (map s_link fs) (s_link s ∷ y.semd_h ∷ map s_link ss) unlinked-free
        (list_add_tail-SameOutside (s_link s) y.semd_h (map s_link ss) unlinked-active not_active)
        free-Apart

  queued-queue : Ring queued (s_procq s) (p ∷ [])
  queued-queue =
      (list_add-Ring p (s_procq s) [] (init_list_head-Ring (s_procq s) relinked) (rw w.cells)).0

  queued-spares : SameOutside (p ∷ s_procq s ∷ []) relinked queued
  queued-spares a o =
      let put =
        (list_add-Ring p (s_procq s) [] (init_list_head-Ring (s_procq s) relinked) (rw w.cells)).1 a
          o in
      let made = init_list_head-SameOutside (s_procq s) relinked a (ground arith) in
      (put.0 ∙ made.0, put.1 ∙ made.1)

  activated-SameOutside : SameOutside (worked_on y p s fs ss) k.links queued
  activated-SameOutside a o =
      let lists = y.semd_free_h ∷ map s_link (s ∷ fs) in
      let actives = y.semd_h ∷ map s_link ss in
      let (off, rest) = out-append a (p ∷ s_procq s ∷ []) (actives ++ lists) o in
      let (off', off'') = out-append a actives lists rest in
      let put = queued-spares a off in
      let linked =
        list_add_tail-SameOutside (s_link s) y.semd_h (map s_link ss) unlinked-active not_active a
          (ground (arith, off', off'')) in
      let cut = list_del-spares y.semd_free_h (s_link s) [] (map s_link fs) w.free a off'' in
      (put.0 ∙ (linked.0 ∙ cut.0), put.1 ∙ (linked.1 ∙ cut.1))

  abbrev answer : ℕ → Kernel → Option (ℕ × Kernel)
  answer n g = some (n, g)

  -- No active semaphore has the key: the first free descriptor is activated behind the others, its
  -- queue holds the process alone, and both remember the semaphore.
  pub insert_blocked-new :
      length ss ≤ max_proc
      → NoKey k sem ss
      → (k' : Kernel) × (insert_blocked y sem p k ≡ some (0, k'))
        × Ring k'.links y.semd_h (map s_link (ss ++ s ∷ []))
        × Ring k'.links y.semd_free_h (map s_link fs)
        × Ring k'.links (s_procq s) (p ∷ [])
        × SameOutside (worked_on y p s fs ss) k.links k'.links
        × (k' ≡ record k {
          links = k'.links;
          s_key = update k.s_key s sem;
          p_sem_add = update k.p_sem_add p sem;
        })
  unfolding insert_blocked
  insert_blocked-new few n = (
    activated,
    rw
        (
          active-NoKey {y = y} {k = k} sem (record { ring = w.active; few = few }) n,
          list_empty-cons y.semd_free_h (s_link s) (map s_link fs) w.free,
        )
        (ap (λ (g : Kernel). answer 0 g) insert_new_eq),
    rw map-append (
        Ring-frame y.semd_h (map s_link ss ++ s_link s ∷ []) (p ∷ s_procq s ∷ []) relinked-active
          queued-spares w.cells_active),
    Ring-frame y.semd_free_h (map s_link fs) (p ∷ s_procq s ∷ []) relinked-free queued-spares
        w.cells_free,
    queued-queue,
    activated-SameOutside,
    refl,
  )
