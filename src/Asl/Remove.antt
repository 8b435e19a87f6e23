-- ===== src/Asl/Remove.antt =====
-- `removeBlocked`, `outBlocked` and `headBlocked` of phase1/asl.c.
use multi_pand_os.Base.{
  ℕ, ◌≡◌, refl, ap, Option, none, some, List, [], ◌∷◌, ◌++◌, arith, map, Apart-append,
  length-append, out-append, ◌∙◌, Apart, Apart-sym,
}
use mathlib.Core.List.{map-append}
use multi_pand_os.Listx.{Links, list_add, list_del}
use multi_pand_os.Listx.Ring.{Ring, SameOutside, Ring-frame}
use multi_pand_os.Listx.Edit.{list_del-Ring, list_del-head, list_del-head_spares, list_empty-nil}
use multi_pand_os.Kernel.{Kernel, Layout, s_link, s_procq, with_links}
use multi_pand_os.Asl.Release.{list_del-list_add}
use multi_pand_os.Asl.{remove_blocked, remove_active}
use multi_pand_os.Asl.Active.{
  NoKey, Actives, Located, semd_of_s_link-s_link, active-Located, active-NoKey,
}

-- The descriptor `s` is active between `before` and `after`, the free ones are `fs`, the processes
-- `p` and then `ps` wait on it, and these three lists share no node.
pub record Waiting (y : Layout) (k : Kernel) (s : ℕ) (before after fs : List ℕ) (p : ℕ)
    (ps : List ℕ) : Type 0 where
  pub active : Ring k.links y.semd_h (map s_link before ++ s_link s ∷ map s_link after)
  pub free : Ring k.links y.semd_free_h (map s_link fs)
  pub queue : Ring k.links (s_procq s) (p ∷ ps)
  pub lists :
      Apart
        (y.semd_h ∷ map s_link before ++ s_link s ∷ map s_link after)
        (y.semd_free_h ∷ map s_link fs)
  pub queue_active :
      Apart (s_procq s ∷ p ∷ ps) (y.semd_h ∷ map s_link before ++ s_link s ∷ map s_link after)
  pub queue_free : Apart (s_procq s ∷ p ∷ ps) (y.semd_free_h ∷ map s_link fs)

-- The nodes of the three lists that `removeBlocked` works on.
abbrev pub worked_on : Layout → (s : ℕ) (before after fs : List ℕ) (p : ℕ) (ps : List ℕ) → List ℕ
worked_on y s before after fs p ps =
    (s_procq s ∷ p ∷ ps)
    ++ ((y.semd_h ∷ map s_link before ++ s_link s ∷ map s_link after)
        ++ y.semd_free_h ∷ map s_link fs)

module _ {y : Layout} {k : Kernel} (s : ℕ) (before after fs : List ℕ) (p : ℕ) (ps : List ℕ)
    (w : Waiting y k s before after fs p ps) where
  -- the list heads after each of the three calls
  abbrev beheaded : Links
  beheaded = list_del (s_procq s) k.links

  abbrev inactive : Links
  inactive = list_del (s_link s) beheaded

  abbrev pub released : Links
  released = list_add (s_link s) y.semd_free_h inactive

  abbrev actives : List ℕ
  actives = map s_link before ++ s_link s ∷ map s_link after

  beheaded_rings : Ring beheaded p ps × Ring beheaded (s_procq s) []
  beheaded_rings = list_del-head (s_procq s) p ps w.queue

  beheaded_spares : SameOutside (s_procq s ∷ p ∷ ps) k.links beheaded
  beheaded_spares = list_del-head_spares (s_procq s) p ps w.queue

  beheaded-active : Ring beheaded y.semd_h actives
  beheaded-active =
      Ring-frame y.semd_h actives (s_procq s ∷ p ∷ ps) w.active beheaded_spares w.queue_active

  beheaded-free : Ring beheaded y.semd_free_h (map s_link fs)
  beheaded-free =
      Ring-frame y.semd_free_h (map s_link fs) (s_procq s ∷ p ∷ ps) w.free beheaded_spares
        w.queue_free

  unlinked_alone : Ring inactive (s_link s) []
  unlinked_alone =
      (list_del-Ring y.semd_h (s_link s) (map s_link before) (map s_link after) beheaded-active).1

  -- `tmp->s_link.prev->next` is the link itself, once it is unlinked.
  remove_active_eq : remove_active y (s_link s) k ≡ (some p, with_links (λ _. released) k)
  unfolding remove_active
  remove_active_eq = rw (
    semd_of_s_link-s_link s,
    w.queue.chain.0.0,
    list_empty-nil (s_procq s) beheaded_rings.1,
    unlinked_alone.closed.1,
    unlinked_alone.closed.0,
  )

  moved :
      Ring released y.semd_h (map s_link before ++ map s_link after)
      × Ring released y.semd_free_h (s_link s ∷ map s_link fs)
      × SameOutside ((y.semd_h ∷ actives) ++ y.semd_free_h ∷ map s_link fs) beheaded released
  moved =
      list_del-list_add y.semd_h y.semd_free_h (s_link s) (map s_link before) (map s_link after)
        (map s_link fs) beheaded-active beheaded-free w.lists

  -- A list that shares no node with the two of descriptors.
  moved-others :
      (h : ℕ) (xs : List ℕ)
      → Ring beheaded h xs
      → Apart (y.semd_h ∷ actives) (h ∷ xs)
      → Apart (y.semd_free_h ∷ map s_link fs) (h ∷ xs)
      → Ring released h xs
  moved-others h xs r a b =
      Ring-frame h xs ((y.semd_h ∷ actives) ++ y.semd_free_h ∷ map s_link fs) r moved.2
        (Apart-append (y.semd_h ∷ actives) (y.semd_free_h ∷ map s_link fs) (h ∷ xs) a b)

  pub released_rings :
      Ring released y.semd_h (map s_link before ++ map s_link after)
      × Ring released y.semd_free_h (s_link s ∷ map s_link fs)
      × Ring released p ps
      × Ring released (s_procq s) []
  released_rings = (
    moved.0,
    moved.1,
    moved-others p ps beheaded_rings.0 (Apart-sym (p ∷ ps) (y.semd_h ∷ actives) w.queue_active.1)
        (Apart-sym (p ∷ ps) (y.semd_free_h ∷ map s_link fs) w.queue_free.1),
    moved-others (s_procq s) [] beheaded_rings.1
        (Apart-sym (s_procq s ∷ []) (y.semd_h ∷ actives) (w.queue_active.0, tt))
        (Apart-sym (s_procq s ∷ []) (y.semd_free_h ∷ map s_link fs) (w.queue_free.0, tt)),
  )

  -- A list that shares no node with the three that `removeBlocked` works on is as before.
  pub released_spares :
      (h : ℕ) (xs : List ℕ)
      → Ring k.links h xs
      → Apart (s_procq s ∷ p ∷ ps) (h ∷ xs)
      → Apart (y.semd_h ∷ actives) (h ∷ xs)
      → Apart (y.semd_free_h ∷ map s_link fs) (h ∷ xs)
      → Ring released h xs
  released_spares h xs r a b c =
      moved-others h xs (Ring-frame h xs (s_procq s ∷ p ∷ ps) r beheaded_spares a) b c

  pub released-SameOutside : SameOutside (worked_on y s before after fs p ps) k.links released
  released-SameOutside a o =
      let (off, rest) =
        out-append a (s_procq s ∷ p ∷ ps) ((y.semd_h ∷ actives) ++ y.semd_free_h ∷ map s_link fs)
          o in
      let first = beheaded_spares a off in
      let last = moved.2 a rest in (last.0 ∙ first.0, last.1 ∙ first.1)

pub remove_blocked_eq :
    {y : Layout} {k : Kernel} (sem s : ℕ) (before after fs : List ℕ) (p : ℕ) (ps : List ℕ)
    (w : Waiting y k s before after fs p ps)
    → Located y k sem s before after
    → remove_blocked y sem k ≡ some (some p, with_links (λ _. released s before after fs p ps w) k)
unfolding remove_blocked
remove_blocked_eq sem s before after fs p ps w at =
    rw (active-Located at)
      (ap (λ (r : Option ℕ × Kernel). some r) (remove_active_eq s before after fs p ps w))

-- `removeBlocked` on an active semaphore returns the first process that waits. Whoever else waits,
-- the semaphore's queue is left empty and its descriptor goes back to the free ones, so the other
-- processes stay linked only to one another and to the one removed.
pub remove_blocked_lem :
    {y : Layout} {k : Kernel} (sem s : ℕ) (before after fs : List ℕ) (p : ℕ) (ps : List ℕ)
    → Waiting y k s before after fs p ps
    → Located y k sem s before after
    → (k' : Kernel) × (remove_blocked y sem k ≡ some (some p, k'))
      × Ring k'.links y.semd_h (map s_link before ++ map s_link after)
      × Ring k'.links y.semd_free_h (s_link s ∷ map s_link fs)
      × Ring k'.links p ps
      × Ring k'.links (s_procq s) []
      × (k' ≡ with_links (λ _. k'.links) k)
remove_blocked_lem {y} {k} sem s before after fs p ps w at =
    let (ra, rf, rp, rq) = released_rings s before after fs p ps w in
    (
      with_links (λ _. released s before after fs p ps w) k,
      remove_blocked_eq sem s before after fs p ps w at,
      ra,
      rf,
      rp,
      rq,
      refl,
    )

pub NoKey-same :
    (k g : Kernel) (sem : ℕ) (ss : List ℕ)
    → ((t : ℕ) → g.s_key t ≡ k.s_key t)
    → NoKey k sem ss
    → NoKey g sem ss
NoKey-same k g sem [] same n = tt
NoKey-same k g sem (s ∷ ss) same (e, n) = (rw (same s) e, NoKey-same k g sem ss same n)

pub NoKey-append :
    (k : Kernel) (sem : ℕ) (olds news : List ℕ)
    → NoKey k sem olds
    → NoKey k sem news
    → NoKey k sem (olds ++ news)
NoKey-append k sem [] news m n = n
NoKey-append k sem (a ∷ olds) news (e, m) n = (e, NoKey-append k sem olds news m n)

-- A semaphore that is not active has no process to give up.
pub remove_blocked-NoKey :
    {y : Layout} {k : Kernel} (sem : ℕ) (ss : List ℕ)
    → Actives y k ss
    → NoKey k sem ss
    → remove_blocked y sem k ≡ some (none, k)
unfolding remove_blocked
remove_blocked-NoKey sem ss a n = rw (active-NoKey sem a n)

-- Where no other active descriptor has the key, a second `removeBlocked` returns NULL, however many
-- processes waited at the first.
pub remove_blocked-twice :
    {y : Layout} {k : Kernel} (sem s : ℕ) (before after fs : List ℕ) (p : ℕ) (ps : List ℕ)
    → Waiting y k s before after fs p ps
    → Located y k sem s before after
    → NoKey k sem after
    → (k' : Kernel) × (remove_blocked y sem k ≡ some (some p, k'))
      × (remove_blocked y sem k' ≡ some (none, k'))
remove_blocked-twice {y} {k} sem s before after fs p ps w at n =
    let (k', e, ra, rf, rp, rq, same) = remove_blocked_lem sem s before after fs p ps w at in
    (
      k',
      e,
      remove_blocked-NoKey {y = y} {k = k'} sem (before ++ after)
          (record {
            ring = rw map-append ra;
            few = omega (
              arith,
              at.actives.few,
              length-append before (s ∷ after),
              length-append before after,
            );
          })
          (NoKey-same k k' sem (before ++ after) (λ t. ap (λ (g : Kernel). g.s_key t) same)
            (NoKey-append k sem before after at.first n)),
    )
