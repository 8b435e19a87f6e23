-- ===== src/Asl/Out.antt =====
-- `outBlocked` of phase1/asl.c.
use mathlib.Core.Path.{subst}
use multi_pand_os.Base.{
  has, ==_refl, none, ℕ, ◌≤◌, ◌≡◌, refl, false, some, List, [], ◌∷◌, ◌++◌, arith, map, ◌==◌,
  has-middle, length, Apart,
}
use multi_pand_os.Listx.{list_del, list_add, list_empty, Links}
use multi_pand_os.Listx.Ring.{Ring, SameOutside, Ring-frame}
use multi_pand_os.Listx.Edit.{list_del-Ring, list_del-spares, list_empty-cons, list_empty-nil}
use multi_pand_os.Listx.Search.{list_for_each-find, find-has}
use multi_pand_os.Kernel.{Kernel, Layout, max_proc, max_rounds, s_link, s_procq, with_links}
use multi_pand_os.Asl.{out_blocked, out_active}
use multi_pand_os.Asl.Active.{
  Located, active-Located, semd_of_s_link-s_link, Actives, NoKey, active-NoKey,
}

-- The process `p` waits on its semaphore, whose descriptor is `s`, behind `xs` and before `ys`.
pub record Among (y : Layout) (k : Kernel) (p s : ℕ) (before after xs ys : List ℕ) : Type 0 where
  pub located : Located y k (k.p_sem_add p) s before after
  pub queue : Ring k.links (s_procq s) (xs ++ p ∷ ys)
  pub few : length (xs ++ p ∷ ys) ≤ max_proc
  pub apart : Apart (s_procq s ∷ xs ++ p ∷ ys) (y.semd_h ∷ map s_link (before ++ s ∷ after))

list_empty-middle :
    {l : Links} (h x : ℕ) (xs ys : List ℕ) → Ring l h (xs ++ x ∷ ys) → list_empty h l ≡ false
list_empty-middle h x [] ys r = list_empty-cons h x ys r
list_empty-middle h x (z ∷ xs) ys r = list_empty-cons h z (xs ++ x ∷ ys) r

-- Others wait too: the process leaves the queue, whatever its place, the others keep theirs, and the
-- semaphore stays active.
pub out_blocked-others :
    (y : Layout) (k : Kernel) (p s : ℕ) (before after xs ys : List ℕ) (o : ℕ) (os : List ℕ)
    → Among y k p s before after xs ys
    → xs ++ ys ≡ o ∷ os
    → (k' : Kernel) × (out_blocked y p k ≡ some (some p, k'))
      × Ring k'.links (s_procq s) (xs ++ ys)
      × Ring k'.links p []
      × Ring k'.links y.semd_h (map s_link (before ++ s ∷ after))
      × SameOutside (s_procq s ∷ xs ++ p ∷ ys) k.links k'.links
      × (k' ≡ with_links (λ _. k'.links) k)
unfolding out_blocked out_active
out_blocked-others y k p s before after xs ys o os w e =
    let (rest, alone) = list_del-Ring (s_procq s) p xs ys w.queue in
    let still : list_empty (s_procq s) (list_del p k.links) ≡ false =
      list_empty-cons (s_procq s) o os (subst (Ring (list_del p k.links) (s_procq s)) e rest) in
    let search =
      list_for_each-find max_rounds (s_procq s) (λ q. q == p) (xs ++ p ∷ ys) w.queue
        (omega (arith, w.few)) in
    (
      with_links (list_del p) k,
      rw
          (
            active-Located w.located,
            semd_of_s_link-s_link s,
            list_empty-middle (s_procq s) p xs ys w.queue,
            search,
            find-has p (xs ++ p ∷ ys),
            has-middle p xs ys,
            semd_of_s_link-s_link s,
            still,
          )
          refl,
      rest,
      alone,
      Ring-frame y.semd_h (map s_link (before ++ s ∷ after)) (s_procq s ∷ xs ++ p ∷ ys)
          w.located.actives.ring (list_del-spares (s_procq s) p xs ys w.queue) w.apart,
      list_del-spares (s_procq s) p xs ys w.queue,
      refl,
    )

-- A process that does not wait on the semaphore that it remembers.
pub out_blocked-missing :
    (y : Layout) (k : Kernel) (p s : ℕ) (before after : List ℕ) (x : ℕ) (xs : List ℕ)
    → Located y k (k.p_sem_add p) s before after
    → Ring k.links (s_procq s) (x ∷ xs)
    → length (x ∷ xs) ≤ max_proc
    → has p (x ∷ xs) ≡ false
    → out_blocked y p k ≡ some (none, k)
unfolding out_blocked out_active
out_blocked-missing y k p s before after x xs w r few out =
    let search =
      list_for_each-find max_rounds (s_procq s) (λ q. q == p) (x ∷ xs) r (omega (arith, few)) in
    rw
      (
        active-Located w,
        semd_of_s_link-s_link s,
        list_empty-cons (s_procq s) x xs r,
        search,
        find-has p (x ∷ xs),
        out,
      )
      refl

-- No semaphore is active that the process remembers.
pub out_blocked-NoKey :
    (y : Layout) (k : Kernel) (p : ℕ) (ss : List ℕ)
    → Actives y k ss
    → NoKey k (k.p_sem_add p) ss
    → out_blocked y p k ≡ some (none, k)
unfolding out_blocked
out_blocked-NoKey y k p ss a n = rw (active-NoKey (k.p_sem_add p) a n) refl

-- The process waits alone: its semaphore is freed.
pub out_blocked-last :
    (y : Layout) (k : Kernel) (p s : ℕ) (before after : List ℕ)
    → Among y k p s before after [] []
    → out_blocked y p k
      ≡ some (
        some p,
        with_links (λ l. list_add (s_link s) y.semd_free_h (list_del (s_link s) (list_del p l))) k,
      )
unfolding out_blocked out_active
out_blocked-last y k p s before after w =
    let (rest, alone) = list_del-Ring (s_procq s) p [] [] w.queue in
    let search =
      list_for_each-find max_rounds (s_procq s) (λ q. q == p) (p ∷ []) w.queue
        (omega (arith, w.few)) in
    rw
      (
        active-Located w.located,
        semd_of_s_link-s_link s,
        list_empty-cons (s_procq s) p [] w.queue,
        search,
        ==_refl p,
        semd_of_s_link-s_link s,
        list_empty-nil (s_procq s) rest,
      )
      refl
