-- ===== src/Asl/Runs/Remove.antt =====
-- `removeBlocked` of phase1/asl.c against the list of semaphores.
use mathlib.Core.Path.{subst}
use multi_pand_os.Base.{
  ℕ, ◌+◌, ◌≡◌, sym, refl, Bool, some, List, ◌∷◌, ◌++◌, arith, map, length-append,
}
use multi_pand_os.Base.Tally.{tally, one_if, tally-append, Once-Apart}
use multi_pand_os.Listx.Ring.{Ring}
use multi_pand_os.Kernel.{Kernel, Layout, s_link, s_procq, with_links}
use multi_pand_os.Asl.{remove_blocked}
use multi_pand_os.Asl.Remove.{
  Waiting, worked_on, released, released_rings, released-SameOutside, remove_blocked_eq,
}
use multi_pand_os.Asl.Spec.{Entry, queue, waiters}
use multi_pand_os.Asl.Stored.{
  descs, map-descs, Stored, Sorted, AllEntries-split, AllEntries-append, AllEntries-frame,
}
use multi_pand_os.Asl.Stored.Tally.{
  tally-around, tally-cells, tally-fixed, tally-descs, tally-waiters, length-descs, length-waiters,
}
use multi_pand_os.Asl.Stored.Moves.{Sorted-shift}
use multi_pand_os.Asl.Locate.{NoEntry, Stored-Located}

pub tally-worked_on :
    (y : Layout) (s : ℕ) (before after fs : List ℕ) (p : ℕ) (ps : List ℕ) (a : ℕ)
    → tally a (worked_on y s before after fs p ps)
      ≡ one_if a (s_procq s)
        + one_if a p
        + tally a ps
        + one_if a y.semd_h
        + tally a (map s_link before)
        + one_if a (s_link s)
        + tally a (map s_link after)
        + one_if a y.semd_free_h
        + tally a (map s_link fs)
tally-worked_on y s before after fs p ps a = simp tally-append (omega arith)

module _ {y : Layout} {is_pcb : ℕ → Bool} {k : Kernel} (xs : List Entry) (e : Entry)
    (ys : List Entry) {fs : List ℕ} {f : ℕ → ℕ}
    (w : Stored y is_pcb k (record { entries = xs ++ e ∷ ys; free = fs; sem_of = f })) where
  around_cells :
      (a : ℕ)
      → tally a (map s_link (descs xs) ++ s_link e.desc ∷ map s_link (descs ys))
        ≡ tally a (map s_link (descs xs))
          + one_if a (s_link e.desc)
          + tally a (map s_link (descs ys))
  around_cells a =
      omega (arith, tally-append a (map s_link (descs xs)) (s_link e.desc ∷ map s_link (descs ys)))

  pub Stored-Waiting : Waiting y k e.desc (descs xs) (descs ys) fs e.first e.others
  Stored-Waiting =
      let around = tally-around xs e ys fs w.sorted in
      let links = map s_link (descs xs) ++ s_link e.desc ∷ map s_link (descs ys) in
      record {
        active = subst (Ring k.links y.semd_h) (map-descs s_link xs (e ∷ ys)) w.active;
        free = w.free;
        queue = (AllEntries-split k xs (e ∷ ys) w.entries).1.0.ring;
        lists =
            Once-Apart (y.semd_h ∷ links) (y.semd_free_h ∷ map s_link fs)
              (λ a. omega (arith, around a, around_cells a));
        queue_active =
            Once-Apart (s_procq e.desc ∷ queue e) (y.semd_h ∷ links)
              (λ a. omega (arith, around a, around_cells a));
        queue_free =
            Once-Apart (s_procq e.desc ∷ queue e) (y.semd_free_h ∷ map s_link fs)
              (λ a. omega (arith, around a));
      }

  pub Sorted-removed : Sorted y is_pcb (xs ++ ys) (e.desc ∷ fs)
  Sorted-removed =
      Sorted-shift w.sorted
        (λ a. omega (
          arith,
          tally-fixed y (xs ++ ys) (e.desc ∷ fs) a,
          tally-fixed y (xs ++ e ∷ ys) fs a,
          tally-descs s_link xs ys a,
          tally-descs s_procq xs ys a,
          tally-descs s_link xs (e ∷ ys) a,
          tally-descs s_procq xs (e ∷ ys) a,
        ))
        (λ a. omega (
          arith,
          tally-waiters xs ys a,
          tally-waiters xs (e ∷ ys) a,
          tally-append a e.others (waiters ys),
        ))
        (omega (arith, length-descs xs ys, length-descs xs (e ∷ ys)))
        (omega (
          arith,
          length-waiters xs ys,
          length-waiters xs (e ∷ ys),
          length-append e.others (waiters ys),
        ))

  -- The semaphore is found: it is freed with its whole queue.
  pub remove_blocked-found :
      (sem : ℕ)
      → e.key ≡ sem
      → NoEntry sem xs
      → (k' : Kernel) × (remove_blocked y sem k ≡ some (some e.first, k'))
        × Stored y is_pcb k' (record { entries = xs ++ ys; free = e.desc ∷ fs; sem_of = f })
  remove_blocked-found sem key absent =
      let wait = Stored-Waiting in
      let (active, free, lost, alone) =
        released_rings e.desc (descs xs) (descs ys) fs e.first e.others wait in
      let k' = with_links (λ _. released e.desc (descs xs) (descs ys) fs e.first e.others wait) k in
      let ws = worked_on y e.desc (descs xs) (descs ys) fs e.first e.others in
      let same = released-SameOutside e.desc (descs xs) (descs ys) fs e.first e.others wait in
      let count_ws = tally-worked_on y e.desc (descs xs) (descs ys) fs e.first e.others in
      let around = tally-around xs e ys fs w.sorted in
      let (before, (at, after)) = AllEntries-split k xs (e ∷ ys) w.entries in
      (
        k',
        remove_blocked_eq sem e.desc (descs xs) (descs ys) fs e.first e.others wait
            (Stored-Located sem xs e ys w key absent),
        record {
          active = subst (Ring k'.links y.semd_h) (sym (map-descs s_link xs ys)) active;
          free = free;
          entries =
              AllEntries-append k' xs ys
                (AllEntries-frame xs ws k k' same
                  (λ a. omega (arith, around a, count_ws a, tally-cells xs a)) (λ d i. refl) before)
                (AllEntries-frame ys ws k k' same
                  (λ a. omega (arith, around a, count_ws a, tally-cells ys a)) (λ d i. refl) after);
          remembered = w.remembered;
          sorted = Sorted-removed;
        },
      )
