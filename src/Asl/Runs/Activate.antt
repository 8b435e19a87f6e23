-- ===== src/Asl/Runs/Activate.antt =====
-- `insertBlocked` of phase1/asl.c on a semaphore that is not active, against the list of semaphores.
use mathlib.Core.Path.{subst}
use multi_pand_os.Base.{
  sym, ℕ, ◌+◌, ◌≤◌, ◌<◌, ◌≡◌, ◌∙◌, ap, Bool, false, some, List, [], ◌∷◌, ◌++◌, arith, map, has,
  length, has-differs, ==_refl, Bool-cases, inl, inr,
}
use multi_pand_os.Base.Tally.{tally, one_if, tally-append, tally-in, Once-Apart}
use multi_pand_os.Listx.{update}
use multi_pand_os.Listx.Ring.{Ring}
use multi_pand_os.Kernel.{Kernel, Layout, max_proc, s_link, s_procq}
use multi_pand_os.Asl.{insert_blocked}
use multi_pand_os.Asl.Insert.{Separate, worked_on, insert_blocked-new}
use multi_pand_os.Asl.Spec.{Entry, waiters}
use multi_pand_os.Asl.Stored.{
  descs, descs-append, cells, Stored, Sorted, AllEntries-append, AllEntries-frame,
}
use multi_pand_os.Asl.Stored.Tally.{
  Fresh, Sorted-Fresh, tally-cells, tally-fixed, tally-descs, tally-waiters, has-map, length-descs,
  length-waiters,
}
use multi_pand_os.Asl.Stored.Moves.{Sorted-joined}
use multi_pand_os.Asl.Locate.{NoEntry, NoEntry-NoKey}

tally-worked_on :
    (y : Layout) (p d : ℕ) (ds ss : List ℕ) (a : ℕ)
    → tally a (worked_on y p d ds ss)
      ≡ one_if a p
        + one_if a (s_procq d)
        + one_if a y.semd_h
        + tally a (map s_link ss)
        + one_if a y.semd_free_h
        + one_if a (s_link d)
        + tally a (map s_link ds)
tally-worked_on y p d ds ss a = simp tally-append (omega arith)

-- The entry that the first free descriptor becomes.
abbrev pub begun : (d sem p : ℕ) → Entry
begun d sem p = record { desc = d; key = sem; first = p; others = [] }

module _ {y : Layout} {is_pcb : ℕ → Bool} {k : Kernel} {es : List Entry} (d : ℕ) {ds : List ℕ}
    {f : ℕ → ℕ} (sem p : ℕ)
    (w : Stored y is_pcb k (record { entries = es; free = d ∷ ds; sem_of = f }))
    (new : Fresh is_pcb es p) where
  fresh_around :
      (a : ℕ)
      → one_if a p
          + one_if a y.semd_h
          + tally a (map s_link (descs es))
          + one_if a y.semd_free_h
          + one_if a (s_link d)
          + tally a (map s_link ds)
          + one_if a (s_procq d)
          + tally a (cells es)
        ≤ 1
  fresh_around a =
      omega (arith, Sorted-Fresh w.sorted new a, tally-fixed y es (d ∷ ds) a, tally-cells es a)

  Stored-Separate : Separate y k p d ds (descs es)
  Stored-Separate =
      let actives = map s_link (descs es) in
      let split = λ (a : ℕ). tally-append a actives (s_link d ∷ []) in
      record {
        free = w.free;
        active = w.active;
        lists =
            Once-Apart (y.semd_free_h ∷ map s_link (d ∷ ds)) (y.semd_h ∷ actives)
              (λ a. omega (arith, fresh_around a));
        cells_active =
            Once-Apart (p ∷ s_procq d ∷ []) (y.semd_h ∷ actives ++ s_link d ∷ [])
              (λ a. omega (arith, fresh_around a, split a));
        cells_free =
            Once-Apart (p ∷ s_procq d ∷ []) (y.semd_free_h ∷ map s_link ds)
              (λ a. omega (arith, fresh_around a));
        cells = let around = fresh_around p in ground (arith, around, ==_refl p);
      }

  Sorted-begun : length (waiters es) < max_proc → Sorted y is_pcb (es ++ begun d sem p ∷ []) ds
  Sorted-begun room =
      Sorted-joined p w.sorted new room
        (λ a. omega (
          arith,
          tally-fixed y (es ++ begun d sem p ∷ []) ds a,
          tally-fixed y es (d ∷ ds) a,
          tally-descs s_link es (begun d sem p ∷ []) a,
          tally-descs s_procq es (begun d sem p ∷ []) a,
        ))
        (λ a. omega (arith, tally-waiters es (begun d sem p ∷ []) a))
        (omega (arith, length-descs es (begun d sem p ∷ [])))
        (omega (arith, length-waiters es (begun d sem p ∷ [])))

  not_active : has d (descs es) ≡ false
  not_active = elim (Bool-cases (has d (descs es))) [
    | inl i ↦
        let there = tally-in (s_link d) (map s_link (descs es)) (has-map s_link d (descs es) i) in
        let around = fresh_around (s_link d) in
        absurd (ground (arith, around, there, ==_refl (s_link d)))
    | inr o ↦ o
  ]

  -- The first free descriptor is taken.
  pub insert_blocked-begun :
      NoEntry sem es
      → length (waiters es) < max_proc
      → (k' : Kernel) × (insert_blocked y sem p k ≡ some (0, k'))
        × Stored y is_pcb k'
            (record { entries = es ++ begun d sem p ∷ []; free = ds; sem_of = update f p sem })
  insert_blocked-begun absent room =
      let (k', runs, active, free, ring, same, others) =
        insert_blocked-new sem p d ds (descs es) Stored-Separate (omega (arith, w.sorted.few_descs))
          (NoEntry-NoKey k sem es w.entries absent) in
      let ws = worked_on y p d ds (descs es) in
      let count_ws = tally-worked_on y p d ds (descs es) in
      let keys = λ (x : ℕ). ap (λ (g : Kernel). g.s_key x) others in
      (
        k',
        runs,
        record {
          active =
              subst (λ xs. Ring k'.links y.semd_h (map s_link xs))
                (sym (descs-append es (begun d sem p ∷ []))) active;
          free = free;
          entries =
              AllEntries-append k' es (begun d sem p ∷ [])
                (AllEntries-frame es ws k k' same (λ a. omega (arith, fresh_around a, count_ws a))
                  (λ x i.
                    let off = has-differs d x (descs es) not_active i in
                    keys x ∙ ground (arith, off))
                  w.entries)
                (record { ring = ring; key = keys d ∙ ground arith }, tt);
          remembered =
              ap (λ (g : Kernel). g.p_sem_add) others
              ∙ ap (λ (g : ℕ → ℕ). update g p sem) w.remembered;
          sorted = Sorted-begun room;
        },
      )
