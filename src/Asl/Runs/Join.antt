-- ===== src/Asl/Runs/Join.antt =====
-- `insertBlocked` of phase1/asl.c on an active semaphore, against the list of semaphores.
use mathlib.Core.Path.{subst}
use multi_pand_os.Base.{
  sym, ℕ, ◌+◌, ◌≤◌, ◌<◌, ◌≡◌, ◌∙◌, ap, Bool, false, some, List, [], ◌∷◌, ◌++◌, arith, map, has,
  length, length-append,
}
use multi_pand_os.Base.Tally.{tally, one_if, tally-append, has-tally, Once-Apart}
use multi_pand_os.Listx.{update}
use multi_pand_os.Listx.Ring.{Ring, Ring-frame}
use multi_pand_os.Kernel.{Kernel, Layout, max_proc, s_link, s_procq}
use multi_pand_os.Asl.{insert_blocked}
use multi_pand_os.Asl.Insert.{insert_blocked-active}
use multi_pand_os.Asl.Spec.{Entry, queue, waiters, joined}
use multi_pand_os.Asl.Stored.{
  descs, descs-append, cells, Stored, Sorted, AllEntries-split, AllEntries-append, AllEntries-frame,
}
use multi_pand_os.Asl.Stored.Tally.{
  Fresh, Sorted-Fresh, tally-split, tally-cells, tally-fixed, tally-descs, tally-waiters,
  length-descs, length-waiters,
}
use multi_pand_os.Asl.Stored.Moves.{Sorted-joined}
use multi_pand_os.Asl.Locate.{NoEntry, Stored-Located}

module _ {y : Layout} {is_pcb : ℕ → Bool} {k : Kernel} (xs : List Entry) (e : Entry)
    (ys : List Entry) {fs : List ℕ} {f : ℕ → ℕ} (p : ℕ)
    (w : Stored y is_pcb k (record { entries = xs ++ e ∷ ys; free = fs; sem_of = f }))
    (new : Fresh is_pcb (xs ++ e ∷ ys) p) where
  fresh_around :
      (a : ℕ)
      → one_if a p
          + one_if a y.semd_h
          + tally a (map s_link (descs (xs ++ e ∷ ys)))
          + one_if a y.semd_free_h
          + tally a (map s_link fs)
          + one_if a (s_procq e.desc)
          + one_if a e.first
          + tally a e.others
          + tally a (cells xs)
          + tally a (cells ys)
        ≤ 1
  fresh_around a = omega (
    arith,
    Sorted-Fresh w.sorted new a,
    tally-split y xs e ys fs a,
    tally-descs s_link xs (e ∷ ys) a,
    tally-cells xs a,
    tally-cells ys a,
  )

  not_queued : has p (s_procq e.desc ∷ queue e) ≡ false
  not_queued =
      has-tally p (s_procq e.desc ∷ queue e) (let around = fresh_around p in ground (arith, around))

  same_descs : descs (xs ++ e ∷ ys) ≡ descs (xs ++ joined p e ∷ ys)
  same_descs = descs-append xs (e ∷ ys) ∙ sym (descs-append xs (joined p e ∷ ys))

  Sorted-joined_at :
      length (waiters (xs ++ e ∷ ys)) < max_proc → Sorted y is_pcb (xs ++ joined p e ∷ ys) fs
  Sorted-joined_at room =
      Sorted-joined p w.sorted new room
        (λ a. omega (
          arith,
          tally-fixed y (xs ++ joined p e ∷ ys) fs a,
          tally-fixed y (xs ++ e ∷ ys) fs a,
          tally-descs s_link xs (joined p e ∷ ys) a,
          tally-descs s_procq xs (joined p e ∷ ys) a,
          tally-descs s_link xs (e ∷ ys) a,
          tally-descs s_procq xs (e ∷ ys) a,
        ))
        (λ a. omega (
          arith,
          tally-waiters xs (joined p e ∷ ys) a,
          tally-waiters xs (e ∷ ys) a,
          tally-append a e.others (waiters ys),
          tally-append a (e.others ++ p ∷ []) (waiters ys),
          tally-append a e.others (p ∷ []),
        ))
        (omega (arith, length-descs xs (joined p e ∷ ys), length-descs xs (e ∷ ys)))
        (omega (
          arith,
          length-waiters xs (joined p e ∷ ys),
          length-waiters xs (e ∷ ys),
          length-append e.others (waiters ys),
          length-append (e.others ++ p ∷ []) (waiters ys),
          length-append e.others (p ∷ []),
        ))

  -- The semaphore is found: the process is queued last.
  pub insert_blocked-joined :
      (sem : ℕ)
      → e.key ≡ sem
      → NoEntry sem xs
      → length (waiters (xs ++ e ∷ ys)) < max_proc
      → (k' : Kernel) × (insert_blocked y sem p k ≡ some (0, k'))
        × Stored y is_pcb k'
            (record { entries = xs ++ joined p e ∷ ys; free = fs; sem_of = update f p sem })
  insert_blocked-joined sem key absent room =
      let (before, (at, after)) = AllEntries-split k xs (e ∷ ys) w.entries in
      let (k', runs, ring, same, others) =
        insert_blocked-active p (queue e) (Stored-Located sem xs e ys w key absent) at.ring
          not_queued in
      let ws = p ∷ s_procq e.desc ∷ queue e in
      let keys = λ (d : ℕ). ap (λ (g : Kernel). g.s_key d) others in
      (
        k',
        runs,
        record {
          active =
              subst (λ ds. Ring k'.links y.semd_h (map s_link ds)) same_descs
                (Ring-frame y.semd_h (map s_link (descs (xs ++ e ∷ ys))) ws w.active same (
                  Once-Apart ws (y.semd_h ∷ map s_link (descs (xs ++ e ∷ ys)))
                    (λ a. omega (arith, fresh_around a))));
          free =
              Ring-frame y.semd_free_h (map s_link fs) ws w.free same (
                Once-Apart ws (y.semd_free_h ∷ map s_link fs) (λ a. omega (arith, fresh_around a)));
          entries =
              AllEntries-append k' xs (joined p e ∷ ys)
                (AllEntries-frame xs ws k k' same (λ a. omega (arith, fresh_around a))
                  (λ d i. keys d) before)
                (
                  record { ring = ring; key = keys e.desc ∙ at.key },
                  AllEntries-frame ys ws k k' same (λ a. omega (arith, fresh_around a))
                      (λ d i. keys d) after,
                );
          remembered =
              ap (λ (g : Kernel). g.p_sem_add) others
              ∙ ap (λ (g : ℕ → ℕ). update g p sem) w.remembered;
          sorted = Sorted-joined_at room;
        },
      )
