-- ===== src/Asl/Runs/Leave.antt =====
-- `outBlocked` of phase1/asl.c against the list of semaphores.
use mathlib.Core.Path.{subst}
use multi_pand_os.Base.{
  sym, ℕ, ◌+◌, ◌≤◌, ◌≡◌, ◌∙◌, ap, Bool, false, some, none, List, ◌∷◌, ◌++◌, arith, map, has, length,
  length-append, Apart,
}
use multi_pand_os.Base.Tally.{tally, tally-append, Once-Apart}
use multi_pand_os.Listx.Ring.{Ring, Ring-frame, SameOutside}
use multi_pand_os.Kernel.{Kernel, Layout, max_proc, s_link, s_procq}
use multi_pand_os.Asl.{out_blocked}
use multi_pand_os.Asl.Active.{Located}
use multi_pand_os.Asl.Out.{Among, out_blocked-others, out_blocked-missing}
use multi_pand_os.Asl.Spec.{Entry, queue, waiters}
use multi_pand_os.Asl.Stored.{
  descs, descs-append, cells, Stored, Sorted, AllEntries-split, AllEntries-append, AllEntries-frame,
}
use multi_pand_os.Asl.Stored.Tally.{
  tally-around, tally-cells, tally-fixed, tally-descs, tally-waiters, length-descs, length-waiters,
}
use multi_pand_os.Asl.Stored.Moves.{Sorted-shift}
use multi_pand_os.Asl.Locate.{NoEntry, Stored-Located}

-- The entry whose queue is the rest of another's.
abbrev pub rest_of : Entry → ℕ → List ℕ → Entry
rest_of e o os = record e { first = o; others = os }

module _ {y : Layout} {is_pcb : ℕ → Bool} {k : Kernel} (xs : List Entry) (e : Entry)
    (ys : List Entry) {fs : List ℕ} {f : ℕ → ℕ} (p : ℕ)
    (w : Stored y is_pcb k (record { entries = xs ++ e ∷ ys; free = fs; sem_of = f }))
    (key : e.key ≡ f p) (absent : NoEntry (f p) xs) where
  found : Located y k (k.p_sem_add p) e.desc (descs xs) (descs ys)
  found =
      subst (λ sem. Located y k sem e.desc (descs xs) (descs ys))
        (sym (ap (λ (g : ℕ → ℕ). g p) w.remembered)) (Stored-Located (f p) xs e ys w key absent)

  few : length (queue e) ≤ max_proc
  few =
      omega (
        arith,
        w.sorted.few_waiters,
        length-waiters xs (e ∷ ys),
        length-append e.others (waiters ys),
      )

  -- The process is not in the queue.
  pub out_blocked-absent : has p (queue e) ≡ false → out_blocked y p k ≡ some (none, k)
  out_blocked-absent out =
      let (before, (at, after)) = AllEntries-split k xs (e ∷ ys) w.entries in
      out_blocked-missing y k p e.desc (descs xs) (descs ys) e.first e.others found at.ring few out

  off_cells :
      (a : ℕ) → tally a (s_procq e.desc ∷ queue e) + tally a (cells xs) + tally a (cells ys) ≤ 1
  off_cells a =
      omega (arith, tally-around xs e ys fs w.sorted a, tally-cells xs a, tally-cells ys a)

  queue_active : Apart (s_procq e.desc ∷ queue e) (y.semd_h ∷ map s_link (descs (xs ++ e ∷ ys)))
  queue_active =
      Once-Apart (s_procq e.desc ∷ queue e) (y.semd_h ∷ map s_link (descs (xs ++ e ∷ ys)))
        (λ a. omega (arith, tally-around xs e ys fs w.sorted a, tally-descs s_link xs (e ∷ ys) a))

  queue_free : Apart (s_procq e.desc ∷ queue e) (y.semd_free_h ∷ map s_link fs)
  queue_free =
      Once-Apart (s_procq e.desc ∷ queue e) (y.semd_free_h ∷ map s_link fs)
        (λ a. omega (arith, tally-around xs e ys fs w.sorted a))

  module _ (before after : List ℕ) (here : queue e ≡ before ++ p ∷ after) where
    pub Stored-Among : Among y k p e.desc (descs xs) (descs ys) before after
    Stored-Among =
        let (low, (at, high)) = AllEntries-split k xs (e ∷ ys) w.entries in
        record {
          located = found;
          queue = subst (Ring k.links (s_procq e.desc)) here at.ring;
          few = subst (λ zs. length zs ≤ max_proc) here few;
          apart =
              subst
                (λ zs.
                  Apart (s_procq e.desc ∷ zs)
                    (y.semd_h ∷ map s_link (descs xs ++ e.desc ∷ descs ys)))
                here
                (subst (λ ds. Apart (s_procq e.desc ∷ queue e) (y.semd_h ∷ map s_link ds))
                  (descs-append xs (e ∷ ys)) queue_active);
        }

    Sorted-rest :
        (o : ℕ) (os : List ℕ)
        → before ++ after ≡ o ∷ os
        → Sorted y is_pcb (xs ++ rest_of e o os ∷ ys) fs
    Sorted-rest o os left =
        let e' = rest_of e o os in
        let more = λ (a : ℕ). ap (tally a) here ∙ tally-append a before (p ∷ after) in
        let less = λ (a : ℕ). sym (ap (tally a) left) ∙ tally-append a before after in
        Sorted-shift w.sorted
          (λ a. omega (
            arith,
            tally-fixed y (xs ++ e' ∷ ys) fs a,
            tally-fixed y (xs ++ e ∷ ys) fs a,
            tally-descs s_link xs (e' ∷ ys) a,
            tally-descs s_procq xs (e' ∷ ys) a,
            tally-descs s_link xs (e ∷ ys) a,
            tally-descs s_procq xs (e ∷ ys) a,
          ))
          (λ a. omega (
            arith,
            tally-waiters xs (e' ∷ ys) a,
            tally-waiters xs (e ∷ ys) a,
            tally-append a e.others (waiters ys),
            tally-append a os (waiters ys),
            more a,
            less a,
          ))
          (omega (arith, length-descs xs (e' ∷ ys), length-descs xs (e ∷ ys)))
          (omega (
            arith,
            length-waiters xs (e' ∷ ys),
            length-waiters xs (e ∷ ys),
            length-append e.others (waiters ys),
            length-append os (waiters ys),
            ap (λ (zs : List ℕ). length zs) here,
            ap (λ (zs : List ℕ). length zs) left,
            length-append before (p ∷ after),
            length-append before after,
          ))

    -- Others wait: the semaphore stays.
    pub out_blocked-rest :
        (o : ℕ) (os : List ℕ)
        → before ++ after ≡ o ∷ os
        → (k' : Kernel) × (out_blocked y p k ≡ some (some p, k'))
          × Stored y is_pcb k'
              (record { entries = xs ++ rest_of e o os ∷ ys; free = fs; sem_of = f })
    out_blocked-rest o os left =
        let (k', runs, ring, alone, active, wrote, others) =
          out_blocked-others y k p e.desc (descs xs) (descs ys) before after o os Stored-Among
            left in
        let ws = s_procq e.desc ∷ queue e in
        let same : SameOutside ws k.links k'.links =
          subst (λ zs. SameOutside (s_procq e.desc ∷ zs) k.links k'.links) (sym here) wrote in
        let keys = λ (d : ℕ). ap (λ (g : Kernel). g.s_key d) others in
        let (low, (at, high)) = AllEntries-split k xs (e ∷ ys) w.entries in
        (
          k',
          runs,
          record {
            active =
                subst (λ ds. Ring k'.links y.semd_h (map s_link ds))
                  (sym (descs-append xs (rest_of e o os ∷ ys))) active;
            free = Ring-frame y.semd_free_h (map s_link fs) ws w.free same queue_free;
            entries =
                AllEntries-append k' xs (rest_of e o os ∷ ys)
                  (AllEntries-frame xs ws k k' same (λ a. omega (arith, off_cells a))
                    (λ d i. keys d) low)
                  (
                    record {
                      ring = subst (Ring k'.links (s_procq e.desc)) left ring;
                      key = keys e.desc ∙ at.key;
                    },
                    AllEntries-frame ys ws k k' same (λ a. omega (arith, off_cells a))
                        (λ d i. keys d) high,
                  );
            remembered = ap (λ (g : Kernel). g.p_sem_add) others ∙ w.remembered;
            sorted = Sorted-rest o os left;
          },
        )
