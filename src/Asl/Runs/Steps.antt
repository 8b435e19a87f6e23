-- ===== src/Asl/Runs/Steps.antt =====
-- Each of the functions of phase1/asl.c against the same operation on a list of semaphores.
use mathlib.Core.Path.{subst}
use multi_pand_os.Base.{
  map, ℕ, ◌<◌, ◌≡◌, ◌∙◌, sym, refl, ap, Bool, true, Option, none, some, List, [], ◌∷◌, ◌++◌, arith,
  has, length, erase, erase-split, Bool-cases, inl, inr, ◌==◌,
}
use multi_pand_os.Listx.Ring.{Ring}
use multi_pand_os.Listx.Edit.{list_empty-cons}
use multi_pand_os.Kernel.{Kernel, Layout, max_proc, s_procq, s_link, ◌>>=◌}
use multi_pand_os.Asl.{insert_blocked, remove_blocked, out_blocked, head_blocked}
use multi_pand_os.Asl.Active.{active-Located, active-NoKey, semd_of_s_link-s_link}
use multi_pand_os.Asl.Insert.{insert_blocked-full}
use multi_pand_os.Asl.Remove.{remove_blocked-NoKey}
use multi_pand_os.Asl.Out.{out_blocked-NoKey}
use multi_pand_os.Asl.Spec.{
  Op, insert, remove, out, head, Answer, code, process, Sems, Entry, queue, waiters, spec_step,
  insert_at, remove_at, out_at, head_at, activate, leave_at, Allowed,
}
use multi_pand_os.Asl.Stored.{Stored, AllEntries-split, descs}
use multi_pand_os.Asl.Stored.Tally.{Fresh}
use multi_pand_os.Asl.Locate.{
  NoEntry, Found, locate-cases, Stored-Located, Stored-Actives, NoEntry-NoKey,
}
use multi_pand_os.Asl.Runs.Activate.{insert_blocked-begun}
use multi_pand_os.Asl.Runs.Free.{Entry-lone, out_blocked-lone}
use multi_pand_os.Asl.Runs.Join.{insert_blocked-joined}
use multi_pand_os.Asl.Runs.Leave.{out_blocked-absent, out_blocked-rest}
use multi_pand_os.Asl.Runs.Remove.{remove_blocked-found}

erase-last : (p x : ℕ) (xs : List ℕ) → erase p (x ∷ xs) ≡ [] → (x ≡ p) × (xs ≡ [])
erase-last p x xs e = elim (Bool-cases (p == x)) [
  | inl i ↦ (ground arith, ground (arith, e, i))
  | inr o ↦ absurd (ground (arith, e, o))
]

unfoldable pub run_step : Layout → Op → Kernel → Option (Answer × Kernel)
run_step y (insert sem p) k = do (n, k') ← insert_blocked y sem p k; some (code n, k')
run_step y (remove sem) k = do (a, k') ← remove_blocked y sem k; some (process a, k')
run_step y (out p) k = do (a, k') ← out_blocked y p k; some (process a, k')
run_step y (head sem) k = do a ← head_blocked y sem k; some (process a, k)

-- The step answers `r.0` and leaves a memory that holds `r.1`.
abbrev pub Does : Layout → (ℕ → Bool) → Op → Kernel → Answer × Sems → Type 0
Does y is_pcb o k r = (k' : Kernel) × (run_step y o k ≡ some (r.0, k')) × Stored y is_pcb k' r.1

module _ {y : Layout} {is_pcb : ℕ → Bool} {k : Kernel} {s : Sems} (w : Stored y is_pcb k s) where
  around :
      (xs : List Entry) (e : Entry) (ys : List Entry)
      → s.entries ≡ xs ++ e ∷ ys
      → Stored y is_pcb k (record { entries = xs ++ e ∷ ys; free = s.free; sem_of = s.sem_of })
  around xs e ys split =
      subst (λ es. Stored y is_pcb k (record { entries = es; free = s.free; sem_of = s.sem_of }))
        split w

  remove-Does : (sem : ℕ) → Does y is_pcb (remove sem) k (spec_step (remove sem) s)
  unfolding run_step
  remove-Does sem = elim (locate-cases sem s.entries) [
    | inl (missing, absent) ↦
        subst (λ r. Does y is_pcb (remove sem) k (remove_at s r)) (sym missing)
          (
            k,
            rw
                (remove_blocked-NoKey {y = y} {k = k} sem (descs s.entries) (Stored-Actives w)
                  (NoEntry-NoKey k sem s.entries w.entries absent))
                refl,
            w,
          )
    | inr (xs, e, ys, f) ↦
        let (k', runs, held) =
          remove_blocked-found xs e ys (around xs e ys f.split) sem f.key f.before in
        subst (λ r. Does y is_pcb (remove sem) k (remove_at s r)) (sym f.located)
          (k', rw runs refl, held)
  ]

  head-Does : (sem : ℕ) → Does y is_pcb (head sem) k (spec_step (head sem) s)
  unfolding run_step head_blocked
  head-Does sem = elim (locate-cases sem s.entries) [
    | inl (missing, absent) ↦
        subst (λ r. Does y is_pcb (head sem) k (head_at s r)) (sym missing)
          (
            k,
            rw
                (active-NoKey {y = y} {k = k} sem (Stored-Actives w)
                  (NoEntry-NoKey k sem s.entries w.entries absent))
                refl,
            w,
          )
    | inr (xs, e, ys, f) ↦
        let held = around xs e ys f.split in
        let (before, (at, after)) = AllEntries-split k xs (e ∷ ys) held.entries in
        subst (λ r. Does y is_pcb (head sem) k (head_at s r)) (sym f.located)
          (
            k,
            rw
                (
                  active-Located (Stored-Located sem xs e ys held f.key f.before),
                  semd_of_s_link-s_link e.desc,
                  list_empty-cons (s_procq e.desc) e.first e.others at.ring,
                  at.ring.chain.0.0,
                )
                refl,
            w,
          )
  ]

  activate-Does :
      (sem p : ℕ) (fs : List ℕ)
      → s.free ≡ fs
      → NoEntry sem s.entries
      → Fresh is_pcb s.entries p
      → length (waiters s.entries) < max_proc
      → Does y is_pcb (insert sem p) k (activate sem p fs s)
  unfolding run_step
  activate-Does sem p [] none_free absent new room = (
    k,
    rw
        (insert_blocked-full sem p (descs s.entries) (Stored-Actives w)
          (NoEntry-NoKey k sem s.entries w.entries absent)
          (subst (λ fs. Ring k.links y.semd_free_h (map s_link fs)) none_free w.free))
        refl,
    w,
  )
  activate-Does sem p (d ∷ ds) free absent new room =
      let held : Stored y is_pcb k
          (record { entries = s.entries; free = d ∷ ds; sem_of = s.sem_of }) =
        subst
          (λ fs. Stored y is_pcb k (record { entries = s.entries; free = fs; sem_of = s.sem_of }))
          free w in
      let (k', runs, held') = insert_blocked-begun d sem p held new absent room in
      (k', rw runs refl, held')

  insert-Does :
      (sem p : ℕ)
      → Fresh is_pcb s.entries p
      → length (waiters s.entries) < max_proc
      → Does y is_pcb (insert sem p) k (spec_step (insert sem p) s)
  unfolding run_step
  insert-Does sem p new room = elim (locate-cases sem s.entries) [
    | inl (missing, absent) ↦
        subst (λ r. Does y is_pcb (insert sem p) k (insert_at sem p s r)) (sym missing)
          (activate-Does sem p s.free refl absent new room)
    | inr (xs, e, ys, f) ↦
        let (k', runs, held) =
          insert_blocked-joined xs e ys p (around xs e ys f.split)
            (subst (λ es. Fresh is_pcb es p) f.split new) sem f.key f.before
            (subst (λ es. length (waiters es) < max_proc) f.split room) in
        subst (λ r. Does y is_pcb (insert sem p) k (insert_at sem p s r)) (sym f.located)
          (k', rw runs refl, held)
  ]

  out-absent : (p : ℕ) → NoEntry (s.sem_of p) s.entries → Does y is_pcb (out p) k (process none, s)
  unfolding run_step
  out-absent p absent =
      let none_there = NoEntry-NoKey k (k.p_sem_add p) s.entries w.entries (
        subst (λ sem. NoEntry sem s.entries) (sym (ap (λ (g : ℕ → ℕ). g p) w.remembered)) absent) in
      (k, rw (out_blocked-NoKey y k p (descs s.entries) (Stored-Actives w) none_there) refl, w)

  leave-Does :
      (p : ℕ) (xs : List Entry) (e : Entry) (ys : List Entry) (left : List ℕ)
      → Found (s.sem_of p) s.entries xs e ys
      → has p (queue e) ≡ true
      → erase p (queue e) ≡ left
      → Does y is_pcb (out p) k (leave_at p s (xs, e, ys) left)
  unfolding run_step
  leave-Does p xs e ys [] f i nothing =
      let (first, others) = erase-last p e.first e.others nothing in
      let held =
        subst
          (λ x.
            Stored y is_pcb k (record { entries = xs ++ x ∷ ys; free = s.free; sem_of = s.sem_of }))
          (Entry-lone e p first others) (around xs e ys f.split) in
      let (k', runs, held') = out_blocked-lone xs e.desc e.key p ys held f.key f.before in
      (k', rw runs refl, held')
  leave-Does p xs e ys (o ∷ os) f i others =
      let (before, after, here, rest) = erase-split p (queue e) i in
      let (k', runs, held) =
        out_blocked-rest xs e ys p (around xs e ys f.split) f.key f.before before after here o os
          (sym rest ∙ others) in
      (k', rw runs refl, held)

  out-Does : (p : ℕ) → Does y is_pcb (out p) k (spec_step (out p) s)
  unfolding run_step
  out-Does p = elim (locate-cases (s.sem_of p) s.entries) [
    | inl (missing, absent) ↦
        subst (λ r. Does y is_pcb (out p) k (out_at p s r)) (sym missing) (out-absent p absent)
    | inr (xs, e, ys, f) ↦
        subst (λ r. Does y is_pcb (out p) k (out_at p s r)) (sym f.located)
          (elim (Bool-cases (has p (queue e))) [
            | inl i ↦ rw i (leave-Does p xs e ys (erase p (queue e)) f i refl)
            | inr o ↦
                let runs = out_blocked-absent xs e ys p (around xs e ys f.split) f.key f.before o in
                rw o (k, rw runs refl, w)
          ])
  ]

pub run_step-Does :
    {y : Layout} {is_pcb : ℕ → Bool} {k : Kernel} {s : Sems} (o : Op)
    → Stored y is_pcb k s
    → Allowed is_pcb o s
    → Does y is_pcb o k (spec_step o s)
run_step-Does (insert sem p) w (kind, absent, room) =
    insert-Does w sem p (record { kind = kind; out = absent }) room
run_step-Does (remove sem) w ok = remove-Does w sem
run_step-Does (out p) w ok = out-Does w p
run_step-Does (head sem) w ok = head-Does w sem
