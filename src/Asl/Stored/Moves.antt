-- ===== src/Asl/Stored/Moves.antt =====
-- Descriptors and processes of phase1/asl.c that change lists.
use multi_pand_os.Base.{
  ℕ, ◌+◌, ◌<◌, ◌≤◌, ◌≡◌, Bool, List, arith, length, Bool-cases, inl, inr, ◌==◌,
}
use multi_pand_os.Base.Tally.{
  tally, one_if, tally-out, tally-in, tally-has, Distinct-Once, Once-Distinct,
}
use multi_pand_os.Kernel.{Layout, max_proc}
use multi_pand_os.Asl.Spec.{Entry, waiters}
use multi_pand_os.Asl.Stored.Tally.{Fresh}
use multi_pand_os.Asl.Stored.{descs, fixed, Sorted}

-- Descriptors that change lists, and processes that leave.
pub Sorted-shift :
    {y : Layout} {is_pcb : ℕ → Bool} {es es' : List Entry} {fs fs' : List ℕ}
    → Sorted y is_pcb es fs
    → ((a : ℕ) → tally a (fixed y es' fs') ≡ tally a (fixed y es fs))
    → ((a : ℕ) → tally a (waiters es') ≤ tally a (waiters es))
    → length (descs es') + length fs' ≡ length (descs es) + length fs
    → length (waiters es') ≤ length (waiters es)
    → Sorted y is_pcb es' fs'
Sorted-shift {y} {is_pcb} {es} {es'} {fs} {fs'} w fix wait ds ws = record {
  distinct =
      Once-Distinct (fixed y es' fs')
        (λ a. omega (arith, fix a, Distinct-Once (fixed y es fs) w.distinct a));
  waiting =
      Once-Distinct (waiters es')
        (λ a. omega (arith, wait a, Distinct-Once (waiters es) w.waiting a));
  not_pcbs = λ a i.
      w.not_pcbs a
        (tally-has a (fixed y es fs) (omega (arith, fix a, tally-in a (fixed y es' fs') i)));
  pcbs = λ a i.
      w.pcbs a (tally-has a (waiters es) (omega (arith, wait a, tally-in a (waiters es') i)));
  few_descs = omega (arith, ds, w.few_descs);
  few_waiters = omega (arith, ws, w.few_waiters);
}

-- One more process waits.
pub Sorted-joined :
    {y : Layout} {is_pcb : ℕ → Bool} {es es' : List Entry} {fs fs' : List ℕ} (p : ℕ)
    → Sorted y is_pcb es fs
    → Fresh is_pcb es p
    → length (waiters es) < max_proc
    → ((a : ℕ) → tally a (fixed y es' fs') ≡ tally a (fixed y es fs))
    → ((a : ℕ) → tally a (waiters es') ≡ one_if a p + tally a (waiters es))
    → length (descs es') + length fs' ≡ length (descs es) + length fs
    → length (waiters es') ≡ 1 + length (waiters es)
    → Sorted y is_pcb es' fs'
Sorted-joined {y} {is_pcb} {es} {es'} {fs} {fs'} p w new room fix wait ds ws = record {
  distinct =
      Once-Distinct (fixed y es' fs')
        (λ a. omega (arith, fix a, Distinct-Once (fixed y es fs) w.distinct a));
  waiting = Once-Distinct (waiters es') (λ a.
      let fresh = tally-out p (waiters es) new.out in
      let once = Distinct-Once (waiters es) w.waiting a in
      elim (Bool-cases (a == p)) [
        | inl e ↦ ground (arith, wait a, fresh, e)
        | inr e ↦ ground (arith, wait a, once, e)
      ]);
  not_pcbs = λ a i.
      w.not_pcbs a
        (tally-has a (fixed y es fs) (omega (arith, fix a, tally-in a (fixed y es' fs') i)));
  pcbs = λ a i. elim (Bool-cases (a == p)) [
    | inl e ↦ ground (arith, new.kind, e)
    | inr e ↦ w.pcbs a (
        tally-has a (waiters es)
          (let there = tally-in a (waiters es') i in ground (arith, wait a, there, e)))
  ];
  few_descs = omega (arith, ds, w.few_descs);
  few_waiters = omega (arith, ws, room);
}
