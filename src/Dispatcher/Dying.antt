-- ===== src/Dispatcher/Dying.antt =====
-- Exceptions of a process without a support structure, by `exceptionHandler` and `passUpOrDie` of
-- phase2/exceptions.c: the process and all that descend from it end.
use multi_pand_os.Base.{
  ℕ, ◌+◌, ◌<◌, ◌≡◌, ◌≢◌, ◌∙◌, ◌⊎◌, refl, false, List, ◌∷◌, ◌++◌, arith, has, length, leb, ne→==,
}
use multi_pand_os.Kernel.{Kernel, Layout, null, max_proc}
use multi_pand_os.Machine.{Machine, ok}
use multi_pand_os.Scheduler.{schedule}
use multi_pand_os.Scheduler.Branches.{schedule_lem, scheduled, LeftReady}
use multi_pand_os.Exceptions.Termination.{
  pass_up_or_die, die_of, ncpu, terminate_process, clear_current,
}
use multi_pand_os.Exceptions.Destroy.{Queues}
use multi_pand_os.Exceptions.Forest.{Forest, members}
use multi_pand_os.Exceptions.Progeny.State.{Doomed, counted_down, erase_all}
use multi_pand_os.Exceptions.Ending.{ChildOf, all_of, terminate_process-Queues}
use multi_pand_os.Dispatcher.{exec_code, exception_handler}
use multi_pand_os.Dispatcher.PassUp.{exception_handler-passed}

-- The process `q` runs and has no support structure.
pub record Unsupported (m : Machine) (k : Kernel) (q : ℕ) : Type 0 where
  pub in_range : m.prid < ncpu
  pub runs : k.current_process m.prid ≡ q
  pub state : k.current_state ≢ null
  pub none_given : k.p_support_struct q ≡ null

pass_up_or_die-ended :
    (y : Layout) (m : Machine) (k k' : Kernel) (q t : ℕ)
    → Unsupported m k q
    → q ≢ null
    → terminate_process y q k ≡ ok tt k'
    → pass_up_or_die y m t m.prid k ≡ schedule y m (clear_current y m k')
unfolding pass_up_or_die die_of
pass_up_or_die-ended y m k k' q t u process e =
    let one : leb ncpu m.prid ≡ false = ground (arith, u.in_range) in
    rw (one, u.runs, ne→== _ _ process, ne→== _ _ u.state, u.none_given, e) refl

-- Every exception with a code but 0 and 8, SYSCALL in kernel mode (11) included, ends a process that
-- has no support structure, with all that descend from it: they wait behind the free PCBs, `process_count` has gone down once
-- for each, and the scheduler has gone on with the ready processes that are left, in order. This
-- holds for the trees and the places in them of `terminateProcess`.
pub exception_handler-ended :
    (y : Layout) (m : Machine) (parent_of : ℕ → ℕ) (k : Kernel) (rs fs : List ℕ) (q : ℕ)
    (f : Forest)
    → exec_code m.cause ≢ 0
    → exec_code m.cause ≢ 8
    → Unsupported m k q
    → Doomed y parent_of k rs fs q f
    → has q (y.ready_queue ∷ y.pcb_free_h ∷ fs) ≡ false
    → length fs + length (members f) < max_proc
    → (k.p_parent q ≡ null)
      ⊎ ((parent : ℕ) × (before : List ℕ) × (after : List ℕ) × ChildOf parent_of k q parent before
            after
          × (has parent (null ∷ q ∷ members f) ≡ false))
    → (k' : Kernel) × (exception_handler y m k
        ≡ scheduled m (erase_all (all_of q f) rs) (clear_current y m k'))
      × LeftReady y m (erase_all (all_of q f) rs) (clear_current y m k')
      × Queues y k' (erase_all (all_of q f) rs) (fs ++ all_of q f)
      × (k'.process_count ≡ counted_down (length (all_of q f)) k.process_count)
exception_handler-ended y m parent_of k rs fs q f io call u d out few place =
    let (k', ends, queues, count) =
      terminate_process-Queues y parent_of k rs fs q f d out few place in
    let (goes_on, left) =
      schedule_lem y m (clear_current y m k') (erase_all (all_of q f) rs) queues.ready in
    (
      k',
      exception_handler-passed y m k io call
          ∙ (pass_up_or_die-ended y m k k' q _ u (λ z. ground (arith, d.distinct.0, z)) ends
              ∙ goes_on),
      left,
      queues,
      count,
    )
