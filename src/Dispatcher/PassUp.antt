-- ===== src/Dispatcher/PassUp.antt =====
-- Exceptions that the nucleus passes up, by `exceptionHandler` and `passUpOrDie` of
-- phase2/exceptions.c.
use multi_pand_os.Base.{
  ◌∙◌, ℕ, ◌<◌, ◌≡◌, ◌≢◌, refl, true, false, arith, leb, ◌&&◌, if◌then◌else◌, ne→==, Bool-cases, inl,
  inr,
}
use multi_pand_os.Kernel.{Kernel, Layout, null}
use multi_pand_os.Machine.{Machine, stop, ldcxt}
use multi_pand_os.Exceptions.Termination.{pass_up_or_die, pass_up, ncpu}
use multi_pand_os.Exceptions.Syscalls.{generalexcept}
use multi_pand_os.Dispatcher.{exec_code, exception_handler, handle_code, pgfaultexcept}

-- A process that has a support structure runs.
pub record Supported (m : Machine) (k : Kernel) (proc support : ℕ) : Type 0 where
  pub in_range : m.prid < ncpu
  pub runs : k.current_process m.prid ≡ proc
  pub process : proc ≢ null
  pub state : k.current_state ≢ null
  pub structure : k.p_support_struct proc ≡ support
  pub given : support ≢ null

pass_up_or_die-Supported :
    (y : Layout) (m : Machine) (k : Kernel) (proc support t : ℕ)
    → Supported m k proc support
    → pass_up_or_die y m t m.prid k
      ≡ stop (ldcxt (k.sup_stack_ptr support t) (k.sup_status support t) (k.sup_pc support t)) k
unfolding pass_up_or_die pass_up
pass_up_or_die-Supported y m k proc support t s =
    let one : leb ncpu m.prid ≡ false = ground (arith, s.in_range) in
    rw (one, s.runs, ne→== _ _ s.process, ne→== _ _ s.state, s.structure, ne→== _ _ s.given) refl

-- The codes of the `switch` that call `passUpOrDie`.
pub exception_handler-passed :
    (y : Layout) (m : Machine) (k : Kernel)
    → exec_code m.cause ≢ 0
    → exec_code m.cause ≢ 8
    → exception_handler y m k
      ≡ pass_up_or_die y m
          (if leb (exec_code m.cause) 3 then pgfaultexcept else generalexcept)
          m.prid
          k
unfolding exception_handler handle_code
exception_handler-passed y m k io call =
    let some_code : leb 1 (exec_code m.cause) ≡ true = ground arith in
    elim (Bool-cases (leb (exec_code m.cause) 3)) [
      | inl low ↦ rw (ne→== _ _ io, some_code, low) refl
      | inr high ↦ elim (Bool-cases (leb 4 (exec_code m.cause) && leb (exec_code m.cause) 7)) [
        | inl mid ↦ rw (ne→== _ _ io, some_code, high, mid) refl
        | inr over ↦ elim (Bool-cases (leb 9 (exec_code m.cause) && leb (exec_code m.cause) 12)) [
          | inl trap ↦ rw (ne→== _ _ io, some_code, high, over, ne→== _ _ call, trap) refl
          | inr odd ↦ rw (ne→== _ _ io, some_code, high, over, ne→== _ _ call, odd) refl
        ]
      ]
    ]

-- Every exception with a code but 0 and 8, SYSCALL in kernel mode (11) included, is passed up, if the
-- process that runs has a support structure: the processor continues with the structure's context for page faults on the
-- codes 1 to 3, and with the one for general exceptions on all others.
pub exception_handler-ldcxt :
    (y : Layout) (m : Machine) (k : Kernel) (proc support : ℕ)
    → exec_code m.cause ≢ 0
    → exec_code m.cause ≢ 8
    → Supported m k proc support
    → let t = if leb (exec_code m.cause) 3 then pgfaultexcept else generalexcept in
      exception_handler y m k
      ≡ stop (ldcxt (k.sup_stack_ptr support t) (k.sup_status support t) (k.sup_pc support t)) k
exception_handler-ldcxt y m k proc support io call s =
    exception_handler-passed y m k io call
    ∙ pass_up_or_die-Supported y m k proc support
        (if leb (exec_code m.cause) 3 then pgfaultexcept else generalexcept) s
