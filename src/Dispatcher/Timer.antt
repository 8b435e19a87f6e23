-- ===== src/Dispatcher/Timer.antt =====
-- The timer bit in the cause, between `exceptionHandler` of phase2/exceptions.c and `interruptHandler`
-- of phase2/interrupts.c.
use multi_pand_os.Base.{ℕ, ◌≤◌, ◌≡◌, refl, true, false, arith, leb, ◌∙◌}
use multi_pand_os.Base.Bits.{field_high}
use multi_pand_os.Base.Word.{tests_bit}
use multi_pand_os.Kernel.{Kernel, Layout}
use multi_pand_os.Machine.{Machine}
use multi_pand_os.Interrupts.{mip_mtip_mask}
use multi_pand_os.Exceptions.Termination.{pass_up_or_die}
use multi_pand_os.Exceptions.Syscalls.{generalexcept}
use multi_pand_os.Dispatcher.{exec_code, exception_handler}
use multi_pand_os.Dispatcher.PassUp.{exception_handler-passed}

exec_code-mtip : (c : ℕ) → tests_bit c mip_mtip_mask ≡ true → 16 ≤ exec_code c
exec_code-mtip c set = field_high c (λ z. ground (arith, z, set))

-- The bit of the cause that `interruptHandler` wants for either of its timers, MIP_MTIP_MASK, keeps
-- `exceptionHandler` from calling it: whatever the cause is beside that bit, and whatever the state,
-- the exception goes to `passUpOrDie` as a general one.
pub exception_handler-mtip :
    (y : Layout) (m : Machine) (k : Kernel)
    → tests_bit m.cause mip_mtip_mask ≡ true
    → exception_handler y m k ≡ pass_up_or_die y m generalexcept m.prid k
exception_handler-mtip y m k set =
    let high = exec_code-mtip m.cause set in
    let no_fault : leb (exec_code m.cause) 3 ≡ false = ground arith in
    exception_handler-passed y m k (λ e. omega (arith, e, high)) (λ e. omega (arith, e, high))
    ∙ rw no_fault refl
