-- ===== src/Dispatcher.antt =====
-- phase2/exceptions.c: `exceptionHandler`, which sorts exceptions by their code.
pub mod Calls
pub mod PassUp
pub mod Dying
pub mod Timer
pub mod Traps
use Prim.Native.Nat.{bit_and}
use multi_pand_os.Base.{ℕ, ◌/◌, ◌==◌, leb, ◌&&◌, if◌then◌else◌}
use multi_pand_os.Kernel.{Layout}
use multi_pand_os.Machine.{Machine, Cmd}
use multi_pand_os.Interrupts.{interrupt_handler}
use multi_pand_os.Exceptions.Termination.{pass_up_or_die}
use multi_pand_os.Exceptions.Syscalls.{syscall_handler, generalexcept}

abbrev pub pgfaultexcept : ℕ
pgfaultexcept = 0

-- (getCAUSE() & GETEXECCODE) >> CAUSESHIFT
abbrev pub exec_code : ℕ → ℕ
exec_code cause = bit_and cause 0x0000007c / 4

module _ (y : Layout) (m : Machine) where
  -- The `switch` on the code.
  unfoldable pub handle_code : (code : ℕ) → Cmd (Unit {0})
  handle_code code =
      if code == 0
      then interrupt_handler y m
      else if leb 1 code && leb code 3
      then pass_up_or_die y m pgfaultexcept m.prid
      else if leb 4 code && leb code 7
      then pass_up_or_die y m generalexcept m.prid
      else if code == 8
      then syscall_handler y m
      else if leb 9 code && leb code 12
      then pass_up_or_die y m generalexcept m.prid
      else pass_up_or_die y m generalexcept m.prid

  unfoldable pub exception_handler : Cmd (Unit {0})
  exception_handler = handle_code (exec_code m.cause)
