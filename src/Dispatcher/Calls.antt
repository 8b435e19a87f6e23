-- ===== src/Dispatcher/Calls.antt =====
-- SYSCALL from the exception on, through `exceptionHandler` and `syscallHandler` of
-- phase2/exceptions.c. The code is 11 in kernel mode and 8 in user mode.
use multi_pand_os.Base.{◌≡◌, ◌≢◌, true, false, ==_refl, ne→==, refl}
use multi_pand_os.Base.Word.{add32, is_negative}
use multi_pand_os.Kernel.{Kernel, Layout, State, null}
use multi_pand_os.Machine.{Machine}
use multi_pand_os.Exceptions.Termination.{program_trap_handler}
use multi_pand_os.Exceptions.Syscalls.{
  saved, with_saved, is_kernel_mode, syscall_handler, privinstr,
}
use multi_pand_os.Dispatcher.{exec_code, exception_handler, handle_code}

-- The saved state as the call finds it: the processor is to go on behind the call.
abbrev pub advanced : State → State
advanced s = record s { pc_epc = add32 s.pc_epc 4 }

-- The saved state names a privileged instruction as the cause.
abbrev pub blamed : Kernel → Kernel
blamed k = with_saved (λ s. record s { cause = privinstr }) (with_saved advanced k)

pub exception_handler-user :
    (y : Layout) (m : Machine) (k : Kernel)
    → exec_code m.cause ≡ 8
    → k.current_state ≢ null
    → k.current_process m.prid ≢ null
    → is_negative ((saved k).gpr 24) ≡ true
    → is_kernel_mode y m (saved k) ≡ false
    → exception_handler y m k ≡ program_trap_handler y m (blamed k)
unfolding exception_handler handle_code syscall_handler
exception_handler-user y m k code state cur call mode =
    let asked : is_negative ((saved (with_saved advanced k)).gpr 24) ≡ true =
      rw (==_refl k.current_state) call in
    let barred : is_kernel_mode y m (saved (with_saved advanced k)) ≡ false =
      rw (==_refl k.current_state) mode in
    rw (code, ne→== _ _ state, ne→== _ _ cur, asked, barred) refl
