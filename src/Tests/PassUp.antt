-- ===== src/Tests/PassUp.antt =====
-- A page fault of a process with a support structure, in phase2/exceptions.c.
use multi_pand_os.Base.{◌+◌, ◌≡◌, refl, arith}
use multi_pand_os.Kernel.{Kernel}
use multi_pand_os.Machine.{Machine, stop, ldcxt}
use multi_pand_os.Dispatcher.{exception_handler}
use multi_pand_os.Dispatcher.PassUp.{Supported, exception_handler-ldcxt}
use multi_pand_os.Tests.Data.{lay, mach, alone, memory}

-- The cause has the code 3.
abbrev faulting : Machine
faulting = record mach { cause = 12 }

abbrev faulted : Kernel
faulted = record (memory alone) {
  current_process = λ i. 1000;
  p_support_struct = λ p. 70000;
  sup_pc = λ s t. s + t;
}

faulted-Supported : Supported faulting faulted 1000 70000
faulted-Supported = record {
  in_range = omega arith;
  runs = refl;
  process = omega arith;
  state = omega arith;
  structure = refl;
  given = omega arith;
}

exception_handler-ldcxt_example :
    exception_handler lay faulting faulted ≡ stop (ldcxt 0 0 70000) faulted
exception_handler-ldcxt_example =
    exception_handler-ldcxt lay faulting faulted 1000 70000 (omega arith) (omega arith)
      faulted-Supported
