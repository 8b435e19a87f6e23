-- ===== src/Tests/Calls.antt =====
-- System calls of phase2/exceptions.c, from the exception on.
use multi_pand_os.Base.{◌==◌, if◌then◌else◌, ◌≡◌, refl, arith, [], ◌∷◌}
use multi_pand_os.Base.Word.{sub32}
use multi_pand_os.Kernel.{Kernel, State, zero_state}
use multi_pand_os.Machine.{Machine, IsSpinLock, stop, ldst, panic}
use multi_pand_os.Exceptions.Syscalls.{passeren, term_process}
use multi_pand_os.Dispatcher.{exception_handler}
use multi_pand_os.Listx.{Links, list_add_tail, list_add_between}
use multi_pand_os.Pcb.Queue.{IsQueue}
use multi_pand_os.Exceptions.Syscalls.Terminate.{Ends}
use multi_pand_os.Exceptions.Syscalls.Deadlock.{RunsBelow, term_process-panics}
use multi_pand_os.Dispatcher.Traps.{exception_handler-privinstr}
use multi_pand_os.Tests.Data.{lay, mach, alone, memory}

-- The cause is a system call in user mode.
abbrev trapped : Machine
trapped = record mach { cause = 32 }

trapped-IsSpinLock : IsSpinLock trapped
trapped-IsSpinLock = record { take_free = refl; wait_held = refl; give_back = λ w. refl }

-- The cause is a system call in kernel mode.
abbrev called : Machine
called = record mach { cause = 44 }

-- A state with PASSEREN in each register, in machine mode.
abbrev asking : State
asking = record zero_state { status = 0x1800; gpr = λ i. passeren }

abbrev caller : Kernel
caller = record (memory alone) {
  current_process = λ i. 1000;
  state_at = λ a. asking;
  word = λ a. 1;
}

-- The same call in user mode, of the child at 1384 of the process at 1576, with a ready process.
abbrev tree : Links
tree = list_add_tail 1404 1588 (list_add_tail 1000 400 alone)

abbrev intruder : Kernel
intruder = record (memory tree) {
  process_count = 3;
  waiting_count = 1;
  current_process = λ i. 1384;
  p_parent = λ p. if p == 1384 then 1576 else 0;
  state_at = λ a. record asking { status = 0 };
}

intruder-RunsBelow : RunsBelow lay intruder 1384 1576 [] [] (1000 ∷ []) []
unfolding list_add_tail list_add_between
intruder-RunsBelow = record {
  queues = record {
    ready = record {
      chain = ((refl, refl), tt);
      closed = (refl, refl);
      distinct = (refl, (refl, tt));
    };
    free = record { chain = tt; closed = (refl, refl); distinct = (refl, tt) };
    apart = (refl, (refl, tt));
    few_ready = omega arith;
    few_free = omega arith;
  };
  not_ready = refl;
  not_free = refl;
  childless = record {
    ring = record { chain = tt; closed = (refl, refl); distinct = (refl, tt) };
    parents = tt;
  };
  siblings = record {
    chain = ((refl, refl), tt);
    closed = (refl, refl);
    distinct = (refl, (refl, tt));
  };
  known = refl;
  off_ready = (refl, (refl, tt));
  off_free = (refl, (refl, tt));
  off_children = (refl, (refl, tt));
}

exception_handler-privinstr_example :
    (k' : Kernel) × (exception_handler lay trapped intruder ≡ stop (ldst (k'.p_s 1000)) k')
    × IsQueue k' 400 []
    × (k'.process_count ≡ sub32 3 1)
    × (k'.current_process 0 ≡ 1000)
    × (k'.global_lock ≡ 0)
exception_handler-privinstr_example =
    exception_handler-privinstr lay trapped intruder 1576 [] [] 1000 [] [] trapped-IsSpinLock refl
      (omega arith) (omega arith) refl refl refl intruder-RunsBelow

-- The child ends itself while its parent waits.
abbrev leaving : Kernel
leaving = record (memory (list_add_tail 1404 1588 alone)) {
  process_count = 2;
  waiting_count = 1;
  current_process = λ i. 1384;
  p_parent = λ p. if p == 1384 then 1576 else 0;
}

leaving-RunsBelow : RunsBelow lay leaving 1384 1576 [] [] [] []
unfolding list_add_tail list_add_between
leaving-RunsBelow = record {
  queues = record {
    ready = record { chain = tt; closed = (refl, refl); distinct = (refl, tt) };
    free = record { chain = tt; closed = (refl, refl); distinct = (refl, tt) };
    apart = (refl, tt);
    few_ready = omega arith;
    few_free = omega arith;
  };
  not_ready = refl;
  not_free = refl;
  childless = record {
    ring = record { chain = tt; closed = (refl, refl); distinct = (refl, tt) };
    parents = tt;
  };
  siblings = record {
    chain = ((refl, refl), tt);
    closed = (refl, refl);
    distinct = (refl, (refl, tt));
  };
  known = refl;
  off_ready = (refl, (refl, tt));
  off_free = (refl, (refl, tt));
  off_children = (refl, (refl, tt));
}

term_process-panics_example : Ends (term_process lay mach 1384 leaving) panic
term_process-panics_example =
    term_process-panics lay mach leaving 1384 1576 [] [] [] leaving-RunsBelow refl refl refl
