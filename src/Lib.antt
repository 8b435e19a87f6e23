-- ===== src/Lib.antt =====
-- MultiPandOS: a model of its nucleus, and what its parts do.
--
-- The program is the kernel of a small teaching operating system for a RISC-V simulator. Its
-- process control blocks (PCBs) and semaphore descriptors live in two static tables and are linked
-- into circular lists (phase1); the nucleus proper (phase2) boots, schedules, and handles system
-- calls, traps and interrupts. klog.c keeps a log in memory.
--
-- Files and code:
--   Base          booleans, numbers, lists and 32-bit words shared by all modules
--   Listx         headers/listx.h: INIT_LIST_HEAD, list_add, list_add_tail, list_del, list_for_each
--   Kernel        headers/types.h, the constants of headers/const.h, and the globals
--   Pcb           phase1/pcb.c: Pcb/Queue and Pcb/Fifo (mkEmptyProcQ, insertProcQ, removeProcQ,
--                 outProcQ), Pcb/Alloc (initPcbs, allocPcb, freePcb), Pcb/Pools (runs of allocPcb,
--                 freePcb and the queue functions), Pcb/Tree (insertChild, removeChild, outChild),
--                 Pcb/First (outProcQ and outChild against removeProcQ and removeChild), Pcb/Copy
--                 (memcpy)
--   Asl           phase1/asl.c: initASL, insertBlocked, removeBlocked, outBlockedPid, outBlocked,
--                 headBlocked; Asl/Spec is the list of semaphores that they stand for, Asl/Stored
--                 how it lies in memory, and Asl/Runs follows runs of them
--   Machine       the calls of the machine's library, and the monad of phase2
--   Scheduler     phase2/scheduler.c: schedule
--   Exceptions    phase2/exceptions.c: Exceptions/Termination (terminateProcess, terminateProgeny,
--                 destroyProcess, passUpOrDie, programTrapHandler) and Exceptions/Syscalls
--                 (syscallHandler, one function for each case; Exceptions/Syscalls/Terminate and
--                 Exceptions/Syscalls/Deadlock follow TERMPROCESS);
--                 Exceptions/Forest, Exceptions/Progeny and Exceptions/Ending are about the
--                 processes that end with one
--   Interrupts    phase2/interrupts.c: handlePLT, handleIntervalTimer, deviceHandler,
--                 interruptHandler; Interrupts/Turns and Interrupts/RoundRobin follow a round of
--                 handlePLT, Interrupts/Devices and Interrupts/Unawaited the loops over the devices
--   Dispatcher    phase2/exceptions.c: exceptionHandler; Dispatcher/Calls, Dispatcher/Traps,
--                 Dispatcher/PassUp, Dispatcher/Dying and Dispatcher/Timer follow an exception
--                 through its handler
--   Initial       phase2/initial.c: main, memset; Initial/Prepare and Initial/Boot follow main to
--                 the first process
--   Klog          klog.c
--   P1Test        phase1/p1test.c: P1Test/Terminal (termprint), P1Test/State (addokbuf, adderrbuf),
--                 P1Test/Checks and P1Test/Main (main), run in P1Test/Passes; P1Test/Printing is
--                 about a terminal that is busy for a while
--   P2Test        phase2/p2test.c: P2Test/Print (print), P2Test/Root (test), P2Test/Timing (p2, p3,
--                 hp_p1), P2Test/Traps (p4 to p7), P2Test/Family (p8root to p10);
--                 P2Test/Follow gives such a process answers, for print in P2Test/Printed and for
--                 the loop of p3 in P2Test/Waiting
--   Tests         concrete memories, at which the theorems are applied and the model is run
--
-- The memory is a record, Kernel.Kernel. Each field of a structure is a map from the structure's
-- address, so that two pointers to one PCB are one number and a write through one is seen through
-- the other; next and prev are two such maps, Listx.Links, over the addresses of all list_heads. The
-- address of a member is the structure's plus an offset, and container_of subtracts it. An int, an
-- unsigned int or a pointer is its 32-bit pattern, and sums and differences wrap. What a list stands
-- for is the predicate Listx.Ring.Ring: the addresses behind a head, in order, linked both ways.
--
-- A function of phase1 is a function of the memory; one that returns a pointer returns an Option,
-- none for NULL. A function of phase2 is a command: it returns (Run.ok), or it gives the processor
-- away (Run.stop with LDST, LDCXT, WAIT, PANIC, a lock that is never freed, or a return into
-- __builtin_unreachable) with the memory at that moment, or its rounds run out. Calls compose as in
-- the code: exceptionHandler calls syscallHandler and interruptHandler, those call phase1 and
-- schedule, and schedule loads the next process.
--
-- A loop over a list is given max_rounds = 21 rounds, one more than MAXPROC, which is enough for
-- every list of at most 20 nodes; terminateProgeny, whose loop and recursion share the rounds, is
-- given as many, more than the processes below one can be. Loops with a counter are given the
-- number of their rounds, and the printing of a hexadecimal number eight digits.
--
-- The machine's library (registers, the timer, the spin lock, the interrupt lines and the device
-- registers) is not part of the repository: it is the record Machine.Machine, a parameter, and
-- Machine.IsSpinLock states the documented behaviour of the lock. The addresses of the tables and of
-- the globals are the record Kernel.Layout. One processor (NCPU is 1) runs the nucleus, the word
-- that ->p_pid reads through NULL is Machine.stray_pid, and Machine.ldit is what LDIT writes to the
-- interval timer.
--
-- The test program of phase1 is a command on Bench, its globals and the memory of the nucleus; the
-- terminal's registers, as functions of what was written and read before, are the parameter
-- Devices, and a busy terminal is asked at most Setting.patience times. A process of
-- phase2/p2test.c is a tree of what it asks of the nucleus and of the machine, Prog, whose branches
-- the answers select; the addresses of its variables and functions are the parameter Image. The
-- loops of p3 and p5b that wait for a tick are given their rounds, and the loop over p8inc five, one
-- more than its four.
--
-- Not modelled: the build's output, and the page tables and swap pool, which headers/types.h only
-- declares. Of phase2/p2test.c the initial values of the globals and the empty delay loop of p2 are
-- left out, and its processes are followed against given answers and not run on the nucleus: the
-- registers in which SYSCALL leaves its arguments belong to the machine, and so do INITCPU, which
-- NCPU leaves without a call, and what a process changes of its registers while it runs.
pub mod Base
pub mod Listx
pub mod Kernel
pub mod Pcb
pub mod Asl
pub mod Machine
pub mod Scheduler
pub mod Exceptions
pub mod Interrupts
pub mod Dispatcher
pub mod Initial
pub mod Klog
pub mod P1Test
pub mod P2Test
pub mod Tests
