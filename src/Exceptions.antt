-- ===== src/Exceptions.antt =====
-- phase2/exceptions.c: the end of processes and the system calls. Its dispatcher, which also calls
-- phase2/interrupts.c, is the module Dispatcher.
pub mod Termination
pub mod Destroy
pub mod Forest
pub mod Progeny
pub mod Ending
pub mod Syscalls
