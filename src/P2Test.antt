-- ===== src/P2Test.antt =====
-- phase2/p2test.c: the processes that test the nucleus, from outside it.
pub mod Program
pub mod Follow
pub mod Printed
pub mod Waiting
pub mod Names
pub mod Print
pub mod Root
pub mod Timing
pub mod Traps
pub mod Family
