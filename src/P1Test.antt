-- ===== src/P1Test.antt =====
-- phase1/p1test.c: the test program of phase1/pcb.c and phase1/asl.c.
pub mod Terminal
pub mod State
pub mod Checks
pub mod Main
pub mod Printing
pub mod Passes
