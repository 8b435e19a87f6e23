-- ===== src/P2Test/Names.antt =====
-- The global variables and the functions of phase2/p2test.c by name, and where the linker puts them.
use multi_pand_os.Base.{ℕ, ◌+◌, ◌*◌}

-- `s` is the array of the semaphores, `sem_endcreate` that of the leaves.
pub data Global : Type 0 where
  sem_term_mut s sem_testsem sem_startp2 sem_endp2 sem_endp3 sem_blkp4 sem_synp4 sem_endp4 : Global
  sem_endp5 sem_endp8 sem_endcreate sem_blkp8 sem_blkp9 : Global
  p2state p3state p4state p5state p6state p7state p8rootstate child1state child2state : Global
  gchild1state gchild2state gchild3state gchild4state p9state p10state hp_p1state : Global
  p2pid p3pid p4pid p8pid p9pid : Global
  p_five_support p1p2synch p8inc p4inc p5_stack creation p5_mem_location : Global

pub data Entry : Type 0 where
  p2 p3 p4 p5 p5a p5b p5gen p5mm p6 p7 p8root child1 child2 : Entry
  p8leaf1 p8leaf2 p8leaf3 p8leaf4 p9 p10 hp_p1 : Entry

-- `except_state i` is the address of `sup_exceptState[i]` of `pFiveSupport`.
pub record Image : Type 0 where
  pub at : Global → ℕ
  pub entry : Entry → ℕ
  pub except_state : ℕ → ℕ
  pub reg_sp : ℕ

-- `&s[i]` and `&sem_endcreate[i]`
abbrev pub element : Image → Global → ℕ → ℕ
element x g i = x.at g + 4 * i

abbrev pub maxsem : ℕ
maxsem = 20

abbrev pub noleaves : ℕ
noleaves = 4

abbrev pub qpage : ℕ
qpage = 1024

abbrev pub clockinterval : ℕ
clockinterval = 100000

abbrev pub minlooptime : ℕ
minlooptime = 30000

abbrev pub clockloop : ℕ
clockloop = 10

abbrev pub minclockloop : ℕ
minclockloop = 3000

abbrev pub termstatmask : ℕ
termstatmask = 0xff

abbrev pub badaddr : ℕ
badaddr = 0xffffffff

abbrev pub term0addr : ℕ
term0addr = 0x10000254

abbrev pub recvd : ℕ
recvd = 5

abbrev pub printchr : ℕ
printchr = 2

abbrev pub mstatus_mie_mask : ℕ
mstatus_mie_mask = 0x8

abbrev pub mie_all : ℕ
mie_all = 0xffffffff

abbrev pub timescaleaddr : ℕ
timescaleaddr = 0x10000024

abbrev pub process_prio_low : ℕ
process_prio_low = 0

abbrev pub process_prio_high : ℕ
process_prio_high = 1

abbrev pub buserror : ℕ
buserror = 7

abbrev pub addrerror : ℕ
addrerror = 5

abbrev pub msyscallexcpt : ℕ
msyscallexcpt = 11
