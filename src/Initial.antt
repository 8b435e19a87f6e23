-- ===== src/Initial.antt =====
-- phase2/initial.c: the globals, and `main`, which boots the nucleus.
pub mod Fill
pub mod Prepare
pub mod Boot
use Prim.Native.Nat.{bit_or}
use multi_pand_os.Base.{ℕ, zero, suc, ◌+◌, ◌-◌, ◌*◌, ◌/◌, ◌%◌, ◌^◌, none, some}
use multi_pand_os.Base.Word.{add32}
use multi_pand_os.Listx.{update}
use multi_pand_os.Kernel.{Kernel, Layout, zero_state, null}
use multi_pand_os.Machine.{
  Machine, Cmd, panic, wild, ◌>>=◌, ◌>>◌, call, modify, read, halt_with, acquire_lock, release_lock,
}
use multi_pand_os.Pcb.{init_pcbs, alloc_pcb, insert_proc_q, mk_empty_proc_q}
use multi_pand_os.Asl.{init_asl}
use multi_pand_os.Scheduler.{schedule}
use multi_pand_os.Exceptions.Termination.{ncpu}
use multi_pand_os.Exceptions.Syscalls.{dev_sem, nrsemaphores}
use multi_pand_os.Interrupts.{psecond}

abbrev pub biosdatapage : ℕ
biosdatapage = 0x0ffff000

abbrev pub kernelstack : ℕ
kernelstack = 0x20001000

abbrev pub ramstart : ℕ
ramstart = 0x20000000

abbrev pub pagesize : ℕ
pagesize = 4096

abbrev pub rambaseaddr : ℕ
rambaseaddr = 0x10000000

abbrev pub rambasesize : ℕ
rambasesize = 0x10000004

abbrev pub irt_start : ℕ
irt_start = 0x10000300

abbrev pub irt_num_entry : ℕ
irt_num_entry = 48

abbrev pub irt_rp_bit_on : ℕ
irt_rp_bit_on = 2 ^ 28

abbrev pub mstatus_mpp_m : ℕ
mstatus_mpp_m = 0x1800

-- MIE_ALL | MSTATUS_MPIE_MASK | MSTATUS_MPP_M
abbrev pub initial_status : ℕ
initial_status = bit_or (bit_or 0xffffffff 0x80) mstatus_mpp_m

-- `while (len-- > 0) *ptr++ = val`, a byte at a time.
unfoldable pub memset : (dest val len : ℕ) → (ℕ → ℕ) → (ℕ → ℕ)
memset dest val zero mem = mem
memset dest val (suc len) mem = memset (dest + 1) val len (update mem dest (val % 256))

-- The pass-up vector of processor 0, and those of the others.
unfoldable pub first_vector : Layout → Kernel → Kernel
first_vector y k = record k {
  passupvector = update k.passupvector 0 (record {
    tlb_refill_handler = y.tlb_refill_entry;
    tlb_refill_stack_ptr = kernelstack;
    exception_handler = y.exception_entry;
    exception_stack_ptr = kernelstack;
  });
}

unfoldable pub other_vectors : (rounds cpu_id : ℕ) → Kernel → Kernel
other_vectors zero cpu_id k = k
other_vectors (suc rounds) cpu_id k = other_vectors rounds (cpu_id + 1) (record k {
  passupvector = update k.passupvector cpu_id (record (k.passupvector cpu_id) {
    tlb_refill_stack_ptr = ramstart + 64 * pagesize + cpu_id * pagesize;
    exception_stack_ptr = 0x20020000 + cpu_id * pagesize;
  });
})

unfoldable pub clear_currents : (rounds i : ℕ) → Kernel → Kernel
clear_currents zero i k = k
clear_currents (suc rounds) i k =
    clear_currents rounds (i + 1) (record k { current_process = update k.current_process i null })

unfoldable pub clear_semaphores : Layout → (rounds i : ℕ) → Kernel → Kernel
clear_semaphores y zero i k = k
clear_semaphores y (suc rounds) i k =
    clear_semaphores y rounds (i + 1) (record k { word = update k.word (dev_sem y i) 0 })

-- The interrupt routing table: six entries for each of eight processors, all of them for one.
unfoldable pub route : (rounds i : ℕ) → Kernel → Kernel
route zero i k = k
route (suc rounds) i k = route rounds (i + 1) (record k {
  word =
      update k.word (irt_start + i * 4) (bit_or irt_rp_bit_on (2 ^ (i / (irt_num_entry / ncpu))));
})

-- Everything up to the first call of `allocPcb`.
unfoldable pub prepare : Layout → Machine → Kernel → Kernel
prepare y m k0 =
    let k1 =
      other_vectors (ncpu - 1) 1 (first_vector y (record k0 { current_state = biosdatapage })) in
    let k2 = init_asl y (init_pcbs y k1) in
    let k3 =
      mk_empty_proc_q y.ready_queue
        (record k2 { process_count = 0; waiting_count = 0; global_lock = 0 }) in
    let k4 = clear_semaphores y nrsemaphores 0 (clear_currents ncpu 0 k3) in
    record k4 { interval_timer = m.ldit psecond }

module _ (y : Layout) (m : Machine) where
  -- The writes to the first process: its status, its stack at RAMTOP, its entry.
  unfoldable pub first_process : (p : ℕ) → Kernel → Kernel
  first_process p k =
      let s = k.p_s p in
      let top = (k.word rambaseaddr + k.word rambasesize) % 2 ^ 32 in
      let g = update (update s.gpr m.reg_sp top) 24 y.test in
      record k {
        p_s = update k.p_s p (record s { status = initial_status; pc_epc = y.test; gpr = g });
      }

  unfoldable pub start_cpus : (rounds cpu_id : ℕ) → Kernel → Kernel
  start_cpus zero cpu_id k = k
  start_cpus (suc rounds) cpu_id k =
      let g = update zero_state.gpr m.reg_sp (0x20020000 + cpu_id * pagesize) in
      start_cpus rounds (cpu_id + 1) (
        m.init_cpu cpu_id
          (record zero_state { status = mstatus_mpp_m; pc_epc = y.schedule_entry; gpr = g }) k)

  -- A NULL from `allocPcb` would be written through.
  unfoldable pub main : Cmd (Unit {0})
  main = do
    modify (prepare y m)
    allocated ← call (alloc_pcb y)
    acquire_lock m
    p ← elim allocated [ none ↦ halt_with wild | some q ↦ read (λ k. q) ]
    modify (first_process p)
    modify (insert_proc_q y.ready_queue p)
    modify (λ k. record k { process_count = add32 k.process_count 1 })
    release_lock m
    modify (route irt_num_entry 0)
    modify (start_cpus (ncpu - 1) 1)
    schedule y m
    halt_with panic
