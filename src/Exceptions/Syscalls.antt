-- ===== src/Exceptions/Syscalls.antt =====
-- phase2/exceptions.c: `syscallHandler`, one function for each case of its switch.
pub mod Blocking
pub mod Create
pub mod Semaphores
pub mod Terminate
pub mod Deadlock
use Prim.Native.Nat.{bit_and}
use multi_pand_os.Base.{
  ℕ, zero, suc, ◌+◌, ◌-◌, ◌*◌, ◌^◌, Bool, true, false, not, ◌||◌, Option, none, some, ◌==◌, leb,
  if◌then◌else◌,
}
use multi_pand_os.Base.Word.{add32, sub32, is_negative, is_positive}
use multi_pand_os.Listx.{update, list_for_each}
use multi_pand_os.Kernel.{
  Kernel, Layout, State, null, max_rounds, p_child, pcb_of_p_list, with_links,
}
use multi_pand_os.Machine.{
  Machine, Cmd, Run, ok, stop, out_of_rounds, ldst, panic, unreachable, wild, ◌>>=◌, ◌>>◌, call,
  ask, call_loop, modify, skip, read, halt_with, panic_if, acquire_lock, release_lock, looped,
}
use multi_pand_os.Pcb.{alloc_pcb, insert_proc_q, insert_child}
use multi_pand_os.Asl.{insert_blocked, remove_blocked}
use multi_pand_os.Scheduler.{schedule}
use multi_pand_os.Exceptions.Termination.{
  when, clear_current, terminate_process, pass_up_or_die, program_trap_handler,
}

abbrev pub generalexcept : ℕ
generalexcept = 1

-- -n as an `int`.
abbrev minus : ℕ → ℕ
minus n = 2 ^ 32 - n

abbrev pub createprocess : ℕ
createprocess = minus 1

abbrev pub termprocess : ℕ
termprocess = minus 2

abbrev pub passeren : ℕ
passeren = minus 3

abbrev pub verhogen : ℕ
verhogen = minus 4

abbrev pub doio : ℕ
doio = minus 5

abbrev pub gettime : ℕ
gettime = minus 6

abbrev pub clockwait : ℕ
clockwait = minus 7

abbrev pub getsupportptr : ℕ
getsupportptr = minus 8

abbrev pub getprocessid : ℕ
getprocessid = minus 9

abbrev pub noproc : ℕ
noproc = minus 1

abbrev pub privinstr : ℕ
privinstr = 10

-- `*currentState`, and a write of one of its registers.
abbrev pub saved : Kernel → State
saved k = k.state_at k.current_state

abbrev pub with_saved : (State → State) → Kernel → Kernel
with_saved f k = record k { state_at = update k.state_at k.current_state (f (saved k)) }

abbrev pub set_gpr : ℕ → ℕ → Kernel → Kernel
set_gpr i v = with_saved (λ s. record s { gpr = update s.gpr i v })

abbrev pub nrsemaphores : ℕ
nrsemaphores = 49

-- `&dev_semaph[i]`
abbrev pub dev_sem : Layout → ℕ → ℕ
dev_sem y i = y.dev_semaph + 4 * i

module _ (y : Layout) (m : Machine) where
  -- The new PCB of `CREATEPROCESS` is given its state and its place.
  unfoldable pub start_process : (proc new_proc init_state support : ℕ) → Kernel → Kernel
  start_process proc new_proc init_state support k =
      let k1 = record k {
        p_s = update k.p_s new_proc (k.state_at init_state);
        p_time = update k.p_time new_proc 0;
        p_sem_add = update k.p_sem_add new_proc null;
        p_support_struct = update k.p_support_struct new_proc support;
      } in
      let k2 = insert_child proc new_proc (insert_proc_q y.ready_queue new_proc k1) in
      record k2 { process_count = add32 k2.process_count 1 }

  unfoldable pub create_process : (proc : ℕ) → Cmd (Unit {0})
  create_process proc = do
    init_state ← read (λ k. (saved k).gpr 25)
    support ← read (λ k. (saved k).gpr 27)
    new_proc ← call (alloc_pcb y)
    elim new_proc [
      | none ↦ modify (set_gpr 2 noproc)
      | some p ↦ modify (λ k. set_gpr 2 0 (start_process proc p init_state support k))
    ]

  -- What follows a case that gives the processor away: `schedule` must not come back.
  unfoldable pub leave : Cmd (Unit {0})
  leave = do release_lock m; schedule y m; halt_with unreachable

  -- `child->p_pid`, the last word of a PCB, where `child` is the `p_sib` of a child that
  -- `container_of` takes for a `p_list`: this is the `prev` of the `p_child` in the next PCB of the
  -- table.
  abbrev pub pid_behind : Kernel → (pos : ℕ) → ℕ
  pid_behind k pos = k.links.prev (pos + y.sizeof_pcb - 8)

  -- if (!target) PANIC();
  unfoldable pub chosen : Option ℕ → Cmd ℕ
  chosen none = halt_with panic
  chosen (some pos) = read (λ k. pcb_of_p_list pos)

  unfoldable pub term_target : (proc target_pid : ℕ) → Cmd ℕ
  term_target proc target_pid = if target_pid == 0 then read (λ k. proc) else (do
    found ← ask (λ k.
        list_for_each max_rounds (p_child proc) (λ pos. pid_behind k pos == target_pid) k.links)
    chosen found)

  unfoldable pub term_process : (proc : ℕ) → Cmd (Unit {0})
  term_process proc = do
    target_pid ← read (λ k. (saved k).gpr 25)
    target ← term_target proc target_pid
    terminate_process y target
    leave

  -- The process is saved and queued on the semaphore; the result of `insertBlocked` is dropped.
  unfoldable pub block_on : (proc sem : ℕ) → Cmd (Unit {0})
  block_on proc sem = do
    modify (λ k. record k {
      p_s = update k.p_s proc (saved k);
      p_sem_add = update k.p_sem_add proc sem;
    })
    call_loop (insert_blocked y sem proc)
    modify (clear_current y m)
    modify (λ k. record k { waiting_count = add32 k.waiting_count 1 })

  unfoldable pub passeren_call : (proc : ℕ) → Cmd (Unit {0})
  passeren_call proc = do
    semaddr ← read (λ k. (saved k).gpr 25)
    old_val ← read (λ k. k.word semaddr)
    modify (λ k. record k { word = update k.word semaddr (sub32 old_val 1) })
    when (not (is_positive old_val)) (block_on proc semaddr >> leave)

  unfoldable pub verhogen_call : Cmd (Unit {0})
  verhogen_call = do
    semaddr ← read (λ k. (saved k).gpr 25)
    modify (λ k. record k { word = update k.word semaddr (add32 (k.word semaddr) 1) })
    val ← read (λ k. k.word semaddr)
    when (not (is_positive val)) (do
      unblocked ← call_loop (remove_blocked y semaddr)
      elim unblocked [ none ↦ skip | some p ↦ modify (insert_proc_q y.ready_queue p) ])

  unfoldable pub do_io : (proc : ℕ) → Cmd (Unit {0})
  do_io proc = do
    cmd_addr ← read (λ k. (saved k).gpr 25)
    command ← read (λ k. (saved k).gpr 26)
    dev_addr ← read (λ k. (saved k).gpr 27)
    block_on proc dev_addr
    modify (λ k. record k { word = update k.word cmd_addr command })
    leave

  unfoldable pub get_time : (proc : ℕ) → Cmd (Unit {0})
  get_time proc =
      modify (λ k. set_gpr 2 (add32 (k.p_time proc) (sub32 m.tod ((k.p_s proc).gpr 5))) k)

  unfoldable pub clock_wait : (proc : ℕ) → Cmd (Unit {0})
  clock_wait proc = do block_on proc (dev_sem y (nrsemaphores - 1)); leave

  unfoldable pub get_support_ptr : (proc : ℕ) → Cmd (Unit {0})
  get_support_ptr proc = modify (λ k. set_gpr 2 (k.p_support_struct proc) k)

  -- The parent of a process that has none is NULL, and its number what lies there.
  unfoldable pub get_process_id : (proc : ℕ) → Cmd (Unit {0})
  get_process_id proc = modify (λ k.
      let parent = k.p_parent proc in
      let parent_pid = if parent == null then m.stray_pid k else k.p_pid parent in
      set_gpr 2 (if (saved k).gpr 25 == 0 then k.p_pid proc else parent_pid) k)

  -- Behind a `break`: the lock is released and the process goes on.
  unfoldable pub resume : Cmd (Unit {0})
  resume = do release_lock m; s ← read saved; halt_with (ldst s)

  unfoldable pub privileged : (proc syscall_num : ℕ) → Cmd (Unit {0})
  privileged proc n =
      if n == createprocess
      then create_process proc >> resume
      else if n == termprocess
      then term_process proc >> resume
      else if n == passeren
      then passeren_call proc >> resume
      else if n == verhogen
      then verhogen_call >> resume
      else if n == doio
      then do_io proc >> resume
      else if n == gettime
      then get_time proc >> resume
      else if n == clockwait
      then clock_wait proc >> resume
      else if n == getsupportptr
      then get_support_ptr proc >> resume
      else if n == getprocessid
      then get_process_id proc >> resume
      else release_lock m >> program_trap_handler y m

  -- (currentState->status & MSTATUS_MPP_MASK) != MSTATUS_MPP_U
  abbrev pub is_kernel_mode : State → Bool
  is_kernel_mode s = not (bit_and s.status 0x1800 == 0)

  unfoldable pub syscall_handler : Cmd (Unit {0})
  syscall_handler = do
    proc ← read (λ k. k.current_process m.prid)
    state ← read (λ k. k.current_state)
    panic_if (state == null || proc == null)
    modify (with_saved (λ s. record s { pc_epc = add32 s.pc_epc 4 }))
    s ← read saved
    (if is_negative (s.gpr 24)
        then (if is_kernel_mode s
            then acquire_lock m >> privileged proc (s.gpr 24)
            else modify (with_saved (λ t. record t { cause = privinstr }))
              >> program_trap_handler y m)
        else pass_up_or_die y m generalexcept m.prid)
