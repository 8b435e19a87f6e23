-- ===== src/Interrupts.antt =====
-- phase2/interrupts.c.
pub mod Plt
pub mod RoundRobin
pub mod Turns
pub mod Devices
pub mod Tick
pub mod Answered
pub mod Lines
pub mod Unawaited
use Prim.Native.Nat.{bit_and}
use multi_pand_os.Base.{
  ℕ, zero, suc, ◌+◌, ◌-◌, ◌*◌, ◌%◌, ◌^◌, Bool, true, false, not, ◌||◌, ◌&&◌, Option, none, some,
  ◌==◌, leb, ltb, if◌then◌else◌,
}
use multi_pand_os.Base.Word.{add32, sub32, tests_bit}
use multi_pand_os.Listx.{update}
use multi_pand_os.Kernel.{Kernel, Layout, State, null, max_rounds}
use multi_pand_os.Machine.{
  Machine, Cmd, Run, ok, stop, out_of_rounds, panic, ◌>>=◌, ◌>>◌, call, call_loop, modify, skip,
  read, halt_with, panic_if, acquire_lock, release_lock,
}
use multi_pand_os.Pcb.{insert_proc_q}
use multi_pand_os.Asl.{remove_blocked}
use multi_pand_os.Scheduler.{schedule, timeslice}
use multi_pand_os.Exceptions.Termination.{when, clear_current, ncpu}
use multi_pand_os.Exceptions.Syscalls.{dev_sem, nrsemaphores}

abbrev pub psecond : ℕ
psecond = 100000

abbrev pub il_disk : ℕ
il_disk = 17

abbrev pub il_terminal : ℕ
il_terminal = 21

abbrev pub dev0on : ℕ
dev0on = 0x00000001

abbrev pub localtimerint : ℕ
localtimerint = 0x00000200

abbrev pub timerinterrupt : ℕ
timerinterrupt = 0x00000400

abbrev pub mip_mtip_mask : ℕ
mip_mtip_mask = 0x40

-- CAUSE_IP_GET
abbrev pub cause_ip_get : (cause il_no : ℕ) → Bool
cause_ip_get cause il_no = tests_bit cause (2 ^ (il_no + 8))

-- A map of lines and devices, written at one of them.
abbrev pub update_at : (ℕ → ℕ → ℕ) → ℕ → ℕ → ℕ → (ℕ → ℕ → ℕ)
update_at f a b v c d = if c == a && d == b then v else f c d

-- &dev_semaph[NRSEMAPHORES-1]
abbrev pub clock_sem : Layout → ℕ
clock_sem y = dev_sem y (nrsemaphores - 1)

module _ (y : Layout) (m : Machine) where
  unfoldable pub handle_plt : (cpu_id : ℕ) → Cmd (Unit {0})
  handle_plt cpu_id = do
    cur ← read (λ k. k.current_process cpu_id)
    state ← read (λ k. k.current_state)
    panic_if (leb ncpu cpu_id || cur == null || state == null)
    modify (λ k. record k { p_time = update k.p_time cur (add32 (k.p_time cur) timeslice) })
    modify (insert_proc_q y.ready_queue cur)
    modify (λ k. record k { current_process = update k.current_process cpu_id null })
    schedule y m

  -- The body of the interval timer's loop: the check of the process's semaphore, and its way back
  -- to the ready queue.
  unfoldable pub wake : (sem p : ℕ) → Cmd (Unit {0})
  wake sem p = do
    at ← read (λ k. k.p_sem_add p)
    panic_if (not (at == sem))
    modify (λ k. record k { p_sem_add = update k.p_sem_add p null })
    modify (insert_proc_q y.ready_queue p)
    modify (λ k. record k { waiting_count = sub32 k.waiting_count 1 })

  -- The `while` loop of the interval timer.
  unfoldable pub wake_all : (rounds sem : ℕ) → Cmd (Unit {0})
  wake_all zero sem = λ k. out_of_rounds
  wake_all (suc rounds) sem = do
    p ← call_loop (remove_blocked y sem)
    elim p [ none ↦ skip | some q ↦ wake sem q >> wake_all rounds sem ]

  unfoldable pub handle_interval_timer : Cmd (Unit {0})
  handle_interval_timer = do
    modify (λ k. record k { interval_timer = m.ldit ((psecond * m.timescale) % 2 ^ 32) })
    acquire_lock m
    wake_all max_rounds (clock_sem y)
    modify (λ k. record k { word = update k.word (clock_sem y) 0 })
    release_lock m

  -- A device is acknowledged; the result is its status. `line` counts from IL_DISK on.
  unfoldable pub acknowledge : (line dev : ℕ) → Cmd ℕ
  acknowledge line dev k =
      if line + il_disk == il_terminal
      then (if tests_bit (m.transm_status line dev) dev0on
          then ok (m.transm_status line dev)
              (record k { transm_command = update_at k.transm_command line dev m.ack })
          else ok (m.recv_status line dev)
              (record k { recv_command = update_at k.recv_command line dev m.ack }))
      else ok (m.dtp_status line dev) (record k { command = update_at k.command line dev m.ack })

  -- The process that waited for the device; the lock is asked for around its insertion.
  unfoldable pub unblock : (sem status p : ℕ) → Cmd (Unit {0})
  unblock sem status p = do
    at ← read (λ k. k.p_sem_add p)
    panic_if (not (at == sem))
    modify (λ k. record k {
      p_sem_add = update k.p_sem_add p null;
      p_s = update k.p_s p (record (k.p_s p) { gpr = update (k.p_s p).gpr 2 status });
      waiting_count = sub32 k.waiting_count 1;
    })
    acquire_lock m
    modify (insert_proc_q y.ready_queue p)
    release_lock m

  -- One round of the scan of a line.
  unfoldable pub serve : (line dev : ℕ) → Cmd (Unit {0})
  serve line dev = do
    status ← acknowledge line dev
    p ← call_loop (remove_blocked y (dev_sem y (line * 8 + dev)))
    elim p [ none ↦ skip | some q ↦ unblock (dev_sem y (line * 8 + dev)) status q ]

  unfoldable pub scan : (rounds line dev : ℕ) → Cmd (Unit {0})
  scan zero line dev = skip
  scan (suc rounds) line dev =
      when (tests_bit (m.interrupt_dev line) (2 ^ dev)) (serve line dev)
      >> scan rounds line (dev + 1)

  unfoldable pub device_handler : (line : ℕ) → Cmd (Unit {0})
  device_handler line = do
    panic_if (ltb line il_disk || ltb il_terminal line)
    scan 8 (line - il_disk) 0

  -- for (line = IL_DISK; line <= IL_TERMINAL; line++)
  unfoldable pub serve_lines : (rounds line : ℕ) → Cmd (Unit {0})
  serve_lines zero line = skip
  serve_lines (suc rounds) line =
      when (cause_ip_get m.cause line) (acquire_lock m >> device_handler line >> release_lock m)
      >> serve_lines rounds (line + 1)

  unfoldable pub interrupt_handler : Cmd (Unit {0})
  interrupt_handler = do
    state ← read (λ k. k.current_state)
    panic_if (leb ncpu m.prid || state == null)
    (if tests_bit m.cause localtimerint && tests_bit m.cause mip_mtip_mask
        then handle_plt m.prid
        else if tests_bit m.cause timerinterrupt && tests_bit m.cause mip_mtip_mask
        then handle_interval_timer
        else serve_lines (il_terminal - il_disk + 1) il_disk)
