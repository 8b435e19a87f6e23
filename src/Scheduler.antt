-- ===== src/Scheduler.antt =====
-- phase2/scheduler.c.
pub mod Branches
use Prim.Native.Nat.{bit_and, bit_or}
use multi_pand_os.Base.{
  ℕ, ◌*◌, ◌%◌, ◌^◌, Bool, true, false, not, ◌&&◌, Option, none, some, ◌==◌, if◌then◌else◌,
}
use multi_pand_os.Base.Word.{is_positive}
use multi_pand_os.Listx.{update}
use multi_pand_os.Kernel.{Kernel, Layout, ptr}
use multi_pand_os.Machine.{
  Machine, Cmd, Run, ok, stop, ldst, wait, panic, ◌>>=◌, ◌>>◌, call, modify, skip, read, halt_with,
}
use multi_pand_os.Pcb.{remove_proc_q}

abbrev pub timeslice : ℕ
timeslice = 5000

-- (IECON | IMON) & ~TEBITON
abbrev pub wait_status : ℕ
wait_status = bit_and (bit_or 0x00000001 0x0000ff00) 0xf7ffffff

module _ (y : Layout) (m : Machine) where
  -- The branches behind the removal from the ready queue.
  unfoldable pub dispatch : Option ℕ → Cmd (Unit {0})
  dispatch (some p) = do
    modify (λ k. record k { timer = (timeslice * m.timescale) % 2 ^ 32 })
    s ← read (λ k. k.p_s p)
    halt_with (ldst s)
  dispatch none = λ k.
      if is_positive k.process_count && is_positive k.waiting_count
      then stop wait (record k { status = wait_status })
      else if is_positive k.process_count && (k.waiting_count == 0)
      then stop panic k
      else ok tt k

  unfoldable pub schedule : Cmd (Unit {0})
  schedule = do
    next ← call (remove_proc_q y.ready_queue)
    modify (λ k. record k { current_process = update k.current_process m.prid (ptr next) })
    dispatch next
