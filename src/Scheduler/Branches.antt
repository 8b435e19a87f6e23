-- ===== src/Scheduler/Branches.antt =====
-- `schedule` of phase2/scheduler.c by the state of the ready queue.
use multi_pand_os.Base.{ℕ, ◌*◌, ◌%◌, ◌^◌, ◌≡◌, ◌&&◌, List, [], ◌∷◌, ◌==◌, if◌then◌else◌}
use multi_pand_os.Base.Word.{is_positive}
use multi_pand_os.Listx.{update, list_del}
use multi_pand_os.Listx.Edit.{list_del-Ring}
use multi_pand_os.Kernel.{Kernel, Layout, null, with_links}
use multi_pand_os.Machine.{Machine, Run, ok, stop, ldst, wait, panic}
use multi_pand_os.Scheduler.{schedule, dispatch, timeslice, wait_status}
use multi_pand_os.Pcb.Queue.{IsQueue, remove_proc_q_nil, remove_proc_q_cons}

-- The processor's current process is set, the timer loaded with a time slice.
abbrev pub dispatched : Machine → ℕ → Kernel → Kernel
dispatched m p k = record (with_links (list_del p) k) {
  current_process = update k.current_process m.prid p;
  timer = (timeslice * m.timescale) % 2 ^ 32;
}

-- A ready queue that is not empty.
pub schedule-cons :
    (y : Layout) (m : Machine) (k : Kernel) (p : ℕ) (ps : List ℕ)
    → IsQueue k y.ready_queue (p ∷ ps)
    → (schedule y m k ≡ stop (ldst (k.p_s p)) (dispatched m p k))
      × IsQueue (dispatched m p k) y.ready_queue ps
unfolding schedule dispatch
schedule-cons y m k p ps r =
    (rw (remove_proc_q_cons k y.ready_queue p ps r), (list_del-Ring y.ready_queue p [] ps r).0)

abbrev pub idle : Machine → Kernel → Kernel
idle m k = record k { current_process = update k.current_process m.prid null }

-- An empty ready queue.
pub schedule-nil :
    (y : Layout) (m : Machine) (k : Kernel)
    → IsQueue k y.ready_queue []
    → schedule y m k ≡ (
        if is_positive k.process_count && is_positive k.waiting_count
        then stop wait (record (idle m k) { status = wait_status })
        else if is_positive k.process_count && (k.waiting_count == 0)
        then stop panic (idle m k)
        else ok tt (idle m k))
unfolding schedule dispatch
schedule-nil y m k r = rw (remove_proc_q_nil k y.ready_queue r)

-- What the scheduler does with the ready processes `ps`.
abbrev pub scheduled : Machine → List ℕ → Kernel → Run (Unit {0})
scheduled m [] k =
    if is_positive k.process_count && is_positive k.waiting_count
    then stop wait (record (idle m k) { status = wait_status })
    else if is_positive k.process_count && (k.waiting_count == 0)
    then stop panic (idle m k)
    else ok tt (idle m k)
scheduled m (p ∷ ps) k = stop (ldst (k.p_s p)) (dispatched m p k)

-- What is left in the ready queue when a process was there.
abbrev pub LeftReady : Layout → Machine → List ℕ → Kernel → Type 0
LeftReady y m [] k = Unit
LeftReady y m (p ∷ ps) k = IsQueue (dispatched m p k) y.ready_queue ps

pub schedule_lem :
    (y : Layout) (m : Machine) (k : Kernel) (ps : List ℕ)
    → IsQueue k y.ready_queue ps
    → (schedule y m k ≡ scheduled m ps k) × LeftReady y m ps k
schedule_lem y m k [] r = (schedule-nil y m k r, tt)
schedule_lem y m k (p ∷ ps) r = schedule-cons y m k p ps r
