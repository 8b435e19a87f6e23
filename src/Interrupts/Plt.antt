-- ===== src/Interrupts/Plt.antt =====
-- The processor's local timer, `handlePLT` of phase2/interrupts.c.
use mathlib.Core.Path.{subst}
use multi_pand_os.Base.{
  ◌==◌, refl, ℕ, ◌<◌, ◌≡◌, ◌≢◌, false, List, [], ◌∷◌, ◌++◌, leb, arith, has, ne→==,
}
use multi_pand_os.Base.Word.{add32}
use multi_pand_os.Listx.{update}
use multi_pand_os.Kernel.{Kernel, Layout, null}
use multi_pand_os.Machine.{Machine, stop, ldst}
use multi_pand_os.Pcb.{insert_proc_q}
use multi_pand_os.Pcb.Queue.{IsQueue, insert_proc_q_lem}
use multi_pand_os.Scheduler.{timeslice}
use multi_pand_os.Scheduler.Branches.{schedule-cons, dispatched}
use multi_pand_os.Exceptions.Termination.{ncpu}
use multi_pand_os.Interrupts.{handle_plt}

-- The memory when `handlePLT` calls the scheduler.
abbrev preempted : Layout → Machine → Kernel → Kernel
preempted y m k =
    let cur = k.current_process m.prid in
    let k1 =
      insert_proc_q y.ready_queue cur
        (record k { p_time = update k.p_time cur (add32 (k.p_time cur) timeslice) }) in
    record k1 { current_process = update k1.current_process m.prid null }

-- An interrupt of the local timer charges the current process a time slice, puts it behind the
-- ready ones, and loads the first of them with the state that its PCB held before the interrupt:
-- the state that the interrupt saved is not copied to the PCB, also where that process is next, and
-- neither is any other PCB's. No other process is charged.
pub handle_plt-ldst :
    (y : Layout) (m : Machine) (k : Kernel) (xs : List ℕ) (p : ℕ) (ps : List ℕ)
    → m.prid < ncpu
    → k.current_state ≢ null
    → k.current_process m.prid ≢ null
    → IsQueue k y.ready_queue xs
    → has (k.current_process m.prid) (y.ready_queue ∷ xs) ≡ false
    → xs ++ k.current_process m.prid ∷ [] ≡ p ∷ ps
    → (k' : Kernel) × (handle_plt y m m.prid k ≡ stop (ldst (k.p_s p)) k')
      × IsQueue k' y.ready_queue ps
      × (k'.current_process m.prid ≡ p)
      × (k'.p_time (k.current_process m.prid)
          ≡ add32 (k.p_time (k.current_process m.prid)) timeslice)
      × ((c : ℕ) → (c == k.current_process m.prid) ≡ false → k'.p_time c ≡ k.p_time c)
      × (k'.p_s ≡ k.p_s)
      × (k'.current_state ≡ k.current_state)
unfolding handle_plt insert_proc_q
handle_plt-ldst y m k xs p ps one state cur r out e =
    let queue : IsQueue (preempted y m k) y.ready_queue (p ∷ ps) =
      subst (IsQueue (preempted y m k) y.ready_queue) e
        (insert_proc_q_lem k y.ready_queue (k.current_process m.prid) xs r out).0 in
    let (stops, rest) = schedule-cons y m (preempted y m k) p ps queue in
    let in_range : leb ncpu m.prid ≡ false = ground arith in
    (
      dispatched m p (preempted y m k),
      rw (in_range, ne→== _ _ cur, ne→== _ _ state) stops,
      rest,
      ground arith,
      ground arith,
      λ c other. ground arith,
      refl,
      refl,
    )
