-- ===== src/Initial/Boot.antt =====
-- `main` of phase2/initial.c, from the memory as it is loaded to the first process.
use multi_pand_os.Base.{
  ℕ, zero, suc, ◌+◌, ◌≡◌, refl, ◌∙◌, false, some, [], ◌∷◌, arith, has, Apart-sym,
}
use multi_pand_os.Base.Word.{add32}
use multi_pand_os.Listx.{update}
use multi_pand_os.Listx.Ring.{Ring, Ring-frame}
use multi_pand_os.Listx.Edit.{list_del-spares}
use multi_pand_os.Kernel.{Kernel, Layout, null}
use multi_pand_os.Machine.{Machine, IsSpinLock, ldst, panic, stop, and_then, halt_with}
use multi_pand_os.Pcb.{alloc_pcb, insert_proc_q}
use multi_pand_os.Pcb.Alloc.{entry, entries, alloc_pcb_lem, alloc_pcb-frame, alloc_pcb-counts}
use multi_pand_os.Pcb.Queue.{IsQueue, insert_proc_q_lem}
use multi_pand_os.Scheduler.{schedule}
use multi_pand_os.Scheduler.Branches.{schedule-cons, dispatched}
use multi_pand_os.Interrupts.{psecond}
use multi_pand_os.Initial.{
  main, prepare, first_process, start_cpus, route, initial_status, irt_num_entry,
}
use multi_pand_os.Initial.Prepare.{Placed, Declared, Prepared, prepare-Prepared}

-- The interrupt routing table is all that `route` writes.
route_eq :
    (rounds i : ℕ) (k : Kernel) → route rounds i k ≡ record k { word = (route rounds i k).word }
unfolding route
route_eq zero i k = refl
route_eq (suc rounds) i k = route_eq rounds (i + 1) (record k { word = update k.word _ _ })

module _ (y : Layout) (m : Machine) where
  -- The memory when the lock is given back, from that which `allocPcb` leaves.
  abbrev inserted : ℕ → Kernel → Kernel
  inserted p k =
      let k1 = insert_proc_q y.ready_queue p (first_process y m p (record k { global_lock = 1 })) in
      record k1 { process_count = add32 k1.process_count 1; global_lock = m.release k1.global_lock }

  main_eq :
      (k : Kernel) (p : ℕ)
      → IsSpinLock m
      → (alloc_pcb y (prepare y m k)).0 ≡ some p
      → (alloc_pcb y (prepare y m k)).1.global_lock ≡ 0
      → main y m k
        ≡ and_then
            (schedule y m (route irt_num_entry 0 (inserted p (alloc_pcb y (prepare y m k)).1)))
            (λ _. halt_with panic)
  unfolding main start_cpus
  main_eq k p lock e free = rw (e, free, lock.take_free) refl

-- The memory when the processor goes to the process `p`.
pub record Booted (y : Layout) (m : Machine) (k : Kernel) (p : ℕ) : Type 0 where
  pub ready : IsQueue k y.ready_queue []
  pub free : Ring k.links y.pcb_free_h (entries y 19 0 [])
  pub current : k.current_process m.prid ≡ p
  pub processes : k.process_count ≡ 1
  pub waiting : k.waiting_count ≡ 0
  pub lock : k.global_lock ≡ 0
  pub start : (k.p_s p).pc_epc ≡ y.test
  pub status : (k.p_s p).status ≡ initial_status
  pub parent : k.p_parent p ≡ null
  pub support : k.p_support_struct p ≡ null
  pub tick : k.interval_timer ≡ m.ldit psecond

-- The memory that `allocPcb` leaves to `main`.
record Allocated (y : Layout) (m : Machine) (k : Kernel) (p : ℕ) : Type 0 where
  ready : Ring k.links y.ready_queue []
  free : Ring k.links y.pcb_free_h (entries y 19 0 [])
  processes : k.process_count ≡ 0
  waiting : k.waiting_count ≡ 0
  lock : k.global_lock ≡ 0
  parent : k.p_parent p ≡ null
  support : k.p_support_struct p ≡ null
  tick : k.interval_timer ≡ m.ldit psecond

Prepared-Allocated :
    (y : Layout) (m : Machine) (k : Kernel)
    → Placed y
    → Prepared y k
    → k.interval_timer ≡ m.ldit psecond
    → ((alloc_pcb y k).0 ≡ some (entry y 19)) × Allocated y m (alloc_pcb y k).1 (entry y 19)
Prepared-Allocated y m k a q loaded =
    let p = entry y 19 in
    let others = entries y 19 0 [] in
    let (e, fresh, free, number) = alloc_pcb_lem y k p others q.free a.last_null a.last_free in
    let (processes, waiting, lock, timer) = alloc_pcb-counts y k p others q.free in
    (
      e,
      record {
        ready =
            alloc_pcb-frame y k p others y.ready_queue [] q.free a.last_null q.ready
              (Apart-sym (y.ready_queue ∷ []) (y.pcb_free_h ∷ p ∷ others) (a.ready, tt))
              a.last_ready;
        free = free;
        processes = processes ∙ q.processes;
        waiting = waiting ∙ q.waiting;
        lock = lock ∙ q.lock;
        parent = fresh.parent;
        support = fresh.support;
        tick = timer ∙ loaded;
      },
    )

-- From there to the first process.
dispatched-Booted :
    (y : Layout) (m : Machine) (k : Kernel) (w : ℕ → ℕ)
    → let p = entry y 19 in
      let k' = record (inserted y m p k) { word = w } in
      IsSpinLock m
      → Placed y
      → Allocated y m k p
      → (schedule y m k' ≡ stop (ldst (k'.p_s p)) (dispatched m p k'))
        × Booted y m (dispatched m p k') p
unfolding first_process insert_proc_q
dispatched-Booted y m k w lock a d =
    let p = entry y 19 in
    let others = entries y 19 0 [] in
    let k1 = first_process y m p (record k { global_lock = 1 }) in
    let k' : Kernel = record (inserted y m p k) { word = w } in
    let (queue, spared) = insert_proc_q_lem k1 y.ready_queue p [] d.ready a.last_ready.0 in
    let off : has y.ready_queue (y.pcb_free_h ∷ others) ≡ false = ground (arith, a.ready) in
    let (runs, empty) = schedule-cons y m k' p [] queue in
    (
      runs,
      record {
        ready = empty;
        free =
            Ring-frame y.pcb_free_h others (y.ready_queue ∷ p ∷ [])
              (Ring-frame y.pcb_free_h others (p ∷ y.ready_queue ∷ []) d.free spared
                (a.last_free.0, (off, tt)))
              (list_del-spares y.ready_queue p [] [] queue) (off, (a.last_free.0, tt));
        current = ground arith;
        processes = ground (arith, d.processes);
        waiting = d.waiting;
        lock = lock.give_back 1;
        start = ground arith;
        status = ground arith;
        parent = d.parent;
        support = d.support;
        tick = d.tick;
      },
    )

-- From a memory in which pcbFree_h and semdFree_h are empty lists, with the nodes of the tables and
-- the list heads apart, and with a working lock, the nucleus boots: `main` reaches LDST of the first
-- process. It is the last PCB of the table, starts at `test` with the initial status, and has no
-- parent and no support structure. It is the current process and the only one, the ready queue is
-- empty, all other PCBs are free, the counts agree with this, and the lock is free. The interval
-- timer holds what LDIT makes of PSECOND.
pub main-Booted :
    (y : Layout) (m : Machine) (k : Kernel)
    → IsSpinLock m
    → Placed y
    → Declared y k
    → (k' : Kernel) × (main y m k ≡ stop (ldst (k'.p_s (entry y 19))) k')
      × Booted y m k' (entry y 19)
main-Booted y m k lock a d =
    let p = entry y 19 in
    let (e, got) =
      Prepared-Allocated y m (prepare y m k) a (prepare-Prepared y m k a d).0
        (prepare-Prepared y m k a d).1 in
    let k2 = inserted y m p (alloc_pcb y (prepare y m k)).1 in
    let w = (route irt_num_entry 0 k2).word in
    let (runs, booted) = dispatched-Booted y m (alloc_pcb y (prepare y m k)).1 w lock a got in
    (
      dispatched m p (record k2 { word = w }),
      main_eq y m k p lock e got.lock ∙ rw (route_eq irt_num_entry 0 k2, runs) refl,
      booted,
    )
