-- ===== src/Tests/Nucleus.antt =====
-- phase2 at concrete memories.
use multi_pand_os.Base.{◌==◌, has, true, false, ◌+◌, ℕ, ◌≡◌, refl, [], ◌∷◌, arith, ◌*◌, ◌%◌, ◌^◌}
use multi_pand_os.Base.Word.{add32, sub32}
use multi_pand_os.Listx.{list_add_tail, list_add_between}
use multi_pand_os.Listx.Ring.{Ring, SameOutside}
use multi_pand_os.Kernel.{Kernel, zero_state, p_child}
use multi_pand_os.Machine.{ok, stop, ldst, spin, panic, unreachable, ◌>>◌}
use multi_pand_os.Pcb.Queue.{IsQueue}
use multi_pand_os.Pcb.Tree.{Family, insert_child_lem}
use multi_pand_os.Pcb.{insert_child}
use multi_pand_os.Exceptions.Destroy.{Queues, destroy_process-ready, destroy_process-other}
use multi_pand_os.Exceptions.Termination.{destroy_process}
use multi_pand_os.Exceptions.Syscalls.{term_target, passeren_call, verhogen_call, term_process}
use multi_pand_os.Exceptions.Syscalls.Semaphores.{passeren-verhogen}
use multi_pand_os.Exceptions.Syscalls.Terminate.{
  RunsAlone, Ends, term_target-child, term_process-unreachable,
}
use multi_pand_os.Interrupts.{
  handle_plt, interrupt_handler, handle_interval_timer, clock_sem, psecond,
}
use multi_pand_os.Interrupts.Plt.{handle_plt-ldst}
use multi_pand_os.Interrupts.Devices.{Pending, WaitsFor, interrupt_handler-spin}
use multi_pand_os.Interrupts.Tick.{WaitsForTick, handle_interval_timer_wakes}
use multi_pand_os.Tests.Data.{
  lay, mach, mach-IsSpinLock, alone, memory, alone-Ring, two-Ring, waiting, two_wait-Ring,
  two_wait-active, two_wait-queue, waiting-Waiting, waiting-Located,
}

-- Two ready processes.
abbrev pub two_ready : Kernel
two_ready = memory (list_add_tail 1192 400 (list_add_tail 1000 400 alone))

two_ready-free : Ring two_ready.links 100 []
unfolding list_add_tail list_add_between
two_ready-free = record { chain = tt; closed = (refl, refl); distinct = (refl, tt) }

two_ready-Queues : Queues lay two_ready (1000 ∷ 1192 ∷ []) []
two_ready-Queues = record {
  ready = two-Ring;
  free = two_ready-free;
  apart = (refl, (refl, (refl, tt)));
  few_ready = omega arith;
  few_free = omega arith;
}

destroy_process-ready_example :
    (k' : Kernel) × (destroy_process lay 1192 two_ready ≡ ok tt k')
    × IsQueue k' 400 (1000 ∷ [])
    × IsQueue k' 100 (1192 ∷ [])
    × (k'.process_count ≡ sub32 0 1)
    × (k'.waiting_count ≡ 0)
    × ((a : ℕ)
        → has a (400 ∷ 1000 ∷ 1192 ∷ []) ≡ false
        → has a (100 ∷ []) ≡ false
        → (k'.links.next a ≡ two_ready.links.next a) × (k'.links.prev a ≡ two_ready.links.prev a))
destroy_process-ready_example =
    destroy_process-ready lay two_ready 1192 (1000 ∷ []) [] [] two_ready-Queues

destroy_process-other_example :
    (k' : Kernel) × (destroy_process lay 1384 two_ready ≡ ok tt k')
    × IsQueue k' 400 (1000 ∷ 1192 ∷ [])
    × IsQueue k' 100 (1384 ∷ [])
    × (k'.process_count ≡ sub32 0 1)
    × (k'.waiting_count ≡ sub32 0 1)
    × SameOutside (1384 ∷ 100 ∷ []) two_ready.links k'.links
destroy_process-other_example =
    destroy_process-other lay two_ready 1384 (1000 ∷ 1192 ∷ []) [] two_ready-Queues refl refl

-- The process at 1384 runs alone.
abbrev running : ℕ → ℕ → Kernel
running processes waiters = record (memory alone) {
  process_count = processes;
  waiting_count = waiters;
  current_process = λ i. 1384;
}

running-RunsAlone : (n w : ℕ) → RunsAlone lay (running n w) 1384 [] []
running-RunsAlone n w = record {
  queues = record {
    ready = alone-Ring 400;
    free = alone-Ring 100;
    apart = (refl, tt);
    few_ready = omega arith;
    few_free = omega arith;
  };
  not_ready = refl;
  not_free = refl;
  childless = record { ring = alone-Ring 1396; parents = tt };
  orphan = refl;
}

term_process-unreachable_example : Ends (term_process lay mach 1384 (running 1 0)) unreachable
term_process-unreachable_example =
    term_process-unreachable lay mach (running 1 0) 1384 [] (running-RunsAlone 1 0) refl refl

-- The process at 1000 has the child at 1192.
abbrev parent : Kernel
parent = insert_child 1000 1192 (memory alone)

parent-Family : Family parent 1000 (1192 ∷ [])
parent-Family =
    insert_child_lem (memory alone) 1000 1192 [] (record { ring = alone-Ring 1012; parents = tt })
      refl

parent-behind : (parent.links.prev 1396 == 7) ≡ false
unfolding insert_child list_add_tail list_add_between
parent-behind = refl

parent-other :
    (c : ℕ)
    → has c (1192 ∷ []) ≡ true
    → (parent.links.prev (p_child (c + lay.sizeof_pcb)) == 7) ≡ false
parent-other c i = (let same : c ≡ 1192 = ground arith in rw same parent-behind)

term_target-child_example : term_target lay mach 1000 7 parent ≡ stop panic parent
term_target-child_example =
    term_target-child lay mach parent 1000 7 (1192 ∷ []) (omega arith) parent-Family (omega arith)
      parent-other

-- The semaphore at address 0, with value 1.
abbrev one_unit : Kernel
one_unit = record (memory alone) { word = λ a. 1 }

passeren-verhogen_example :
    (w : ℕ → ℕ) × ((passeren_call lay mach 1000 >> verhogen_call lay mach) one_unit
      ≡ ok tt (record one_unit { word = w }))
    × ((a : ℕ) → w a ≡ 1)
passeren-verhogen_example = passeren-verhogen lay mach 1000 one_unit (omega arith) (omega arith)

handle_plt-ldst_example :
    (k' : Kernel) × (handle_plt lay mach 0 (running 1 0) ≡ stop (ldst zero_state) k')
    × IsQueue k' 400 []
    × (k'.current_process 0 ≡ 1384)
    × (k'.p_time 1384 ≡ add32 0 5000)
    × ((c : ℕ) → (c == 1384) ≡ false → k'.p_time c ≡ (running 1 0).p_time c)
    × (k'.p_s ≡ (running 1 0).p_s)
    × (k'.current_state ≡ (running 1 0).current_state)
handle_plt-ldst_example =
    handle_plt-ldst lay mach (running 1 0) [] 1384 [] (omega arith) (omega arith) (omega arith)
      (alone-Ring 400) refl refl

-- A process waits for the first disk.
disk-WaitsFor :
    WaitsFor lay (record (waiting 50000) { global_lock = 1 }) 0 0 6000 [] [] [] 1000 (1192 ∷ [])
disk-WaitsFor = record {
  waiting = record {
    active = two_wait-active;
    free = two_wait-Ring 200 refl;
    queue = two_wait-queue;
    lists = (refl, (refl, tt));
    queue_active = (refl, (refl, (refl, tt)));
    queue_free = (refl, (refl, (refl, tt)));
  };
  located = record {
    actives = record { ring = two_wait-active; few = omega arith };
    key = refl;
    first = tt;
  };
  named = refl;
}

disk-Pending : Pending mach 17 0
disk-Pending = record {
  no_plt = refl;
  no_tick = refl;
  line_low = omega arith;
  line_high = omega arith;
  line_set = refl;
  lines_clear = λ j lt le. absurd (omega arith);
  dev_low = omega arith;
  dev_set = refl;
  devs_clear = λ j lt le. absurd (omega arith);
}

interrupt_handler-spin_example :
    (k' : Kernel) × (interrupt_handler lay mach (waiting 50000) ≡ stop spin k')
interrupt_handler-spin_example =
    interrupt_handler-spin lay mach 17 0 6000 [] [] [] 1000 (1192 ∷ []) (waiting 50000)
      mach-IsSpinLock disk-Pending (omega arith) (omega arith) refl disk-WaitsFor

clock-WaitsForTick : WaitsForTick lay (waiting 50192) 6000 [] [] [] 1000 (1192 ∷ []) []
clock-WaitsForTick = record {
  waiting = waiting-Waiting 50192;
  located = waiting-Located 50192;
  only = tt;
  named = refl;
  ready = two_wait-Ring 400 refl;
  apart_queue = (refl, (refl, (refl, tt)));
  apart_active = (refl, (refl, tt));
  apart_free = (refl, tt);
}

handle_interval_timer_wakes_example :
    (k' : Kernel) × (handle_interval_timer lay mach (waiting 50192) ≡ ok tt k')
    × IsQueue k' 400 (1000 ∷ [])
    × (k'.waiting_count ≡ sub32 2 1)
    × (k'.word (clock_sem lay) ≡ 0)
    × (k'.interval_timer ≡ mach.ldit ((psecond * mach.timescale) % 2 ^ 32))
    × (k'.global_lock ≡ 0)
handle_interval_timer_wakes_example =
    handle_interval_timer_wakes lay mach (waiting 50192) 6000 [] [] [] 1000 (1192 ∷ []) []
      mach-IsSpinLock refl clock-WaitsForTick
