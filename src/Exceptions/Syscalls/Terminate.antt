-- ===== src/Exceptions/Syscalls/Terminate.antt =====
-- TERMPROCESS of phase2/exceptions.c.
use multi_pand_os.Base.{
  ℕ, suc, ◌+◌, ◌-◌, Option, none, ==_refl, ◌≤◌, ◌≡◌, ◌≢◌, refl, ap, ◌∙◌, inl, inr, true, false,
  ◌&&◌, List, [], ◌∷◌, ◌++◌, ◌==◌, if◌then◌else◌, arith, has, length, map, ne→==, Bool-cases,
}
use multi_pand_os.Base.Word.{sub32, is_positive}
use multi_pand_os.Listx.Search.{find, list_for_each-find}
use multi_pand_os.Kernel.{Kernel, Layout, null, max_proc, max_rounds, p_child, p_sib}
use multi_pand_os.Machine.{Machine, Run, ok, stop, panic, wait, unreachable, Stop}
use multi_pand_os.Pcb.{empty_child, out_child}
use multi_pand_os.Pcb.Queue.{IsQueue}
use multi_pand_os.Pcb.Tree.{Family, empty_child_lem, out_child_orphan}
use multi_pand_os.Scheduler.{wait_status}
use multi_pand_os.Scheduler.Branches.{schedule-nil, idle}
use multi_pand_os.Exceptions.Destroy.{Queues, destroy_process-other}
use multi_pand_os.Exceptions.Termination.{terminate_process, terminate_progeny}
use multi_pand_os.Exceptions.Syscalls.{term_target, chosen, term_process, leave, saved}

length-map-p_sib : (cs : List ℕ) → length (map p_sib cs) ≡ length cs
length-map-p_sib [] = refl
length-map-p_sib (c ∷ cs) = omega (arith, length-map-p_sib cs)

find-children :
    (y : Layout) (prev : ℕ → ℕ) (target_pid : ℕ) (cs : List ℕ)
    → ((c : ℕ) → has c cs ≡ true → (prev (p_child (c + y.sizeof_pcb)) == target_pid) ≡ false)
    → find (λ pos. prev (pos + y.sizeof_pcb - 8) == target_pid) (map p_sib cs) ≡ none
find-children y prev target_pid [] other = refl
find-children y prev target_pid (c ∷ cs) other =
    let behind : p_sib c + y.sizeof_pcb - 8 ≡ p_child (c + y.sizeof_pcb) = omega arith in
    rw (behind, other c (ground (arith, ==_refl c)))
      (find-children y prev target_pid cs (λ d i. other d (ground arith)))

-- TERMPROCESS with a number other than 0 panics, whatever numbers the children have, if these are at
-- most MAXPROC and for none of them the word where the next PCB of the table keeps the `prev` of its
-- own list of children is the number asked for.
pub term_target-child :
    (y : Layout) (m : Machine) (k : Kernel) (proc target_pid : ℕ) (cs : List ℕ)
    → target_pid ≢ 0
    → Family k proc cs
    → length cs ≤ max_proc
    → ((c : ℕ)
        → has c cs ≡ true
        → (k.links.prev (p_child (c + y.sizeof_pcb)) == target_pid) ≡ false)
    → term_target y m proc target_pid k ≡ stop panic k
unfolding term_target chosen
term_target-child y m k proc target_pid cs ne f few other =
    let search =
      list_for_each-find max_rounds (p_child proc)
        (λ pos. k.links.prev (pos + y.sizeof_pcb - 8) == target_pid) (map p_sib cs) f.ring
        (omega (arith, length-map-p_sib cs)) in
    rw (ne→== _ _ ne, search, find-children y k.links.prev target_pid cs other) refl

terminate_progeny-leaf :
    (y : Layout) (rounds p : ℕ) (k : Kernel)
    → empty_child p k ≡ true
    → terminate_progeny y (suc rounds) p k ≡ ok tt k
unfolding terminate_progeny
terminate_progeny-leaf y rounds p k e = rw (e, terminate_progeny)

-- `proc` runs: it is neither ready nor free, and has no child and no parent.
pub record RunsAlone (y : Layout) (k : Kernel) (proc : ℕ) (rs fs : List ℕ) : Type 0 where
  pub queues : Queues y k rs fs
  pub not_ready : has proc (y.ready_queue ∷ rs) ≡ false
  pub not_free : has proc (y.pcb_free_h ∷ fs) ≡ false
  pub childless : Family k proc []
  pub orphan : k.p_parent proc ≡ null

-- The process that runs ends with both counts lowered, although it did not wait, and is the last of
-- the free PCBs. Here `k1` is the memory in which `outChild` has taken it from its parent, if any.
pub terminate_process-unlinked :
    (y : Layout) (k k1 : Kernel) (proc : ℕ) (r : Option ℕ) (rs fs : List ℕ)
    → out_child proc k ≡ (r, k1)
    → RunsAlone y k1 proc rs fs
    → (k' : Kernel) × (terminate_process y proc k ≡ ok tt k')
      × IsQueue k' y.ready_queue rs
      × IsQueue k' y.pcb_free_h (fs ++ proc ∷ [])
      × (k'.process_count ≡ sub32 k1.process_count 1)
      × (k'.waiting_count ≡ sub32 k1.waiting_count 1)
unfolding terminate_process
terminate_process-unlinked y k k1 proc r rs fs out a =
    let (k', e, ready, free, pc, wc, _) =
      destroy_process-other y k1 proc rs fs a.queues a.not_ready a.not_free in
    (
      k',
      rw (out, terminate_progeny-leaf y 20 proc k1 ((empty_child_lem k1 proc).0 a.childless)) e,
      ready,
      free,
      pc,
      wc,
    )

pub terminate_process-alone :
    (y : Layout) (k : Kernel) (proc : ℕ) (rs fs : List ℕ)
    → RunsAlone y k proc rs fs
    → (k' : Kernel) × (terminate_process y proc k ≡ ok tt k')
      × IsQueue k' y.ready_queue rs
      × IsQueue k' y.pcb_free_h (fs ++ proc ∷ [])
      × (k'.process_count ≡ sub32 k.process_count 1)
      × (k'.waiting_count ≡ sub32 k.waiting_count 1)
terminate_process-alone y k proc rs fs a =
    terminate_process-unlinked y k k proc none rs fs (out_child_orphan k proc a.orphan) a

-- What a run ends with, the memory left out.
abbrev pub Ends : Run (Unit {0}) → Stop → Type 0
Ends r s = (k' : Kernel) × (r ≡ stop s k')

leave-nil :
    (y : Layout) (m : Machine) (k : Kernel)
    → IsQueue k y.ready_queue []
    → leave y m k ≡ (
        if is_positive k.process_count && is_positive k.waiting_count
        then stop wait
            (record (idle m k) { global_lock = m.release k.global_lock; status = wait_status })
        else if is_positive k.process_count && (k.waiting_count == 0)
        then stop panic (record (idle m k) { global_lock = m.release k.global_lock })
        else stop unreachable (record (idle m k) { global_lock = m.release k.global_lock }))
unfolding leave
leave-nil y m k r =
    rw (schedule-nil y m (record k { global_lock = m.release k.global_lock }) r)
      (elim (Bool-cases (is_positive k.process_count && is_positive k.waiting_count)) [
        | inl a ↦ rw a
        | inr a ↦ elim (Bool-cases (is_positive k.process_count && (k.waiting_count == 0))) [
          | inl b ↦ rw (a, b)
          | inr b ↦ rw (a, b)
        ]
      ])

pub leave-panics :
    (y : Layout) (m : Machine) (k : Kernel)
    → IsQueue k y.ready_queue []
    → k.process_count ≡ 1
    → k.waiting_count ≡ 0
    → Ends (leave y m k) panic
leave-panics y m k r pc wc =
    (record (idle m k) { global_lock = m.release k.global_lock }, leave-nil y m k r ∙ rw (pc, wc))

leave-unreachable :
    (y : Layout) (m : Machine) (k : Kernel)
    → IsQueue k y.ready_queue []
    → k.process_count ≡ 0
    → Ends (leave y m k) unreachable
leave-unreachable y m k r pc =
    (record (idle m k) { global_lock = m.release k.global_lock }, leave-nil y m k r ∙ rw pc)

pub term_process_self :
    (y : Layout) (m : Machine) (k k' k'' : Kernel) (proc : ℕ) (s : Stop)
    → (saved k).gpr 25 ≡ 0
    → terminate_process y proc k ≡ ok tt k'
    → leave y m k' ≡ stop s k''
    → term_process y m proc k ≡ stop s k''
unfolding term_process term_target
term_process_self y m k k' k'' proc s self e f = rw (self, e, f)

-- The last process of all ends itself: the scheduler comes back, to where the compiler was told
-- that it never does.
pub term_process-unreachable :
    (y : Layout) (m : Machine) (k : Kernel) (proc : ℕ) (fs : List ℕ)
    → RunsAlone y k proc [] fs
    → (saved k).gpr 25 ≡ 0
    → k.process_count ≡ 1
    → Ends (term_process y m proc k) unreachable
term_process-unreachable y m k proc fs a self one =
    let (k', e, ready, _, pc, wc) = terminate_process-alone y k proc [] fs a in
    let (k'', f) = leave-unreachable y m k' ready (pc ∙ ap (λ n. sub32 n 1) one) in
    (k'', term_process_self y m k k' k'' proc unreachable self e f)
