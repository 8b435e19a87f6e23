-- ===== src/Exceptions/Termination.antt =====
-- phase2/exceptions.c: the end of a process and of all that descend from it.
use multi_pand_os.Base.{
  ℕ, zero, suc, Bool, true, false, not, ◌||◌, none, some, ◌==◌, leb, if◌then◌else◌,
}
use multi_pand_os.Base.Word.{sub32}
use multi_pand_os.Listx.{update}
use multi_pand_os.Kernel.{Kernel, Layout, null, max_rounds}
use multi_pand_os.Machine.{
  Machine, Cmd, ok, stop, out_of_rounds, ldcxt, ◌>>=◌, ◌>>◌, ask, call, call_loop, modify, skip,
  read, panic_if, acquire_lock, release_lock,
}
use multi_pand_os.Pcb.{out_proc_q, free_pcb, is_in_pcb_free_h, empty_child, remove_child, out_child}
use multi_pand_os.Scheduler.{schedule}

abbrev pub ncpu : ℕ
ncpu = 1

abbrev pub when : Bool → Cmd (Unit {0}) → Cmd (Unit {0})
when b c k = if b then c k else ok tt k

abbrev pub forget_waiting : Kernel → Kernel
forget_waiting k = record k { waiting_count = sub32 k.waiting_count 1 }

module _ (y : Layout) where
  -- The branch of `destroyProcess` for a PCB that is not free.
  unfoldable pub retire : (p : ℕ) → Cmd (Unit {0})
  retire p = do
    queued ← call_loop (out_proc_q y.ready_queue p)
    elim queued [ none ↦ modify forget_waiting | some _ ↦ skip ]
    modify (free_pcb y p)
    modify (λ k. record k { process_count = sub32 k.process_count 1 })

  unfoldable pub destroy_process : (p : ℕ) → Cmd (Unit {0})
  destroy_process p = do free ← ask (is_in_pcb_free_h y p); when (not free) (retire p)

  -- The `while` loop and the recursion share the rounds.
  unfoldable pub terminate_progeny : (rounds p : ℕ) → Cmd (Unit {0})
  terminate_progeny zero p = λ k. out_of_rounds
  terminate_progeny (suc rounds) p = λ k. elim (empty_child p k) [
    | true ↦ ok tt k
    | false ↦
        let (removed, k') = remove_child p k in
        elim removed [
          | none ↦ terminate_progeny rounds p k'
          | some child ↦
              (terminate_progeny rounds child
                  >> destroy_process child
                  >> terminate_progeny rounds p)
                k'
        ]
  ]

  unfoldable pub terminate_process : (p : ℕ) → Cmd (Unit {0})
  terminate_process p = do call (out_child p); terminate_progeny max_rounds p; destroy_process p

module _ (y : Layout) (m : Machine) where
  abbrev pub clear_current : Kernel → Kernel
  clear_current k = record k { current_process = update k.current_process m.prid null }

  -- `LDCXT` with the context that the support structure gives for this kind of exception.
  unfoldable pub pass_up : (exception_type support : ℕ) → Cmd (Unit {0})
  pass_up exception_type support k =
      stop
        (ldcxt (k.sup_stack_ptr support exception_type) (k.sup_status support exception_type)
          (k.sup_pc support exception_type))
        k

  unfoldable pub die_of : (cpu_id cur : ℕ) → Cmd (Unit {0})
  die_of cpu_id cur = do
    terminate_process y cur
    modify (λ k. record k { current_process = update k.current_process cpu_id null })
    schedule y m

  unfoldable pub pass_up_or_die : (exception_type cpu_id : ℕ) → Cmd (Unit {0})
  pass_up_or_die exception_type cpu_id = do
    cur ← read (λ k. k.current_process cpu_id)
    state ← read (λ k. k.current_state)
    panic_if (leb ncpu cpu_id || cur == null || state == null)
    support ← read (λ k. k.p_support_struct cur)
    (if support == null then die_of cpu_id cur else pass_up exception_type support)

  unfoldable pub program_trap_handler : Cmd (Unit {0})
  program_trap_handler = do
    cur ← read (λ k. k.current_process m.prid)
    panic_if (cur == null)
    acquire_lock m
    terminate_process y cur
    release_lock m
    schedule y m
