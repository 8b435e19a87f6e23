-- ===== src/Dispatcher/Traps.antt =====
-- A system call that the caller may not make, from the exception on, through phase2/exceptions.c.
use multi_pand_os.Base.{ℕ, ◌≡◌, ◌≢◌, refl, true, false, List, ◌∷◌, some, ap, ◌∙◌, ==_refl, ne→==}
use multi_pand_os.Base.Word.{sub32, is_negative}
use multi_pand_os.Kernel.{Kernel, Layout, null}
use multi_pand_os.Machine.{Machine, IsSpinLock, ok, stop, ldst}
use multi_pand_os.Pcb.Queue.{IsQueue}
use multi_pand_os.Scheduler.{schedule}
use multi_pand_os.Scheduler.Branches.{schedule-cons, dispatched}
use multi_pand_os.Exceptions.Termination.{terminate_process, program_trap_handler}
use multi_pand_os.Exceptions.Syscalls.{saved, is_kernel_mode}
use multi_pand_os.Exceptions.Syscalls.Deadlock.{RunsBelow, RunsBelow-same, terminate_process-below}
use multi_pand_os.Dispatcher.{exec_code, exception_handler}
use multi_pand_os.Dispatcher.Calls.{blamed, exception_handler-user}

program_trap_handler-ended :
    (y : Layout) (m : Machine) (k g : Kernel)
    → IsSpinLock m
    → k.current_process m.prid ≢ null
    → k.global_lock ≡ 0
    → terminate_process y (k.current_process m.prid) (record k { global_lock = 1 }) ≡ ok tt g
    → program_trap_handler y m k ≡ schedule y m (record g { global_lock = m.release g.global_lock })
unfolding program_trap_handler
program_trap_handler-ended y m k g lock cur free e =
    let held : m.acquire k.global_lock ≡ some 1 = ap m.acquire free ∙ lock.take_free in
    rw (ne→== _ _ cur, held, e) refl

program_trap_handler-below :
    (y : Layout) (m : Machine) (k : Kernel) (parent : ℕ) (before after : List ℕ) (p : ℕ)
    (ps fs : List ℕ)
    → IsSpinLock m
    → k.current_process m.prid ≢ null
    → k.global_lock ≡ 0
    → RunsBelow y k (k.current_process m.prid) parent before after (p ∷ ps) fs
    → (k' : Kernel) × (program_trap_handler y m k ≡ stop (ldst (k'.p_s p)) k')
      × IsQueue k' y.ready_queue ps
      × (k'.process_count ≡ sub32 k.process_count 1)
      × (k'.current_process m.prid ≡ p)
      × (k'.global_lock ≡ 0)
program_trap_handler-below y m k parent before after p ps fs lock cur free a =
    let (g, e, ready, freed, pc, wc) =
      terminate_process-below y (record k { global_lock = 1 }) (k.current_process m.prid) parent
        before after (p ∷ ps) fs (RunsBelow-same 1 k.state_at a) in
    let released : Kernel = record g { global_lock = m.release g.global_lock } in
    let (loads, rest) = schedule-cons y m released p ps ready in
    (
      dispatched m p released,
      program_trap_handler-ended y m k g lock cur free e ∙ loads,
      rest,
      pc,
      rw (==_refl m.prid) refl,
      lock.give_back g.global_lock,
    )

-- A process that has a parent and no child, and asks for a privileged call in user mode, is ended:
-- `process_count` goes down, and the first ready process is loaded. The lock, a spin lock, is free
-- before and after.
pub exception_handler-privinstr :
    (y : Layout) (m : Machine) (k : Kernel) (parent : ℕ) (before after : List ℕ) (p : ℕ)
    (ps fs : List ℕ)
    → IsSpinLock m
    → exec_code m.cause ≡ 8
    → k.current_state ≢ null
    → k.current_process m.prid ≢ null
    → is_negative ((saved k).gpr 24) ≡ true
    → is_kernel_mode y m (saved k) ≡ false
    → k.global_lock ≡ 0
    → RunsBelow y k (k.current_process m.prid) parent before after (p ∷ ps) fs
    → (k' : Kernel) × (exception_handler y m k ≡ stop (ldst (k'.p_s p)) k')
      × IsQueue k' y.ready_queue ps
      × (k'.process_count ≡ sub32 k.process_count 1)
      × (k'.current_process m.prid ≡ p)
      × (k'.global_lock ≡ 0)
exception_handler-privinstr y m k parent before after p ps fs lock code state cur call mode free a =
    let (k', e, ready, count, loaded, unlocked) =
      program_trap_handler-below y m (blamed k) parent before after p ps fs lock cur free
        (RunsBelow-same k.global_lock (blamed k).state_at a) in
    (k', exception_handler-user y m k code state cur call mode ∙ e, ready, count, loaded, unlocked)
