-- ===== src/Asl/Runs.antt =====
-- Runs of the functions of phase1/asl.c, against the same operations on a list of semaphores.
mod Activate
mod Free
mod Join
mod Leave
mod Remove
mod Steps
use multi_pand_os.Base.{ℕ, ◌≡◌, refl, Bool, Option, some, List, [], ◌∷◌}
use multi_pand_os.Kernel.{Kernel, Layout, ◌>>=◌}
use multi_pand_os.Asl.Spec.{Op, Answer, Sems, spec_step, spec_run, AllAllowed}
use multi_pand_os.Asl.Stored.{Stored}
use multi_pand_os.Asl.Runs.Steps.{run_step, run_step-Does}

unfoldable pub run : Layout → List Op → Kernel → Option (List Answer × Kernel)
unfolding run_step
run y [] k = some ([], k)
run y (o ∷ os) k = do (a, k') ← run_step y o k; (as', k'') ← run y os k'; some (a ∷ as', k'')

-- From a memory that holds a list of semaphores, every allowed run of insertBlocked, removeBlocked,
-- outBlocked and headBlocked ends, answers call for call what the list answers, and leaves a memory
-- that holds the list's end state. On the list, a process joins the first semaphore with its key or
-- the first free descriptor becomes one, unless there is none; removeBlocked frees the first
-- semaphore with the key and all that wait there; outBlocked takes the process from the first
-- semaphore with the key that it remembers, and frees this when it was the last. Allowed is a run
-- that inserts only PCBs that wait on no semaphore, and no more than MAXPROC at a time.
pub run-spec_run_sems :
    (y : Layout) (is_pcb : ℕ → Bool) (os : List Op) (k : Kernel) (s : Sems)
    → Stored y is_pcb k s
    → AllAllowed is_pcb os s
    → (k' : Kernel) × (run y os k ≡ some ((spec_run os s).0, k'))
      × Stored y is_pcb k' (spec_run os s).1
unfolding run
run-spec_run_sems y is_pcb [] k s w ok = (k, refl, w)
run-spec_run_sems y is_pcb (o ∷ os) k s w (ok, oks) =
    let (k', e, w') = run_step-Does o w ok in
    let (k'', e', w'') = run-spec_run_sems y is_pcb os k' (spec_step o s).1 w' oks in
    (k'', rw (e, e') refl, w'')
