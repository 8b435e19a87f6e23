-- ===== src/Pcb/Fifo.antt =====
-- Runs of the queue functions of phase1/pcb.c, against the same operations on a list.
use multi_pand_os.Base.{
  ℕ, ◌<◌, ◌≤◌, ◌≡◌, refl, false, Option, none, some, List, [], ◌∷◌, ◌++◌, arith, if◌then◌else◌, has,
  length, length-append, erase, length-erase, Bool-cases, inl, inr,
}
use multi_pand_os.Kernel.{Kernel, max_proc, with_links, ◌>>=◌}
use multi_pand_os.Listx.{list_del}
use multi_pand_os.Listx.Edit.{list_del-Ring}
use multi_pand_os.Pcb.{insert_proc_q, remove_proc_q, out_proc_q}
use multi_pand_os.Pcb.Queue.{
  IsQueue, insert_proc_q_lem, remove_proc_q_nil, remove_proc_q_cons, out_proc_q_found,
  list_del-erase,
}

pub data Op : Type 0 where
  insert : ℕ → Op
  remove : Op
  out : ℕ → Op

-- What the abstract queue does: its answer, and the queue after.
abbrev pub spec_step : Op → List ℕ → Option ℕ × List ℕ
spec_step (insert p) xs = (none, xs ++ p ∷ [])
spec_step remove [] = (none, [])
spec_step remove (x ∷ xs) = (some x, xs)
spec_step (out p) xs = if has p xs then (some p, erase p xs) else (none, xs)

abbrev pub spec_run : List Op → List ℕ → List (Option ℕ) × List ℕ
spec_run [] xs = ([], xs)
spec_run (o ∷ os) xs =
    let (a, xs') = spec_step o xs in let (as', xs'') = spec_run os xs' in (a ∷ as', xs'')

-- An insertion is of a PCB that is not in the queue yet, and of one that there is room for.
abbrev pub Allowed : ℕ → Op → List ℕ → Type 0
Allowed h (insert p) xs = (has p (h ∷ xs) ≡ false) × (length xs < max_proc)
Allowed h remove xs = Unit
Allowed h (out p) xs = Unit

abbrev pub AllAllowed : ℕ → List Op → List ℕ → Type 0
AllAllowed h [] xs = Unit
AllAllowed h (o ∷ os) xs = Allowed h o xs × AllAllowed h os (spec_step o xs).1

unfoldable pub run_step : ℕ → Op → Kernel → Option (Option ℕ × Kernel)
run_step h (insert p) k = some (none, insert_proc_q h p k)
run_step h remove k = some (remove_proc_q h k)
run_step h (out p) k = out_proc_q h p k

unfoldable pub run : ℕ → List Op → Kernel → Option (List (Option ℕ) × Kernel)
unfolding run_step
run h [] k = some ([], k)
run h (o ∷ os) k = do (a, k') ← run_step h o k; (as', k'') ← run h os k'; some (a ∷ as', k'')

-- The queue `h` holds `xs`, of which there are no more than PCBs.
pub record Holds (k : Kernel) (h : ℕ) (xs : List ℕ) : Type 0 where
  pub queue : IsQueue k h xs
  pub few : length xs ≤ max_proc

abbrev pub Steps : ℕ → Op → Kernel → List ℕ → Type 0
Steps h o k xs =
    (k' : Kernel) × (run_step h o k ≡ some ((spec_step o xs).0, k')) × Holds k' h (spec_step o xs).1

run_step_lem :
    (h : ℕ) (o : Op) (k : Kernel) (xs : List ℕ) → Holds k h xs → Allowed h o xs → Steps h o k xs
unfolding run_step
run_step_lem h (insert p) k xs q (fresh, room) = (
  insert_proc_q h p k,
  refl,
  record {
    queue = (insert_proc_q_lem k h p xs q.queue fresh).0;
    few = omega (arith, length-append xs (p ∷ []));
  },
)
run_step_lem h remove k [] q ok = (k, rw (remove_proc_q_nil k h q.queue), q)
run_step_lem h remove k (x ∷ xs) q ok = (
  with_links (list_del x) k,
  rw (remove_proc_q_cons k h x xs q.queue),
  record { queue = (list_del-Ring h x [] xs q.queue).0; few = omega (arith, q.few) },
)
run_step_lem h (out p) k xs q ok = elim (Bool-cases (has p xs)) [
  | inl i ↦ rw i (
    with_links (list_del p) k,
    rw (out_proc_q_found k h p xs q.queue q.few, i),
    record {
      queue = (list_del-erase k h p xs q.queue i).0;
      few = omega (arith, q.few, length-erase p xs);
    },
  )
  | inr i ↦ rw i (k, rw (out_proc_q_found k h p xs q.queue q.few, i), q)
]

abbrev pub Runs : ℕ → List Op → Kernel → List ℕ → Type 0
Runs h os k xs =
    (k' : Kernel) × (run h os k ≡ some ((spec_run os xs).0, k')) × Holds k' h (spec_run os xs).1

-- From a queue that holds `xs`, every allowed run of insertProcQ, removeProcQ and outProcQ ends,
-- answers call for call what the list answers, and leaves a queue that holds the list's end state.
pub run-spec_run :
    (h : ℕ) (os : List Op) (k : Kernel) (xs : List ℕ)
    → Holds k h xs
    → AllAllowed h os xs
    → Runs h os k xs
unfolding run
run-spec_run h [] k xs q ok = (k, refl, q)
run-spec_run h (o ∷ os) k xs q (ok, oks) =
    let (k', e, q') = run_step_lem h o k xs q ok in
    let (k'', e', q'') = run-spec_run h os k' (spec_step o xs).1 q' oks in (k'', rw (e, e'), q'')
