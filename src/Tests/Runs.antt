-- ===== src/Tests/Runs.antt =====
-- Three processes on the semaphores of two descriptors.
use multi_pand_os.Base.{ℕ, ◌≡◌, refl, Bool, none, some, List, [], ◌∷◌, arith, has}
use multi_pand_os.Listx.{Links, list_add, list_add_between}
use multi_pand_os.Kernel.{Kernel}
use multi_pand_os.Asl.Spec.{Op, insert, remove, out, head, Answer, code, process, Sems, spec_run}
use multi_pand_os.Asl.Stored.{Stored}
use multi_pand_os.Asl.Runs.{run, run-spec_run_sems}
use multi_pand_os.Tests.Data.{lay, alone, memory}

abbrev pcb : ℕ → Bool
pcb a = has a (1000 ∷ 1192 ∷ 1384 ∷ [])

-- The two descriptors are free.
abbrev two_free : Links
two_free = list_add 6012 200 (list_add 6032 200 alone)

abbrev none_active : Sems
none_active = record { entries = []; free = 6000 ∷ 6020 ∷ []; sem_of = λ p. 0 }

none_active-Stored : Stored lay pcb (memory two_free) none_active
unfolding list_add list_add_between
none_active-Stored = record {
  active = record { chain = tt; closed = (refl, refl); distinct = (refl, tt) };
  free = record {
    chain = ((refl, refl), ((refl, refl), tt));
    closed = (refl, refl);
    distinct = (refl, (refl, (refl, tt)));
  };
  entries = tt;
  remembered = refl;
  sorted = record {
    distinct = (refl, (refl, (refl, (refl, (refl, (refl, tt))))));
    waiting = tt;
    not_pcbs = λ a i. ground (arith, i);
    pcbs = λ a i. absurd (ground (arith, i));
    few_descs = omega arith;
    few_waiters = omega arith;
  };
}

abbrev calls : List Op
calls =
    insert 50000 1000
    ∷ insert 50000 1192
    ∷ insert 50004 1384
    ∷ out 1384
    ∷ head 50000
    ∷ insert 50008 1384
    ∷ remove 50000
    ∷ remove 50000
    ∷ []

abbrev answers : List Answer
answers =
    code 0
    ∷ code 0
    ∷ code 0
    ∷ process (some 1384)
    ∷ process (some 1000)
    ∷ code 0
    ∷ process (some 1000)
    ∷ process none
    ∷ []

run-spec_run_sems_example :
    (k' : Kernel) × (run lay calls (memory two_free) ≡ some (answers, k'))
    × Stored lay pcb k' (spec_run calls none_active).1
run-spec_run_sems_example =
    run-spec_run_sems lay pcb calls (memory two_free) none_active none_active-Stored (
      (refl, refl, omega arith),
      (
        (refl, refl, omega arith),
        ((refl, refl, omega arith), (tt, (tt, ((refl, refl, omega arith), (tt, (tt, tt)))))),
      ),
    )
