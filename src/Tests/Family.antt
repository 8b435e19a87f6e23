-- ===== src/Tests/Family.antt =====
-- A process with a child and a grandchild, which is ready.
use multi_pand_os.Base.{ℕ, ◌≡◌, inl, refl, [], ◌∷◌, arith, ◌==◌, if◌then◌else◌}
use multi_pand_os.Listx.{list_add_tail, list_add_between}
use multi_pand_os.Kernel.{Kernel, p_child, p_sib}
use multi_pand_os.Machine.{ok}
use multi_pand_os.Exceptions.Termination.{terminate_process}
use multi_pand_os.Exceptions.Destroy.{Queues}
use multi_pand_os.Exceptions.Forest.{Forest, childless, family}
use multi_pand_os.Exceptions.Progeny.State.{Doomed, counted_down, erase_all}
use multi_pand_os.Exceptions.Ending.{terminate_process-Queues}
use multi_pand_os.Dispatcher.{exception_handler}
use multi_pand_os.Dispatcher.Dying.{Unsupported, exception_handler-ended}
use multi_pand_os.Machine.{Machine}
use multi_pand_os.Exceptions.Termination.{clear_current}
use multi_pand_os.Scheduler.Branches.{scheduled, LeftReady}
use multi_pand_os.Tests.Data.{lay, mach, alone, memory}

abbrev three : Kernel
three =
    record (memory (
      list_add_tail 1384 400 (
        list_add_tail (p_sib 1384) (p_child 1192)
          (list_add_tail (p_sib 1192) (p_child 1000) alone)))) {
            process_count = 3;
            current_process = λ i. 1000;
          }

abbrev below_1000 : Forest
below_1000 = family 1192 (family 1384 childless childless) childless

abbrev parent_of : ℕ → ℕ
parent_of a =
    if a == 1012
    then 1000
    else if a == 1212
    then 1000
    else if a == 1204
    then 1192
    else if a == 1404
    then 1192
    else if a == 1396
    then 1384
    else 0

three-Doomed : Doomed lay parent_of three (1384 ∷ []) [] 1000 below_1000
unfolding list_add_tail list_add_between
three-Doomed = record {
  queues = record {
    ready = record {
      chain = ((refl, refl), tt);
      closed = (refl, refl);
      distinct = (refl, (refl, tt));
    };
    free = record { chain = tt; closed = (refl, refl); distinct = (refl, tt) };
    apart = (refl, (refl, tt));
    few_ready = omega arith;
    few_free = omega arith;
  };
  children = record {
    chain = ((refl, refl), tt);
    closed = (refl, refl);
    distinct = (refl, (refl, tt));
  };
  below = (
    record { chain = ((refl, refl), tt); closed = (refl, refl); distinct = (refl, (refl, tt)) },
    (record { chain = tt; closed = (refl, refl); distinct = (refl, tt) }, tt, tt),
    tt,
  );
  marked = (refl, (refl, refl, refl), refl);
  ready_unmarked = λ a i. ground (arith, i);
  free_unmarked = λ a i. ground (arith, i);
  distinct = (refl, (refl, (refl, (refl, tt))));
  occupied = (refl, (refl, (refl, (refl, tt))));
  few = omega arith;
}

terminate_process-Queues_example :
    (k' : Kernel) × (terminate_process lay 1000 three ≡ ok tt k')
    × Queues lay k' (erase_all (1384 ∷ 1192 ∷ 1000 ∷ []) (1384 ∷ [])) (1384 ∷ 1192 ∷ 1000 ∷ [])
    × (k'.process_count ≡ counted_down 3 3)
terminate_process-Queues_example =
    terminate_process-Queues lay parent_of three (1384 ∷ []) [] 1000 below_1000 three-Doomed refl
      (omega arith) (inl refl)

-- The cause has the code 2.
abbrev trapping : Machine
trapping = record mach { cause = 8 }

three-Unsupported : Unsupported trapping three 1000
three-Unsupported = record {
  in_range = omega arith;
  runs = refl;
  state = omega arith;
  none_given = refl;
}

exception_handler-ended_example :
    (k' : Kernel) × (exception_handler lay trapping three
      ≡ scheduled trapping [] (clear_current lay trapping k'))
    × LeftReady lay trapping [] (clear_current lay trapping k')
    × Queues lay k' [] (1384 ∷ 1192 ∷ 1000 ∷ [])
    × (k'.process_count ≡ counted_down 3 3)
exception_handler-ended_example =
    exception_handler-ended lay trapping parent_of three (1384 ∷ []) [] 1000 below_1000
      (omega arith) (omega arith) three-Unsupported three-Doomed refl (omega arith) (inl refl)
