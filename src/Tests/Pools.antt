-- ===== src/Tests/Pools.antt =====
-- Two PCBs that are allocated, queued and released.
use multi_pand_os.Base.{ℕ, ◌≡◌, refl, Bool, Option, none, some, List, [], ◌∷◌, arith, has}
use multi_pand_os.Base.Tally.{tally}
use multi_pand_os.Listx.{list_add_tail, list_add_between}
use multi_pand_os.Kernel.{Kernel}
use multi_pand_os.Pcb.Pools.{
  Pools, pcbs, Call, alloc, release, enqueue, dequeue, drop, Placed, perform_all,
}
use multi_pand_os.Pcb.Pools.Runs.{perform_all-moves}
use multi_pand_os.Tests.Data.{lay, alone, memory}

abbrev is_node : ℕ → Bool
is_node a = has a (100 ∷ 400 ∷ 1000 ∷ 1192 ∷ [])

abbrev two_free : Kernel
two_free = memory (list_add_tail 1192 100 (list_add_tail 1000 100 alone))

abbrev unused : Pools
unused = record { free = 1000 ∷ 1192 ∷ []; ready = []; held = [] }

unused-Placed : Placed lay 400 is_node two_free unused
unfolding list_add_tail list_add_between
unused-Placed = record {
  free = record {
    chain = ((refl, refl), ((refl, refl), tt));
    closed = (refl, refl);
    distinct = (refl, (refl, (refl, tt)));
  };
  ready = record { chain = tt; closed = (refl, refl); distinct = (refl, tt) };
  distinct = (refl, (refl, (refl, (refl, tt))));
  few = omega arith;
  nodes = λ a i. i;
  inner = λ p i. ground (arith, i);
  no_null = refl;
}

abbrev calls : List Call
calls =
    alloc
    ∷ alloc
    ∷ alloc
    ∷ enqueue 1000
    ∷ enqueue 1192
    ∷ drop 1000
    ∷ dequeue
    ∷ release 1192
    ∷ release 1000
    ∷ alloc
    ∷ []

abbrev answers : List (Option ℕ)
answers =
    some 1000
    ∷ some 1192
    ∷ none
    ∷ none
    ∷ none
    ∷ some 1000
    ∷ some 1192
    ∷ none
    ∷ none
    ∷ some 1192
    ∷ []

perform_all-moves_example :
    (k' : Kernel) × (perform_all lay 400 calls two_free ≡ some (answers, k'))
    × Placed lay 400 is_node k' (record { free = 1000 ∷ []; ready = []; held = 1192 ∷ [] })
    × ((a : ℕ) → tally a (1000 ∷ 1192 ∷ []) ≡ tally a (pcbs unused))
perform_all-moves_example =
    perform_all-moves lay 400 is_node calls two_free unused unused-Placed
      (tt, (tt, (tt, (refl, (refl, (tt, (tt, (refl, (refl, (tt, tt))))))))))
