-- ===== src/Tests/Pcbs.antt =====
-- Queues, the free list and the tree of phase1/pcb.c at concrete PCBs.
use multi_pand_os.Base.{◌≡◌, refl, some, List, [], ◌∷◌, arith}
use multi_pand_os.Base.Word.{add32}
use multi_pand_os.Listx.{list_add_tail}
use multi_pand_os.Listx.Ring.{Ring}
use multi_pand_os.Listx.Edit.{list_add_tail-Ring}
use multi_pand_os.Kernel.{Kernel, null, p_sib}
use multi_pand_os.Pcb.{alloc_pcb, insert_child, out_child, remove_child, out_proc_q, remove_proc_q}
use multi_pand_os.Pcb.Fifo.{Op, insert, remove, out, Runs, run-spec_run}
use multi_pand_os.Pcb.Alloc.{IsFresh, alloc_pcb_lem}
use multi_pand_os.Pcb.First.{out_child-remove_child, out_proc_q-remove_proc_q}
use multi_pand_os.Pcb.Tree.{Family, insert_child_lem, out_child_lem}
use multi_pand_os.Tests.Data.{lay, alone, memory, alone-Ring}

abbrev ops : List Op
ops = insert 1000 ∷ insert 1192 ∷ insert 1384 ∷ out 1192 ∷ remove ∷ remove ∷ remove ∷ []

run-spec_run_example : Runs 400 ops (memory alone) []
run-spec_run_example =
    run-spec_run 400 ops (memory alone) [] (record { queue = alone-Ring 400; few = omega arith })
      (
        (refl, omega arith),
        ((refl, omega arith), ((refl, omega arith), (tt, (tt, (tt, (tt, tt)))))),
      )

-- One free PCB.
abbrev one_free : Kernel
one_free = memory (list_add_tail 1000 100 alone)

one_free-Ring : Ring one_free.links 100 (1000 ∷ [])
one_free-Ring = list_add_tail-Ring 1000 100 [] (alone-Ring 100) refl

alloc_pcb_lem_example :
    let k' = (alloc_pcb lay one_free).1 in
    ((alloc_pcb lay one_free).0 ≡ some 1000)
    × IsFresh lay 1 k' 1000
    × Ring k'.links 100 []
    × (k'.next_pid ≡ add32 1 1)
alloc_pcb_lem_example =
    alloc_pcb_lem lay one_free 1000 [] one_free-Ring (omega arith)
      (refl, (refl, (refl, (refl, tt))))

no_child : Family (memory alone) 1000 []
no_child = record { ring = alone-Ring 1012; parents = tt }

abbrev parent : Kernel
parent = insert_child 1000 1384 (insert_child 1000 1192 (memory alone))

two_children : Family parent 1000 (1192 ∷ 1384 ∷ [])
two_children =
    insert_child_lem (insert_child 1000 1192 (memory alone)) 1000 1384 (1192 ∷ [])
      (insert_child_lem (memory alone) 1000 1192 [] no_child refl) refl

out_child_lem_example :
    let k' = (out_child 1192 parent).1 in
    ((out_child 1192 parent).0 ≡ some 1192)
    × Family k' 1000 (1384 ∷ [])
    × (k'.p_parent 1192 ≡ null)
    × Ring k'.links (p_sib 1192) []
out_child_lem_example = out_child_lem parent 1000 1192 [] (1384 ∷ []) two_children (omega arith)

out_child-remove_child_example : out_child 1192 parent ≡ remove_child 1000 parent
out_child-remove_child_example =
    out_child-remove_child parent 1000 1192 (1384 ∷ []) two_children (omega arith)

out_proc_q-remove_proc_q_example : out_proc_q 100 1000 one_free ≡ some (remove_proc_q 100 one_free)
out_proc_q-remove_proc_q_example =
    out_proc_q-remove_proc_q one_free 100 1000 [] one_free-Ring (omega arith)
