-- ===== src/Pcb/First.antt =====
-- phase1/pcb.c: the two ways to take the first PCB of a queue, and the first child of a PCB.
use multi_pand_os.Base.{refl, ℕ, ◌≤◌, ◌≡◌, ◌≢◌, ◌∙◌, some, List, ◌∷◌, length, map, ==_refl, ne→==}
use multi_pand_os.Kernel.{Kernel, null, max_proc, p_sib}
use multi_pand_os.Pcb.{out_proc_q, remove_proc_q, out_child, remove_child}
use multi_pand_os.Pcb.Queue.{IsQueue, out_proc_q_found, remove_proc_q_cons}
use multi_pand_os.Pcb.Tree.{Family, remove_child_first}

-- `outProcQ` of the PCB that is first in a queue, found by the search for it, returns what
-- `removeProcQ` returns and leaves the same memory.
pub out_proc_q-remove_proc_q :
    (k : Kernel) (h x : ℕ) (xs : List ℕ)
    → IsQueue k h (x ∷ xs)
    → length (x ∷ xs) ≤ max_proc
    → out_proc_q h x k ≡ some (remove_proc_q h k)
out_proc_q-remove_proc_q k h x xs r few =
    out_proc_q_found k h x (x ∷ xs) r few ∙ rw (==_refl x, remove_proc_q_cons k h x xs r) refl

-- `outChild` of the oldest child returns what `removeChild` of the parent returns, and leaves the
-- same memory, the parent field of the child included.
pub out_child-remove_child :
    (k : Kernel) (q c : ℕ) (cs : List ℕ)
    → Family k q (c ∷ cs)
    → q ≢ null
    → out_child c k ≡ remove_child q k
unfolding out_child
out_child-remove_child k q c cs f ne =
    rw (remove_child_first k q c (map p_sib cs) f.ring, f.parents.0, ne→== q null ne) refl
