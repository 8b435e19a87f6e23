-- ===== src/Pcb/Queue.antt =====
-- The process queues of phase1/pcb.c against lists: first in, first out, with removal from the
-- middle.
use multi_pand_os.Base.{
  ℕ, ◌≤◌, ◌≡◌, sym, true, false, none, some, List, [], ◌∷◌, ◌++◌, arith, ◌==◌, if◌then◌else◌, has,
  length, erase, erase-split,
}
use mathlib.Core.Path.{subst}
use multi_pand_os.Listx.{list_del}
use multi_pand_os.Listx.Ring.{Ring, SameOutside}
use multi_pand_os.Listx.Edit.{
  list_add_tail-Ring, list_add_tail-SameOutside, list_del-Ring, list_del-spares, list_empty-nil,
  list_empty-cons,
}
use multi_pand_os.Listx.Search.{list_for_each-find, find-has}
use multi_pand_os.Kernel.{Kernel, max_proc, max_rounds, with_links}
use multi_pand_os.Pcb.{insert_proc_q, head_proc_q, remove_proc_q, out_proc_q}

-- The queue at `h` holds the PCBs `xs`, first to last.
abbrev pub IsQueue : Kernel → ℕ → List ℕ → Type 0
IsQueue k h xs = Ring k.links h xs

pub insert_proc_q_lem :
    (k : Kernel) (h p : ℕ) (xs : List ℕ)
    → IsQueue k h xs
    → has p (h ∷ xs) ≡ false
    → IsQueue (insert_proc_q h p k) h (xs ++ p ∷ [])
      × SameOutside (p ∷ h ∷ xs) k.links (insert_proc_q h p k).links
unfolding insert_proc_q
insert_proc_q_lem k h p xs r out =
    (list_add_tail-Ring p h xs r out, list_add_tail-SameOutside p h xs r out)

pub head_proc_q_nil : (k : Kernel) (h : ℕ) → IsQueue k h [] → head_proc_q h k ≡ none
unfolding head_proc_q
head_proc_q_nil k h r = rw (list_empty-nil h r)

pub head_proc_q_cons :
    (k : Kernel) (h x : ℕ) (xs : List ℕ) → IsQueue k h (x ∷ xs) → head_proc_q h k ≡ some x
unfolding head_proc_q
head_proc_q_cons k h x xs r = rw (list_empty-cons h x xs r, r.chain.0.0)

pub remove_proc_q_nil : (k : Kernel) (h : ℕ) → IsQueue k h [] → remove_proc_q h k ≡ (none, k)
unfolding remove_proc_q
remove_proc_q_nil k h r = rw (list_empty-nil h r)

-- The first PCB is unlinked.
pub remove_proc_q_cons :
    (k : Kernel) (h x : ℕ) (xs : List ℕ)
    → IsQueue k h (x ∷ xs)
    → remove_proc_q h k ≡ (some x, with_links (list_del x) k)
unfolding remove_proc_q
remove_proc_q_cons k h x xs r = rw (list_empty-cons h x xs r, r.chain.0.0)

pub out_proc_q_found :
    (k : Kernel) (h p : ℕ) (xs : List ℕ)
    → IsQueue k h xs
    → length xs ≤ max_proc
    → out_proc_q h p k
      ≡ (if has p xs then some (some p, with_links (list_del p) k) else some (none, k))
unfolding out_proc_q
out_proc_q_found k h p xs r few =
    rw (list_for_each-find max_rounds h (λ pos. pos == p) xs r (omega arith), find-has p xs)
      (ground arith)

-- Whatever its place, the PCB is gone from the queue and no other.
pub list_del-erase :
    (k : Kernel) (h p : ℕ) (xs : List ℕ)
    → IsQueue k h xs
    → has p xs ≡ true
    → IsQueue (with_links (list_del p) k) h (erase p xs)
      × IsQueue (with_links (list_del p) k) p []
      × SameOutside (h ∷ xs) k.links (list_del p k.links)
list_del-erase k h p xs r i =
    let (before, after, e, f) = erase-split p xs i in
    let r' : Ring k.links h (before ++ p ∷ after) = subst (Ring k.links h) e r in
    let (rest, alone) = list_del-Ring h p before after r' in
    (
      rw f rest,
      alone,
      subst (λ zs. SameOutside (h ∷ zs) k.links (list_del p k.links)) (sym e)
          (list_del-spares h p before after r'),
    )
