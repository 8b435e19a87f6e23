-- ===== src/Exceptions/Ending.antt =====
-- `terminateProcess` of phase2/exceptions.c: a process ends with all that descend from it.
use mathlib.Core.Path.{subst}
use multi_pand_os.Base.{
  ℕ, ◌+◌, ◌<◌, ◌≡◌, ◌⊎◌, inl, inr, ◌∙◌, refl, sym, ap, false, true, Option, List, [], ◌∷◌, ◌++◌,
  arith, has, has-append, length, length-append, erase, ◌==◌, append_assoc, Bool-cases,
}
use multi_pand_os.Base.Word.{sub32}
use multi_pand_os.Listx.Ring.{Ring}
use multi_pand_os.Listx.Edit.{list_del-spares}
use multi_pand_os.Kernel.{Kernel, Layout, null, max_proc, max_rounds, p_child, p_sib}
use multi_pand_os.Machine.{ok}
use multi_pand_os.Pcb.{out_child}
use multi_pand_os.Pcb.Tree.{out_child_orphan}
use multi_pand_os.Exceptions.Termination.{terminate_process}
use multi_pand_os.Exceptions.Destroy.{Queues, destroy_process-Queues}
use multi_pand_os.Exceptions.Forest.{Forest, childless, family, members, SameFor}
use multi_pand_os.Exceptions.Progeny.{terminate_progeny-Cleared}
use multi_pand_os.Exceptions.Progeny.State.{
  Doomed, counted_down, counted_down_add, erase_all, erase_all-append, Doomed-same,
}

-- `q` is one of the children of `parent`, between the nodes `before` and `after`.
pub record ChildOf (parent_of : ℕ → ℕ) (k : Kernel) (q parent : ℕ) (before after : List ℕ)
    : Type 0 where
  pub ring : Ring k.links (p_child parent) (before ++ p_sib q ∷ after)
  pub marked :
      (a : ℕ) → has a (p_child parent ∷ before ++ p_sib q ∷ after) ≡ true → parent_of a ≡ parent
  pub known : (k.p_parent q == null) ≡ false

out_child-same :
    (parent_of : ℕ → ℕ) (k : Kernel) (q parent : ℕ) (before after ps : List ℕ)
    → ChildOf parent_of k q parent before after
    → has parent ps ≡ false
    → SameFor parent_of ps k.links (out_child q k).1.links
unfolding out_child
out_child-same parent_of k q parent before after ps c out a i = rw c.known (
    list_del-spares (p_child parent) (p_sib q) before after c.ring a
      (elim (Bool-cases (has a (p_child parent ∷ before ++ p_sib q ∷ after))) [
        | inl j ↦ absurd (ground (arith, c.marked a j, i, out))
        | inr o ↦ o
      ]))

out_child_count : (k : Kernel) (q : ℕ) → (out_child q k).1.process_count ≡ k.process_count
unfolding out_child
out_child_count k q = elim (Bool-cases (k.p_parent q == null)) [
  | inl e ↦ rw e refl
  | inr e ↦ rw e refl
]

-- The process with the processes below it, in the order in which they end.
abbrev pub all_of : ℕ → Forest → List ℕ
all_of q f = members (family q f childless)

-- A process that is not free and all that descend from it end, within the rounds that
-- `terminateProgeny` is given: they are gone from the ready queue, they wait behind the free PCBs,
-- each after its own descendants, and `process_count` has gone down once for each. This holds for
-- trees of any shape, whichever of the processes are ready, for a process with no parent and for one
-- that stands anywhere in its parent's list of children, if the list nodes are apart (`parent_of`
-- tells in whose list of children a node stands) and these PCBs and the free ones are at most
-- MAXPROC.
pub terminate_process-Queues :
    (y : Layout) (parent_of : ℕ → ℕ) (k : Kernel) (rs fs : List ℕ) (q : ℕ) (f : Forest)
    → Doomed y parent_of k rs fs q f
    → has q (y.ready_queue ∷ y.pcb_free_h ∷ fs) ≡ false
    → length fs + length (members f) < max_proc
    → (k.p_parent q ≡ null)
      ⊎ ((parent : ℕ) × (before : List ℕ) × (after : List ℕ) × ChildOf parent_of k q parent before
            after
          × (has parent (null ∷ q ∷ members f) ≡ false))
    → (k' : Kernel) × (terminate_process y q k ≡ ok tt k')
      × Queues y k' (erase_all (all_of q f) rs) (fs ++ all_of q f)
      × (k'.process_count ≡ counted_down (length (all_of q f)) k.process_count)
unfolding terminate_process
terminate_process-Queues y parent_of k rs fs q f d out few place =
    let k1 = (out_child q k).1 in
    let d1 : Doomed y parent_of k1 rs fs q f = elim place [
      | inl orphan ↦
          subst (λ (m : Kernel). Doomed y parent_of m rs fs q f)
            (sym (ap (λ (r : Option ℕ × Kernel). r.1) (out_child_orphan k q orphan))) d
      | inr (parent, before, after, c, off) ↦
          Doomed-same y parent_of k k1 rs fs q f d
            (out_child-same parent_of k q parent before after (null ∷ q ∷ members f) c off)
    ] in
    let (k2, runs, cleared) =
      terminate_progeny-Cleared y parent_of k1 rs fs q f max_rounds d1 (omega (arith, few)) in
    let (k', ends, queues, count, kept) =
      destroy_process-Queues y k2 q (erase_all (members f) rs) (fs ++ members f) cleared.queues
        (ground (arith, out)) (ground (arith, out, has-append q fs (members f), d.distinct.1.0))
        (omega (arith, few, length-append fs (members f))) in
    (
      k',
      rw (runs, ends) refl,
      subst (λ xs. Queues y k' xs (fs ++ all_of q f))
          (sym (erase_all-append (members f) (q ∷ []) rs))
          (subst (Queues y k' (erase q (erase_all (members f) rs)))
            (append_assoc fs (members f) (q ∷ [])) queues),
      (count
            ∙ ap (λ (w : ℕ). sub32 w 1)
                (cleared.count ∙ ap (counted_down (length (members f))) (out_child_count k q)))
          ∙ sym (
              ap (λ (n : ℕ). counted_down n k.process_count) (length-append (members f) (q ∷ []))
              ∙ counted_down_add (length (members f)) 1 k.process_count),
    )
