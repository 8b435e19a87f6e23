-- ===== src/Exceptions/Progeny/Younger.antt =====
-- How the loop of `terminateProgeny` of phase2/exceptions.c goes on with the younger children.
use mathlib.Core.Path.{subst}
use multi_pand_os.Base.{
  ℕ, suc, ◌<◌, ◌≡◌, ◌∙◌, sym, ap, true, false, List, [], ◌∷◌, ◌++◌, arith, map, has, has-append,
  length, length-append, erase, has-erase, Distinct, Distinct-split, Apart-has, append_assoc, ◌==◌,
  ==_refl,
}
use multi_pand_os.Base.Word.{sub32}
use multi_pand_os.Listx.Edit.{list_del-Ring}
use multi_pand_os.Kernel.{Kernel, Layout, null, max_proc, p_child, p_sib}
use multi_pand_os.Pcb.Tree.{unlink}
use multi_pand_os.Exceptions.Destroy.{Queues, KeptApart}
use multi_pand_os.Exceptions.Forest.{Forest, family, roots, members, Children-same, Below-same}
use multi_pand_os.Exceptions.Progeny.State.{
  Doomed, Cleared, SameOff, counted_down, counted_down_add, erase_all, erase_all-append,
  has-erase_all, unmarked-out,
}
use multi_pand_os.Exceptions.Progeny.Step.{unlink-spares, has-same, part}

module _ (y : Layout) (parent_of : ℕ → ℕ) (k k2 k3 : Kernel) (rs fs : List ℕ) (q c : ℕ)
    (cs ss : Forest) (d : Doomed y parent_of k rs fs q (family c cs ss))
    (cleared : Cleared y parent_of (unlink c k) k2 rs fs c cs) where
  -- The ready queue and the free list when the descendants of `c` are gone.
  abbrev ready2 : List ℕ
  ready2 = erase_all (members cs) rs

  abbrev free2 : List ℕ
  free2 = fs ++ members cs

  pub child-destroyable :
      ((c == y.ready_queue) ≡ false)
      × (has c (y.pcb_free_h ∷ free2) ≡ false)
      × (length free2 < max_proc)
  child-destroyable =
      let (before, after, ap) =
        Distinct-split (y.ready_queue ∷ y.pcb_free_h ∷ free2) (c ∷ members ss) (
          subst (λ xs. Distinct (y.ready_queue ∷ y.pcb_free_h ∷ xs))
            (sym (append_assoc fs (members cs) (c ∷ members ss))) d.occupied) in
      let out =
        Apart-has c (y.ready_queue ∷ y.pcb_free_h ∷ free2) (c ∷ members ss) ap
          (ground (arith, ==_refl c)) in
      (
        ground (arith, out),
        ground (arith, out),
        omega (
          arith,
          d.few,
          length-append (members cs) (c ∷ members ss),
          length-append fs (members cs),
        ),
      )

  destroy-spares :
      KeptApart y ready2 (c ∷ free2) k2 k3 → SameOff parent_of (null ∷ []) k2.links k3.links
  destroy-spares kept a away =
      kept a
        (unmarked-out parent_of (y.ready_queue ∷ ready2) a
          (λ b i. d.ready_unmarked b (ground (arith, i, has-erase_all b (members cs) rs))) away)
        (unmarked-out parent_of (y.pcb_free_h ∷ c ∷ free2) a
          (λ b i. d.free_unmarked b (
            ground (
              arith,
              i,
              has-append b fs (members cs ++ c ∷ members ss),
              has-append b fs (members cs),
              has-append b (members cs) (c ∷ members ss),
            )))
          away)

  child-spares :
      KeptApart y ready2 (c ∷ free2) k2 k3
      → SameOff parent_of (null ∷ q ∷ c ∷ members cs) k.links k3.links
  child-spares kept a away =
      let first = unlink-spares y parent_of k rs fs q c cs ss d a (ground (arith, away)) in
      let second = cleared.spared a (ground (arith, away)) in
      let third = destroy-spares kept a (ground (arith, away)) in
      (third.0 ∙ (second.0 ∙ first.0), third.1 ∙ (second.1 ∙ first.1))

  -- The free list with the child, and the younger processes behind it.
  behind : (free2 ++ c ∷ []) ++ members ss ≡ fs ++ members (family c cs ss)
  behind = append_assoc free2 (c ∷ []) (members ss) ∙ append_assoc fs (members cs) (c ∷ members ss)

  -- The state in which the loop goes on with the younger children.
  pub younger-Doomed :
      Queues y k3 (erase c ready2) (free2 ++ c ∷ [])
      → KeptApart y ready2 (c ∷ free2) k2 k3
      → Doomed y parent_of k3 (erase c ready2) (free2 ++ c ∷ []) q ss
  younger-Doomed queues kept =
      let t = part q c cs ss d.distinct in
      let (marked, below, rest) = d.marked in
      record {
        queues = queues;
        children =
            Children-same parent_of q ss (q ∷ []) rest
              (λ a i.
                let away = has-same (parent_of a) q (null ∷ c ∷ members cs) i t.q_out in
                let second = cleared.spared a away in
                let third = destroy-spares kept a (ground (arith, away)) in
                (third.0 ∙ second.0, third.1 ∙ second.1))
              (ground (arith, ==_refl q))
              (list_del-Ring (p_child q) (p_sib c) [] (map p_sib (roots ss)) d.children).0;
        below =
            Below-same parent_of q ss (members ss) rest
              (λ a i. child-spares kept a (t.apart (parent_of a) i)) (λ p i. i) d.below.2;
        marked = rest;
        ready_unmarked = λ a i.
            d.ready_unmarked a
              (ground (arith, i, has-erase a c ready2, has-erase_all a (members cs) rs));
        free_unmarked =
            λ a i. d.free_unmarked a (subst (λ xs. has a (y.pcb_free_h ∷ xs) ≡ true) behind i);
        distinct = t.others;
        occupied =
            subst (λ xs. Distinct (y.ready_queue ∷ y.pcb_free_h ∷ xs)) (sym behind) d.occupied;
        few = omega (
          arith,
          d.few,
          length-append free2 (c ∷ []),
          length-append fs (members cs),
          length-append (members cs) (c ∷ members ss),
        );
      }

  -- The loop ends where it ends on the younger children.
  pub family-Cleared :
      (k' : Kernel)
      → KeptApart y ready2 (c ∷ free2) k2 k3
      → k3.process_count ≡ sub32 k2.process_count 1
      → Cleared y parent_of k3 k' (erase c ready2) (free2 ++ c ∷ []) q ss
      → Cleared y parent_of k k' rs fs q (family c cs ss)
  family-Cleared k' kept count last = record {
    queues =
        subst (λ xs. Queues y k' xs (fs ++ members (family c cs ss)))
          (sym (erase_all-append (members cs) (c ∷ members ss) rs))
          (subst (Queues y k' (erase_all (members ss) (erase c ready2))) behind last.queues);
    children = last.children;
    count =
        last.count
        ∙ (ap (counted_down (length (members ss))) (count ∙ ap (λ (w : ℕ). sub32 w 1) cleared.count)
            ∙ sym (
                ap (λ (n : ℕ). counted_down n k.process_count)
                  (length-append (members cs) (c ∷ members ss))
                ∙ counted_down_add (length (members cs)) (suc (length (members ss)))
                    k.process_count));
    spared = λ a away.
        let first =
          child-spares kept a
            (ground (arith, away, has-append (parent_of a) (members cs) (c ∷ members ss))) in
        let second =
          last.spared a
            (ground (arith, away, has-append (parent_of a) (members cs) (c ∷ members ss))) in
        (second.0 ∙ first.0, second.1 ∙ first.1);
  }
