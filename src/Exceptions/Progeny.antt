-- ===== src/Exceptions/Progeny.antt =====
-- The loop of `terminateProgeny` of phase2/exceptions.c, on the processes below one.
pub mod State
mod Step
mod Younger
use mathlib.Core.Path.{subst}
use multi_pand_os.Base.{
  ℕ, zero, suc, ◌+◌, ◌≤◌, ◌<◌, ◌≡◌, ◌≢◌, ◌∙◌, refl, sym, ap, true, false, ◌||◌, some, none, Option,
  List, [], ◌∷◌, ◌++◌, arith, map, has, has-append, length, length-append, erase, has-erase,
  Distinct, Distinct-split, Apart-has, append_assoc, append-nil, ◌==◌, ==_refl, Bool-cases, inl,
  inr,
}
use multi_pand_os.Base.Word.{sub32}
use multi_pand_os.Listx.{Links, list_del}
use multi_pand_os.Listx.Ring.{Ring, Ring-spared}
use multi_pand_os.Listx.Edit.{list_del-Ring, list_del-spares, list_empty-nil, list_empty-cons}
use multi_pand_os.Kernel.{Kernel, Layout, null, max_proc, p_child, p_sib}
use multi_pand_os.Machine.{ok, ◌>>◌}
use multi_pand_os.Pcb.{empty_child, remove_child}
use multi_pand_os.Pcb.Tree.{unlink, remove_child_first}
use multi_pand_os.Exceptions.Termination.{terminate_progeny, destroy_process}
use multi_pand_os.Exceptions.Destroy.{Queues, KeptApart, destroy_process-Queues}
use multi_pand_os.Exceptions.Forest.{
  Forest, childless, family, roots, members, Children, Below, Marked, Marked-head, Marked-has,
  SameFor, Children-same, Below-same,
}
use multi_pand_os.Exceptions.Progeny.State.{
  Doomed, Cleared, SameOff, counted_down, counted_down_add, erase_all, erase_all-append,
  has-erase_all, unmarked-out, Queues-same, Doomed-same,
}
use multi_pand_os.Exceptions.Progeny.Step.{eldest-Doomed}
use multi_pand_os.Exceptions.Progeny.Younger.{child-destroyable, younger-Doomed, family-Cleared}

terminate_progeny-childless :
    (y : Layout) (rounds q : ℕ) (k : Kernel)
    → empty_child q k ≡ true
    → terminate_progeny y (suc rounds) q k ≡ ok tt k
unfolding terminate_progeny
terminate_progeny-childless y rounds q k e = rw (terminate_progeny, e) refl

terminate_progeny-family :
    (y : Layout) (rounds q c : ℕ) (k k1 : Kernel)
    → empty_child q k ≡ false
    → remove_child q k ≡ (some c, k1)
    → terminate_progeny y (suc rounds) q k
      ≡ (terminate_progeny y rounds c >> destroy_process y c >> terminate_progeny y rounds q) k1
unfolding terminate_progeny
terminate_progeny-family y rounds q c k k1 e r =
    rw (terminate_progeny, e, ap (λ (x : Option ℕ × Kernel). x.0) r)
      (ap
        (λ (x : Option ℕ × Kernel).
          (terminate_progeny y rounds c >> destroy_process y c >> terminate_progeny y rounds q) x.1)
        r)

pub terminate_progeny-Cleared :
    (y : Layout) (parent_of : ℕ → ℕ) (k : Kernel) (rs fs : List ℕ) (q : ℕ) (f : Forest) (rounds : ℕ)
    → Doomed y parent_of k rs fs q f
    → length (members f) < rounds
    → (k' : Kernel) × (terminate_progeny y rounds q k ≡ ok tt k')
      × Cleared y parent_of k k' rs fs q f
unfolding empty_child
terminate_progeny-Cleared y parent_of k rs fs q f zero d enough = absurd (omega arith)
terminate_progeny-Cleared y parent_of k rs fs q childless (suc rounds) d enough = (
  k,
  terminate_progeny-childless y rounds q k (list_empty-nil (p_child q) d.children),
  record {
    queues = rw append-nil d.queues;
    children = d.children;
    count = refl;
    spared = λ a away. (refl, refl);
  },
)
terminate_progeny-Cleared y parent_of k rs fs q (family c cs ss) (suc rounds) d enough =
    let siblings = map p_sib (roots ss) in
    let more = length-append (members cs) (c ∷ members ss) in
    let ready = erase_all (members cs) rs in
    let free = fs ++ members cs in
    let (k2, runs, cleared) =
      terminate_progeny-Cleared y parent_of (unlink c k) rs fs c cs rounds
        (eldest-Doomed y parent_of k rs fs q c cs ss d) (omega (arith, more, enough)) in
    let (nh, out, few) = child-destroyable y parent_of k k2 k2 rs fs q c cs ss d cleared in
    let (k3, ends, queues, count, kept) =
      destroy_process-Queues y k2 c ready free cleared.queues nh out few in
    let (k', goes_on, last) =
      terminate_progeny-Cleared y parent_of k3 (erase c ready) (free ++ c ∷ []) q ss rounds
        (younger-Doomed y parent_of k k2 k3 rs fs q c cs ss d cleared queues kept)
        (omega (arith, more, enough)) in
    (
      k',
      terminate_progeny-family y rounds q c k (unlink c k)
            (list_empty-cons (p_child q) (p_sib c) siblings d.children)
            (remove_child_first k q c siblings d.children)
          ∙ rw (runs, ends, goes_on) refl,
      family-Cleared y parent_of k k2 k3 rs fs q c cs ss d cleared k' kept count last,
    )
