-- ===== src/Exceptions/Progeny/Step.antt =====
-- One round of the loop of `terminateProgeny` of phase2/exceptions.c.
use mathlib.Core.Path.{subst}
use multi_pand_os.Base.{
  ℕ, ◌≡◌, sym, ap, true, false, List, [], ◌∷◌, ◌++◌, arith, map, has, has-append, length-append,
  Distinct, Distinct-split, Apart-has, append_assoc, ◌==◌, ==_refl, Bool-cases, inl, inr,
}
use multi_pand_os.Listx.Edit.{list_del-spares}
use multi_pand_os.Kernel.{Kernel, Layout, null, p_child, p_sib}
use multi_pand_os.Pcb.Tree.{unlink}
use multi_pand_os.Exceptions.Forest.{Forest, family, roots, members, Marked-has}
use multi_pand_os.Exceptions.Progeny.State.{Doomed, SameOff, Doomed-same}

-- `removeChild` in the loop.
pub unlink-spares :
    (y : Layout) (parent_of : ℕ → ℕ) (k : Kernel) (rs fs : List ℕ) (q c : ℕ) (cs ss : Forest)
    → Doomed y parent_of k rs fs q (family c cs ss)
    → SameOff parent_of (q ∷ []) k.links (unlink c k).links
unlink-spares y parent_of k rs fs q c cs ss d a away =
    list_del-spares (p_child q) (p_sib c) [] (map p_sib (roots ss)) d.children a
      (elim (Bool-cases (has a (p_child q ∷ p_sib c ∷ map p_sib (roots ss)))) [
        | inl i ↦ absurd (ground (arith, Marked-has parent_of q (family c cs ss) a d.marked i))
        | inr o ↦ o
      ])

-- The addresses of the processes of a family are apart.
pub record Parted (q c : ℕ) (cs ss : Forest) : Type 0 where
  pub c_null : (null == c) ≡ false
  pub c_q : (c == q) ≡ false
  pub eldest : Distinct (null ∷ c ∷ members cs)
  pub others : Distinct (null ∷ q ∷ members ss)
  pub q_out : has q (null ∷ c ∷ members cs) ≡ false
  pub apart : (p : ℕ) → has p (members ss) ≡ true → has p (null ∷ q ∷ c ∷ members cs) ≡ false

pub part :
    (q c : ℕ) (cs ss : Forest) → Distinct (null ∷ q ∷ members (family c cs ss)) → Parted q c cs ss
part q c cs ss d =
    let (d1, d2, ap) = Distinct-split (null ∷ q ∷ members cs) (c ∷ members ss) d in
    let out : has c (members cs) ≡ false =
      Apart-has c (members cs) (c ∷ members ss) ap.1.1 (ground (arith, ==_refl c)) in
    record {
      c_null = ground (arith, ap.0);
      c_q = ground (arith, ap.1.0);
      eldest = (ground (arith, ap.0, d1.0), (out, d1.1.1));
      others = (ground (arith, ap.0, d1.0), (ground (arith, ap.1.0), d2.1));
      q_out = ground (arith, ap.1.0, d1.0, d1.1.0);
      apart = λ p i.
          let off = Apart-has p (null ∷ q ∷ members cs) (c ∷ members ss) ap (ground arith) in
          ground (arith, off, d2.0);
    }

has-other : (x q : ℕ) (ps : List ℕ) → has x ps ≡ true → has q ps ≡ false → has x (q ∷ []) ≡ false
has-other x q ps i o = elim (Bool-cases (x == q)) [
  | inl e ↦ absurd (ground (arith, i, o, e))
  | inr e ↦ ground (arith, e)
]

pub has-same : (x q : ℕ) (ps : List ℕ) → has x (q ∷ []) ≡ true → has q ps ≡ false → has x ps ≡ false
has-same x q ps i o = elim (Bool-cases (has x ps)) [
  | inl j ↦ absurd (ground (arith, i, has-other x q ps j o))
  | inr e ↦ e
]

eldest :
    (y : Layout) (parent_of : ℕ → ℕ) (k : Kernel) (rs fs : List ℕ) (q c : ℕ) (cs ss : Forest)
    → Doomed y parent_of k rs fs q (family c cs ss)
    → Doomed y parent_of k rs fs c cs
eldest y parent_of k rs fs q c cs ss d = record {
  queues = d.queues;
  children = d.below.0;
  below = d.below.1;
  marked = d.marked.1;
  ready_unmarked = d.ready_unmarked;
  free_unmarked = λ a i. d.free_unmarked a (
      ground (
        arith,
        has-append a fs (members cs ++ c ∷ members ss),
        has-append a fs (members cs),
        has-append a (members cs) (c ∷ members ss),
      ));
  distinct = (part q c cs ss d.distinct).eldest;
  occupied =
      (Distinct-split (y.ready_queue ∷ y.pcb_free_h ∷ fs ++ members cs) (c ∷ members ss) (
        subst (λ xs. Distinct (y.ready_queue ∷ y.pcb_free_h ∷ xs))
          (sym (append_assoc fs (members cs) (c ∷ members ss))) d.occupied)).0;
  few = omega (arith, d.few, length-append (members cs) (c ∷ members ss));
}

-- The state in which the loop goes on with the children of the eldest.
pub eldest-Doomed :
    (y : Layout) (parent_of : ℕ → ℕ) (k : Kernel) (rs fs : List ℕ) (q c : ℕ) (cs ss : Forest)
    → Doomed y parent_of k rs fs q (family c cs ss)
    → Doomed y parent_of (unlink c k) rs fs c cs
eldest-Doomed y parent_of k rs fs q c cs ss d =
    let t = part q c cs ss d.distinct in
    Doomed-same y parent_of k (unlink c k) rs fs c cs (eldest y parent_of k rs fs q c cs ss d)
      (λ a i.
        unlink-spares y parent_of k rs fs q c cs ss d a
          (has-other (parent_of a) q (null ∷ c ∷ members cs) i t.q_out))
