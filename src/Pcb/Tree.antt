-- ===== src/Pcb/Tree.antt =====
-- The process tree of phase1/pcb.c: the children of a PCB, oldest first, and their parent.
use mathlib.Core.Path.{subst}
use mathlib.Core.List.{map-append}
use multi_pand_os.Base.{
  ℕ, ◌≡◌, ◌≢◌, refl, sym, true, false, none, some, List, [], ◌∷◌, ◌++◌, arith, map, ◌==◌, has,
  ne→==, ==_refl, ◌∙◌, Distinct-out,
}
use multi_pand_os.Listx.{list_del, list_add_tail, update}
use multi_pand_os.Listx.Ring.{Ring}
use multi_pand_os.Listx.Edit.{list_add_tail-Ring, list_del-Ring, list_empty-nil, list_empty-cons}
use multi_pand_os.Kernel.{Kernel, null, p_child, p_sib, pcb_of_p_sib, with_links}
use multi_pand_os.Pcb.{empty_child, insert_child, remove_child, out_child}

-- Each of `cs` names `q` as its parent.
abbrev pub Parented : (ℕ → ℕ) → ℕ → List ℕ → Type 0
Parented parent q [] = Unit
Parented parent q (c ∷ cs) = (parent c ≡ q) × Parented parent q cs

-- `cs` are the children of `q`: the list at `q->p_child` links them, and they point back.
pub record Family (k : Kernel) (q : ℕ) (cs : List ℕ) : Type 0 where
  pub ring : Ring k.links (p_child q) (map p_sib cs)
  pub parents : Parented k.p_parent q cs

has-map-p_sib : (c : ℕ) (cs : List ℕ) → has (p_sib c) (map p_sib cs) ≡ has c cs
has-map-p_sib c [] = refl
has-map-p_sib c (x ∷ xs) = ground (arith, has-map-p_sib c xs)

Parented-update :
    (parent : ℕ → ℕ) (q p v : ℕ) (cs : List ℕ)
    → has p cs ≡ false
    → Parented parent q cs
    → Parented (update parent p v) q cs
Parented-update parent q p v [] out ps = tt
Parented-update parent q p v (c ∷ cs) out (e, ps) =
    (ground arith, Parented-update parent q p v cs (ground arith) ps)

pub Parented-same :
    (parent mother : ℕ → ℕ) (q : ℕ) (cs : List ℕ)
    → ((c : ℕ) → has c cs ≡ true → mother c ≡ parent c)
    → Parented parent q cs
    → Parented mother q cs
Parented-same parent mother q [] same ps = tt
Parented-same parent mother q (c ∷ cs) same (e, ps) = (
  same c (ground (arith, ==_refl c)) ∙ e,
  Parented-same parent mother q cs (λ d i. same d (ground arith)) ps,
)

Parented-snoc :
    (parent : ℕ → ℕ) (q p : ℕ) (cs : List ℕ)
    → Parented parent q cs
    → Parented (update parent p q) q (cs ++ p ∷ [])
Parented-snoc parent q p [] ps = (ground arith, tt)
Parented-snoc parent q p (c ∷ cs) (e, ps) = (ground arith, Parented-snoc parent q p cs ps)

Parented-drop :
    (parent : ℕ → ℕ) (q p : ℕ) (older younger : List ℕ)
    → Parented parent q (older ++ p ∷ younger)
    → Parented parent q (older ++ younger) × (parent p ≡ q)
Parented-drop parent q p [] younger (e, ps) = (ps, e)
Parented-drop parent q p (a ∷ older) younger (e, ps) =
    let (rest, own) = Parented-drop parent q p older younger ps in ((e, rest), own)

-- `emptyChild` tells whether there is a child.
pub empty_child_lem :
    (k : Kernel) (q : ℕ)
    → (Family k q [] → empty_child q k ≡ true)
      × ((c : ℕ) (cs : List ℕ) → Family k q (c ∷ cs) → empty_child q k ≡ false)
unfolding empty_child
empty_child_lem k q = (
  λ f. list_empty-nil (p_child q) f.ring,
  λ c cs f. list_empty-cons (p_child q) (p_sib c) (map p_sib cs) f.ring,
)

-- A PCB that is on no sibling list of `q` becomes the youngest child of `q`.
pub insert_child_lem :
    (k : Kernel) (q p : ℕ) (cs : List ℕ)
    → Family k q cs
    → has (p_sib p) (p_child q ∷ map p_sib cs) ≡ false
    → Family (insert_child q p k) q (cs ++ p ∷ [])
unfolding insert_child
insert_child_lem k q p cs f out = record {
  ring =
      subst (Ring (list_add_tail (p_sib p) (p_child q) k.links) (p_child q))
        (sym (map-append p_sib cs (p ∷ [])))
        (list_add_tail-Ring (p_sib p) (p_child q) (map p_sib cs) f.ring out);
  parents = Parented-snoc k.p_parent q p cs f.parents;
}

-- Taking the child `p` out of the family, wherever it stands in it.
abbrev pub unlink : ℕ → Kernel → Kernel
unlink p k = with_links (list_del (p_sib p)) (record k { p_parent = update k.p_parent p null })

unlink-Family :
    (k : Kernel) (q p : ℕ) (older younger : List ℕ)
    → Family k q (older ++ p ∷ younger)
    → Family (unlink p k) q (older ++ younger) × Ring (unlink p k).links (p_sib p) []
unlink-Family k q p older younger f =
    let ring : Ring k.links (p_child q) (map p_sib older ++ p_sib p ∷ map p_sib younger) =
      subst (Ring k.links (p_child q)) (map-append p_sib older (p ∷ younger)) f.ring in
    let out : has p (older ++ younger) ≡ false =
      sym (has-map-p_sib p (older ++ younger))
      ∙ rw (map-append p_sib older younger)
          (Distinct-out (p_sib p) (map p_sib older) (map p_sib younger) ring.distinct.1) in
    let (rest, alone) =
      list_del-Ring (p_child q) (p_sib p) (map p_sib older) (map p_sib younger) ring in
    (
      record {
        ring =
            subst (Ring (list_del (p_sib p) k.links) (p_child q))
              (sym (map-append p_sib older younger)) rest;
        parents =
            Parented-update k.p_parent q p null (older ++ younger) out
              (Parented-drop k.p_parent q p older younger f.parents).0;
      },
      alone,
    )

-- `removeChild` on a PCB with no child.
pub remove_child_nil : (k : Kernel) (q : ℕ) → Family k q [] → remove_child q k ≡ (none, k)
unfolding remove_child
remove_child_nil k q f = rw (list_empty-nil (p_child q) f.ring)

-- The first on the list is taken, whatever its parent field says.
pub remove_child_first :
    (k : Kernel) (q c : ℕ) (nodes : List ℕ)
    → Ring k.links (p_child q) (p_sib c ∷ nodes)
    → remove_child q k ≡ (some c, unlink c k)
unfolding remove_child
remove_child_first k q c nodes r =
    let first : pcb_of_p_sib (k.links.next (p_child q)) ≡ c = rw r.chain.0.0 (omega arith) in
    rw (list_empty-cons (p_child q) (p_sib c) nodes r, first) refl

pub remove_child_cons :
    (k : Kernel) (q c : ℕ) (cs : List ℕ)
    → Family k q (c ∷ cs)
    → (remove_child q k ≡ (some c, unlink c k))
      × Family (unlink c k) q cs
      × Ring (unlink c k).links (p_sib c) []
remove_child_cons k q c cs f =
    let (family, alone) = unlink-Family k q c [] cs f in
    (remove_child_first k q c (map p_sib cs) f.ring, family, alone)

-- `outChild` on a PCB that has no parent.
pub out_child_orphan : (k : Kernel) (p : ℕ) → k.p_parent p ≡ null → out_child p k ≡ (none, k)
unfolding out_child
out_child_orphan k p e = rw e

-- A child is taken out wherever it stands, its siblings keep their order, and it is left with no
-- parent and alone in its sibling list.
pub out_child_lem :
    (k : Kernel) (q p : ℕ) (older younger : List ℕ)
    → Family k q (older ++ p ∷ younger)
    → q ≢ null
    → let k' = (out_child p k).1 in
      ((out_child p k).0 ≡ some p)
      × Family k' q (older ++ younger)
      × (k'.p_parent p ≡ null)
      × Ring k'.links (p_sib p) []
unfolding out_child
out_child_lem k q p older younger f ne =
    let (family, alone) = unlink-Family k q p older younger f in
    let own : (k.p_parent p == null) ≡ false =
      ne→== (k.p_parent p) null
        (λ e. ne (sym (Parented-drop k.p_parent q p older younger f.parents).1 ∙ e)) in
    rw own (refl, family, ground arith, alone)
