-- ===== src/Exceptions/Forest.antt =====
-- The processes that descend from one, for `terminateProgeny` of phase2/exceptions.c.
use multi_pand_os.Base.{ℕ, ◌≡◌, true, List, [], ◌∷◌, ◌++◌, arith, map, has, has-append, ==_refl}
use multi_pand_os.Listx.{Links}
use multi_pand_os.Listx.Ring.{Ring, Ring-spared}
use multi_pand_os.Kernel.{p_child, p_sib}

-- The children of a process, oldest first: the first of them with its own children, and the younger
-- ones.
pub data Forest : Type 0 where
  childless : Forest
  family : (child : ℕ) → (children younger : Forest) → Forest

abbrev pub roots : Forest → List ℕ
roots childless = []
roots (family c cs ss) = c ∷ roots ss

-- All descendants, each after its own.
abbrev pub members : Forest → List ℕ
members childless = []
members (family c cs ss) = members cs ++ c ∷ members ss

-- The list of children at `p_child` of `q`.
abbrev pub Children : Links → ℕ → Forest → Type 0
Children l q f = Ring l (p_child q) (map p_sib (roots f))

-- Each process of the forest has the children that the forest says.
abbrev pub Below : Links → Forest → Type 0
Below l childless = Unit
Below l (family c cs ss) = Children l c cs × Below l cs × Below l ss

-- `parent_of` tells for each node of these lists in whose list of children it stands.
abbrev pub Marked : (parent_of : ℕ → ℕ) → ℕ → Forest → Type 0
Marked parent_of q childless = parent_of (p_child q) ≡ q
Marked parent_of q (family c cs ss) =
    (parent_of (p_sib c) ≡ q) × Marked parent_of c cs × Marked parent_of q ss

pub Marked-head :
    (parent_of : ℕ → ℕ) (q : ℕ) (f : Forest) → Marked parent_of q f → parent_of (p_child q) ≡ q
Marked-head parent_of q childless m = m
Marked-head parent_of q (family c cs ss) (e, below, rest) = Marked-head parent_of q ss rest

pub Marked-has :
    (parent_of : ℕ → ℕ) (q : ℕ) (f : Forest) (a : ℕ)
    → Marked parent_of q f
    → has a (p_child q ∷ map p_sib (roots f)) ≡ true
    → parent_of a ≡ q
Marked-has parent_of q childless a m i = ground (arith, m)
Marked-has parent_of q (family c cs ss) a (e, below, rest) i =
    ground (arith, e, Marked-has parent_of q ss a rest)

-- The links of the nodes in lists of children of `ps` are the same.
abbrev pub SameFor : (parent_of : ℕ → ℕ) → List ℕ → Links → Links → Type 0
SameFor parent_of ps l m =
    (a : ℕ) → has (parent_of a) ps ≡ true → (m.next a ≡ l.next a) × (m.prev a ≡ l.prev a)

pub Children-same :
    (parent_of : ℕ → ℕ) {l m : Links} (q : ℕ) (f : Forest) (ps : List ℕ)
    → Marked parent_of q f
    → SameFor parent_of ps l m
    → has q ps ≡ true
    → Children l q f
    → Children m q f
Children-same parent_of q f ps marks same i r =
    Ring-spared (p_child q) (map p_sib (roots f)) r
      (λ a h. same a (ground (arith, Marked-has parent_of q f a marks h)))

pub Below-same :
    (parent_of : ℕ → ℕ) {l m : Links} (q : ℕ) (f : Forest) (ps : List ℕ)
    → Marked parent_of q f
    → SameFor parent_of ps l m
    → ((p : ℕ) → has p (members f) ≡ true → has p ps ≡ true)
    → Below l f
    → Below m f
Below-same parent_of q childless ps marks same inside b = tt
Below-same parent_of q (family c cs ss) ps (e, below, rest) same inside (r, b, b') = (
  Children-same parent_of c cs ps below same
      (inside c (ground (arith, has-append c (members cs) (c ∷ members ss), ==_refl c))) r,
  Below-same parent_of c cs ps below same
      (λ p i. inside p (ground (arith, has-append p (members cs) (c ∷ members ss)))) b,
  Below-same parent_of q ss ps rest same
      (λ p i. inside p (ground (arith, has-append p (members cs) (c ∷ members ss)))) b',
)
