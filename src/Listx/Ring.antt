-- ===== src/Listx/Ring.antt =====
-- What a circular list of headers/listx.h stands for: the head's address and those of the nodes
-- behind it, in order, each linked to the next both ways.
use multi_pand_os.Base.{
  ℕ, ◌≡◌, ◌∙◌, true, false, List, [], ◌∷◌, ◌++◌, arith, ◌==◌, has, last, Distinct, Apart, has-last,
  last-append, Distinct-swap, Apart-has,
}
use multi_pand_os.Listx.{Links}

-- `b` follows `a`, and `a` precedes `b`.
abbrev pub Linked : Links → ℕ → ℕ → Type 0
Linked l a b = (l.next a ≡ b) × (l.prev b ≡ a)

-- From `a` through `xs`, linked both ways.
abbrev pub Chain : Links → ℕ → List ℕ → Type 0
Chain l a [] = Unit
Chain l a (x ∷ xs) = Linked l a x × Chain l x xs

pub record Ring (l : Links) (h : ℕ) (xs : List ℕ) : Type 0 where
  pub chain : Chain l h xs
  pub closed : Linked l (last h xs) h
  pub distinct : Distinct (h ∷ xs)

-- `m` differs from `l` at most at the nodes of `xs`.
abbrev pub SameOutside : List ℕ → Links → Links → Type 0
SameOutside xs l m = (a : ℕ) → has a xs ≡ false → (m.next a ≡ l.next a) × (m.prev a ≡ l.prev a)

-- A chain survives writes that spare its links: the last node's `next` and the first one's `prev`
-- are none of them.
pub Chain-frame :
    (l m : Links) (a : ℕ) (xs : List ℕ)
    → Distinct (a ∷ xs)
    → ((c : ℕ) → has c (a ∷ xs) ≡ true → (c == last a xs) ≡ false → m.next c ≡ l.next c)
    → ((c : ℕ) → has c xs ≡ true → m.prev c ≡ l.prev c)
    → Chain l a xs
    → Chain m a xs
Chain-frame l m a [] d fn fp s = tt
Chain-frame l m a (x ∷ xs) (out, d) fn fp (link, s) = (
  (ground (arith, fn a, has-last x xs), ground (arith, fp x)),
  Chain-frame l m x xs d (λ c i e. fn c (ground arith) e) (λ c i. fp c (ground arith)) s,
)

pub Chain-append :
    (l : Links) (a b : ℕ) (xs ys : List ℕ)
    → Chain l a xs
    → Linked l (last a xs) b
    → Chain l b ys
    → Chain l a (xs ++ b ∷ ys)
Chain-append l a b [] ys s e t = (e, t)
Chain-append l a b (x ∷ xs) ys (e', s) e t = (e', Chain-append l x b xs ys s e t)

pub Chain-split :
    (l : Links) (a b : ℕ) (xs ys : List ℕ)
    → Chain l a (xs ++ b ∷ ys)
    → Chain l a xs × Linked l (last a xs) b × Chain l b ys
Chain-split l a b [] ys (e, t) = (tt, e, t)
Chain-split l a b (x ∷ xs) ys (e, t) =
    let (s, e', t') = Chain-split l x b xs ys t in ((e, s), e', t')

-- Any node of a ring serves as its head.
pub Ring-rotate :
    {l : Links} (h b : ℕ) (xs ys : List ℕ) → Ring l h (xs ++ b ∷ ys) → Ring l b (ys ++ h ∷ xs)
Ring-rotate {l} h b xs ys r =
    let (s, e, t) = Chain-split l h b xs ys r.chain in
    record {
      chain = Chain-append l b h ys xs t (rw (last-append h b xs ys) at r.closed) s;
      closed = rw (last-append b h ys xs) e;
      distinct = Distinct-swap (h ∷ xs) (b ∷ ys) r.distinct;
    }

-- A ring is untouched by writes that spare its nodes.
pub Ring-spared :
    {l m : Links} (h : ℕ) (xs : List ℕ)
    → Ring l h xs
    → ((c : ℕ) → has c (h ∷ xs) ≡ true → (m.next c ≡ l.next c) × (m.prev c ≡ l.prev c))
    → Ring m h xs
Ring-spared {l} {m} h xs r spared = record {
  chain =
      Chain-frame l m h xs r.distinct (λ c i e. (spared c i).0) (λ c i. (spared c (ground arith)).1)
        r.chain;
  closed = (
    (spared (last h xs) (has-last h xs)).0 ∙ r.closed.0,
    (spared h (ground arith)).1 ∙ r.closed.1,
  );
  distinct = r.distinct;
}

-- A ring is untouched by writes at other nodes.
pub Ring-frame :
    {l m : Links} (h : ℕ) (xs ws : List ℕ)
    → Ring l h xs
    → SameOutside ws l m
    → Apart ws (h ∷ xs)
    → Ring m h xs
Ring-frame {l} {m} h xs ws r same off =
    Ring-spared h xs r (λ c i. same c (Apart-has c ws (h ∷ xs) off i))
