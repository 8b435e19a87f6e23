-- ===== src/Listx/Search.antt =====
-- The loops of headers/listx.h over a ring.
use multi_pand_os.Base.{
  ℕ, zero, suc, ◌<◌, ◌≡◌, Bool, true, false, Option, none, some, List, [], ◌∷◌, ◌++◌, arith, ◌==◌,
  if◌then◌else◌, has, last, length, Bool-cases, inl, inr,
}
use multi_pand_os.Listx.{Links, list_search, list_for_each}
use multi_pand_os.Listx.Ring.{Chain, Ring}

-- The first element that passes the test.
abbrev pub find : (ℕ → Bool) → List ℕ → Option ℕ
find test [] = none
find test (x ∷ xs) = if test x then some x else find test xs

list_search-find :
    (rounds : ℕ) (l : Links) (h a : ℕ) (test : ℕ → Bool) (xs : List ℕ)
    → Chain l a xs
    → l.next (last a xs) ≡ h
    → has h xs ≡ false
    → length xs < rounds
    → list_search rounds h test (l.next a) l ≡ some (find test xs)
unfolding list_search
list_search-find zero l h a test xs s e out more = absurd (omega arith)
list_search-find (suc rounds) l h a test [] s e out more = ground arith
list_search-find (suc rounds) l h a test (x ∷ xs) (link, s) e out more =
    ground (arith, list_search-find rounds l h x test xs s e)

-- On a ring of fewer nodes than rounds the loop ends, at the first node that passes.
pub list_for_each-find :
    (rounds : ℕ) {l : Links} (h : ℕ) (test : ℕ → Bool) (xs : List ℕ)
    → Ring l h xs
    → length xs < rounds
    → list_for_each rounds h test l ≡ some (find test xs)
unfolding list_for_each
list_for_each-find rounds {l} h test xs r more =
    list_search-find rounds l h h test xs r.chain r.closed.0 r.distinct.0 more

-- An element that is the first to pass splits the list.
pub find-split :
    (test : ℕ → Bool) (xs : List ℕ) {a : ℕ}
    → find test xs ≡ some a
    → (before : List ℕ) × (after : List ℕ) × (xs ≡ before ++ a ∷ after)
      × (test a ≡ true)
      × (find test before ≡ none)
find-split test [] h = cc
find-split test (x ∷ xs) {a} h = elim (Bool-cases (test x)) [
  | inl p ↦ ([], xs, ground arith, ground arith, ground arith)
  | inr p ↦
      let (before, after, e, t, n) = find-split test xs {a = a} (ground arith) in
      (x ∷ before, after, ground arith, t, ground arith)
]

-- The search for a given address says whether it is in the list.
pub find-has : (a : ℕ) (xs : List ℕ) → find (λ x. x == a) xs ≡ (if has a xs then some a else none)
find-has a [] = ground arith
find-has a (x ∷ xs) = ground (arith, find-has a xs)
