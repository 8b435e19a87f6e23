-- ===== src/Base/Tally.antt =====
-- How often an address is on a list: on lists in which nothing is there twice, order does not matter.
use Prim.Native.Nat.{suc, ℕ, ◌+◌, ◌≤◌}
use mathlib.Core.Path.{◌≡◌, refl, ap}
use mathlib.Core.Bool.{true, false}
use mathlib.Core.Logic.{inl, inr}
use mathlib.Core.List.{List, [], ◌∷◌, ◌++◌}
use native.Mathlib.Omega.{arith}
use multi_pand_os.Base.Tests.{◌==◌, if◌then◌else◌, Bool-cases}
use multi_pand_os.Base.Nodes.{has, Distinct, Apart, erase, length}

abbrev pub one_if : ℕ → ℕ → ℕ
one_if a x = if a == x then 1 else 0

abbrev pub tally : ℕ → List ℕ → ℕ
tally a [] = 0
tally a (x ∷ xs) = one_if a x + tally a xs

pub tally-append :
    (b : ℕ) (front back : List ℕ) → tally b (front ++ back) ≡ tally b front + tally b back
tally-append b [] back = omega arith
tally-append b (c ∷ front) back = let rest = tally-append b front back in omega (arith, rest)

pub tally-out : (a : ℕ) (xs : List ℕ) → has a xs ≡ false → tally a xs ≡ 0
tally-out a [] o = refl
tally-out a (x ∷ xs) o = ground (arith, tally-out a xs)

pub tally-in : (a : ℕ) (xs : List ℕ) → has a xs ≡ true → 1 ≤ tally a xs
tally-in a (x ∷ xs) i = ground (arith, tally-in a xs)
tally-in a [] i = absurd (ground arith)

pub has-tally : (a : ℕ) (xs : List ℕ) → tally a xs ≡ 0 → has a xs ≡ false
has-tally a xs e = elim (Bool-cases (has a xs)) [
  | inl i ↦ absurd (omega (arith, tally-in a xs i))
  | inr o ↦ o
]

-- Nothing is there twice.
abbrev pub Once : List ℕ → Type 0
Once xs = (a : ℕ) → tally a xs ≤ 1

pub Distinct-Once : (xs : List ℕ) → Distinct xs → Once xs
Distinct-Once [] d a = omega arith
Distinct-Once (x ∷ xs) (o, d) a = ground (arith, Distinct-Once xs d a, tally-out x xs o)

pub Once-Distinct : (xs : List ℕ) → Once xs → Distinct xs
Once-Distinct [] s = tt
Once-Distinct (x ∷ xs) s =
    (has-tally x xs (ground (arith, s x)), Once-Distinct xs (λ a. ground (arith, s a)))

pub Once-Apart : (xs ys : List ℕ) → ((a : ℕ) → tally a xs + tally a ys ≤ 1) → Apart xs ys
Once-Apart [] ys s = tt
Once-Apart (x ∷ xs) ys s =
    (has-tally x ys (ground (arith, s x)), Once-Apart xs ys (λ a. ground (arith, s a)))

pub tally-has : (a : ℕ) (xs : List ℕ) → 1 ≤ tally a xs → has a xs ≡ true
tally-has a xs some_there = elim (Bool-cases (has a xs)) [
  | inl i ↦ i
  | inr o ↦ absurd (omega (arith, tally-out a xs o, some_there))
]

pub tally-erase :
    (a p : ℕ) (xs : List ℕ) → has p xs ≡ true → one_if a p + tally a (erase p xs) ≡ tally a xs
tally-erase a p [] i = absurd (ground arith)
tally-erase a p (x ∷ xs) i = elim (Bool-cases (p == x)) [
  | inl e ↦ let same : p ≡ x = ground arith in rw (e, same) refl
  | inr o ↦ let rest = tally-erase a p xs (ground arith) in rw o (omega (arith, rest))
]

pub length-erase-has :
    (p : ℕ) (xs : List ℕ) → has p xs ≡ true → suc (length (erase p xs)) ≡ length xs
length-erase-has p [] i = absurd (ground arith)
length-erase-has p (x ∷ xs) i = elim (Bool-cases (p == x)) [
  | inl e ↦ rw e refl
  | inr o ↦ let rest = length-erase-has p xs (ground arith) in rw o (ap suc rest)
]
