-- ===== src/Base/Nodes.antt =====
-- Lists of addresses: length, membership as a test, the last element, distinctness.
use Prim.Native.Nat.{ℕ, suc, ◌+◌, ◌≤◌}
use mathlib.Core.Path.{◌≡◌, refl}
use mathlib.Core.Bool.{Bool, true, false, ◌||◌}
use mathlib.Core.List.{List, [], ◌∷◌, ◌++◌}
use native.Mathlib.Omega.{arith}
use mathlib.Core.Logic.{inl, inr}
use multi_pand_os.Base.Tests.{◌==◌, ==_refl, if◌then◌else◌, Bool-cases}

abbrev pub length {ℓ} : {A : Type ℓ} → List A → ℕ
length [] = 0
length (x ∷ xs) = suc (length xs)

pub length-append {ℓ} : {A : Type ℓ} (xs ys : List A) → length (xs ++ ys) ≡ length xs + length ys
length-append [] ys = omega arith
length-append (x ∷ xs) ys = omega (arith, length-append xs ys)

abbrev pub has : ℕ → List ℕ → Bool
has a [] = false
has a (x ∷ xs) = (a == x) || has a xs

pub has-append : (a : ℕ) (xs ys : List ℕ) → has a (xs ++ ys) ≡ (has a xs || has a ys)
has-append a [] ys = refl
has-append a (x ∷ xs) ys = ground (arith, has-append a xs ys)

pub out-append :
    (a : ℕ) (xs ys : List ℕ) → has a (xs ++ ys) ≡ false → (has a xs ≡ false) × (has a ys ≡ false)
out-append a xs ys o =
    (ground (arith, o, has-append a xs ys), ground (arith, o, has-append a xs ys))

-- The last node of the path that starts at `a` and goes through `xs`.
abbrev pub last : ℕ → List ℕ → ℕ
last a [] = a
last a (x ∷ xs) = last x xs

pub last-append : (a b : ℕ) (xs ys : List ℕ) → last a (xs ++ b ∷ ys) ≡ last b ys
last-append a b [] ys = refl
last-append a b (x ∷ xs) ys = last-append x b xs ys

pub has-last : (a : ℕ) (xs : List ℕ) → has (last a xs) (a ∷ xs) ≡ true
has-last a [] = ground (arith, ==_refl a)
has-last a (x ∷ xs) = ground (arith, has-last x xs)

abbrev pub Distinct : List ℕ → Type 0
Distinct [] = Unit
Distinct (x ∷ xs) = (has x xs ≡ false) × Distinct xs

-- No address of `xs` is one of `ys`.
abbrev pub Apart : List ℕ → List ℕ → Type 0
Apart [] ys = Unit
Apart (x ∷ xs) ys = (has x ys ≡ false) × Apart xs ys

pub Distinct-split :
    (xs ys : List ℕ) → Distinct (xs ++ ys) → Distinct xs × Distinct ys × Apart xs ys
Distinct-split [] ys d = (tt, d, tt)
Distinct-split (x ∷ xs) ys (out, d) =
    let (dx, dy, ap) = Distinct-split xs ys d in
    ((ground (arith, has-append x xs ys), dx), dy, (ground (arith, has-append x xs ys), ap))

pub Distinct-join : (xs ys : List ℕ) → Distinct xs → Distinct ys → Apart xs ys → Distinct (xs ++ ys)
Distinct-join [] ys dx dy ap = dy
Distinct-join (x ∷ xs) ys (out, dx) dy (off, ap) =
    (ground (arith, has-append x xs ys), Distinct-join xs ys dx dy ap)

pub Apart-has : (a : ℕ) (xs ys : List ℕ) → Apart xs ys → has a ys ≡ true → has a xs ≡ false
Apart-has a [] ys ap h = refl
Apart-has a (x ∷ xs) ys (off, ap) h = ground (arith, Apart-has a xs ys ap h)

Apart-nil : (xs : List ℕ) → Apart xs []
Apart-nil [] = tt
Apart-nil (x ∷ xs) = (refl, Apart-nil xs)

Apart-cons : (y : ℕ) (xs ys : List ℕ) → has y xs ≡ false → Apart xs ys → Apart xs (y ∷ ys)
Apart-cons y [] ys h ap = tt
Apart-cons y (x ∷ xs) ys h (off, ap) = (ground arith, Apart-cons y xs ys (ground arith) ap)

Apart-tail : (y : ℕ) (xs ys : List ℕ) → Apart xs (y ∷ ys) → Apart xs ys
Apart-tail y [] ys ap = tt
Apart-tail y (x ∷ xs) ys (off, ap) = (ground arith, Apart-tail y xs ys ap)

pub Apart-sym : (xs ys : List ℕ) → Apart xs ys → Apart ys xs
Apart-sym xs [] ap = tt
Apart-sym xs (y ∷ ys) ap = (
  Apart-has y xs (y ∷ ys) ap (ground (arith, ==_refl y)),
  Apart-sym xs ys (Apart-tail y xs ys ap),
)

pub Distinct-swap : (xs ys : List ℕ) → Distinct (xs ++ ys) → Distinct (ys ++ xs)
Distinct-swap xs ys d =
    let (dx, dy, ap) = Distinct-split xs ys d in Distinct-join ys xs dy dx (Apart-sym xs ys ap)

-- The list less the first occurrence of `a`.
abbrev pub erase : ℕ → List ℕ → List ℕ
erase a [] = []
erase a (x ∷ xs) = if a == x then xs else x ∷ erase a xs

pub erase-split :
    (a : ℕ) (xs : List ℕ)
    → has a xs ≡ true
    → (before : List ℕ) × (after : List ℕ) × (xs ≡ before ++ a ∷ after)
      × (erase a xs ≡ before ++ after)
erase-split a [] h = cc
erase-split a (x ∷ xs) h = elim (Bool-cases (a == x)) [
  | inl p ↦ ([], xs, ground arith, ground arith)
  | inr p ↦
      let (before, after, e, f) = erase-split a xs (ground arith) in
      (x ∷ before, after, ground arith, ground arith)
]

pub length-erase : (a : ℕ) (xs : List ℕ) → length (erase a xs) ≤ length xs
length-erase a [] = omega arith
length-erase a (x ∷ xs) = ground (arith, length-erase a xs)

-- An address of a distinct list is not among the others.
pub Distinct-out : (y : ℕ) (xs ys : List ℕ) → Distinct (xs ++ y ∷ ys) → has y (xs ++ ys) ≡ false
Distinct-out y xs ys d =
    let (dx, dy, ap) = Distinct-split xs (y ∷ ys) d in
    ground (arith, has-append y xs ys, Apart-has y xs (y ∷ ys) ap, ==_refl y)

pub Apart-append : (xs ys zs : List ℕ) → Apart xs zs → Apart ys zs → Apart (xs ++ ys) zs
Apart-append [] ys zs a b = b
Apart-append (x ∷ xs) ys zs (off, a) b = (off, Apart-append xs ys zs a b)

pub Apart-drop : (y : ℕ) (xs ys zs : List ℕ) → Apart (xs ++ y ∷ ys) zs → Apart (xs ++ ys) zs
Apart-drop y [] ys zs (off, ap) = ap
Apart-drop y (x ∷ xs) ys zs (off, ap) = (off, Apart-drop y xs ys zs ap)

pub has-middle : (y : ℕ) (xs ys : List ℕ) → has y (xs ++ y ∷ ys) ≡ true
has-middle y xs ys = ground (arith, has-append y xs (y ∷ ys), ==_refl y)

pub erase-out : (a : ℕ) (xs : List ℕ) → has a xs ≡ false → erase a xs ≡ xs
erase-out a [] h = refl
erase-out a (x ∷ xs) h = ground (arith, erase-out a xs)

-- What is left was there before.
pub has-erase : (b a : ℕ) (xs : List ℕ) → has b (erase a xs) ≡ true → has b xs ≡ true
has-erase b a [] h = h
has-erase b a (x ∷ xs) h = ground (arith, has-erase b a xs)

pub Distinct-erase : (a : ℕ) (xs : List ℕ) → Distinct xs → has a (erase a xs) ≡ false
Distinct-erase a [] d = refl
Distinct-erase a (x ∷ xs) (o, d) = ground (arith, Distinct-erase a xs d)

pub Apart-erase : (a : ℕ) (xs ys : List ℕ) → Apart xs ys → Apart (erase a xs) ys
Apart-erase a [] ys ap = tt
Apart-erase a (x ∷ xs) ys (off, ap) = elim (Bool-cases (a == x)) [
  | inl e ↦ rw e ap
  | inr e ↦ rw e (off, Apart-erase a xs ys ap)
]

pub Apart-snoc : (y : ℕ) (xs ys : List ℕ) → Apart xs ys → has y xs ≡ false → Apart xs (ys ++ y ∷ [])
Apart-snoc y [] ys ap out = tt
Apart-snoc y (x ∷ xs) ys (off, ap) out =
    (ground (arith, has-append x ys (y ∷ [])), Apart-snoc y xs ys ap (ground arith))

-- What is on a list is not what is not.
pub has-differs : (a b : ℕ) (xs : List ℕ) → has a xs ≡ false → has b xs ≡ true → (a == b) ≡ false
has-differs a b xs o i = elim (Bool-cases (a == b)) [
  | inl e ↦ absurd (ground (arith, i, o, e))
  | inr e ↦ e
]
