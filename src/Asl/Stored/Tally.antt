-- ===== src/Asl/Stored/Tally.antt =====
-- How often an address stands among those of the active semaphore list of phase1/asl.c.
use multi_pand_os.Base.{
  true, false, ◌==◌, ==_refl, ℕ, ◌+◌, ◌≤◌, ◌≡◌, refl, Bool, List, [], ◌∷◌, ◌++◌, arith, map, has,
  length, length-append, Bool-cases, inl, inr,
}
use multi_pand_os.Base.Tally.{tally, one_if, tally-append, tally-out, Distinct-Once}
use multi_pand_os.Kernel.{Layout, s_link, s_procq}
use multi_pand_os.Asl.Spec.{Entry, waiters}
use multi_pand_os.Asl.Stored.{descs, fixed, Sorted, cells}

-- All addresses together.
pub Sorted-once :
    {y : Layout} {is_pcb : ℕ → Bool} {es : List Entry} {fs : List ℕ} (w : Sorted y is_pcb es fs)
    (a : ℕ)
    → tally a (fixed y es fs) + tally a (waiters es) ≤ 1
Sorted-once {y} {is_pcb} {es} {fs} w a =
    let one = Distinct-Once (fixed y es fs) w.distinct a in
    let other = Distinct-Once (waiters es) w.waiting a in
    elim (Bool-cases (has a (fixed y es fs))) [
      | inl i ↦ elim (Bool-cases (has a (waiters es))) [
        | inl j ↦ absurd (ground (arith, w.not_pcbs a i, w.pcbs a j))
        | inr o ↦ omega (arith, one, tally-out a (waiters es) o)
      ]
      | inr o ↦ omega (arith, other, tally-out a (fixed y es fs) o)
    ]

-- The counts of the fixed addresses, list by list.
pub tally-fixed :
    (y : Layout) (es : List Entry) (fs : List ℕ) (a : ℕ)
    → tally a (fixed y es fs)
      ≡ one_if a y.semd_h
        + tally a (map s_link (descs es))
        + one_if a y.semd_free_h
        + tally a (map s_link fs)
        + tally a (map s_procq (descs es))
        + tally a (map s_procq fs)
tally-fixed y es fs a = simp tally-append (omega arith)

pub tally-descs :
    (f : ℕ → ℕ) (xs ys : List Entry) (a : ℕ)
    → tally a (map f (descs (xs ++ ys))) ≡ tally a (map f (descs xs)) + tally a (map f (descs ys))
tally-descs f [] ys a = omega arith
tally-descs f (e ∷ xs) ys a = omega (arith, tally-descs f xs ys a)

pub tally-waiters :
    (xs ys : List Entry) (a : ℕ)
    → tally a (waiters (xs ++ ys)) ≡ tally a (waiters xs) + tally a (waiters ys)
tally-waiters [] ys a = omega arith
tally-waiters (e ∷ xs) ys a = omega (
  arith,
  tally-waiters xs ys a,
  tally-append a e.others (waiters (xs ++ ys)),
  tally-append a e.others (waiters xs),
)

pub tally-cells :
    (es : List Entry) (a : ℕ)
    → tally a (cells es) ≡ tally a (map s_procq (descs es)) + tally a (waiters es)
tally-cells [] a = refl
tally-cells (e ∷ es) a = omega (
  arith,
  tally-cells es a,
  tally-append a e.others (cells es),
  tally-append a e.others (waiters es),
)

-- The counts around one of the semaphores.
pub tally-split :
    (y : Layout) (xs : List Entry) (e : Entry) (ys : List Entry) (fs : List ℕ) (a : ℕ)
    → tally a (fixed y (xs ++ e ∷ ys) fs) + tally a (waiters (xs ++ e ∷ ys))
      ≡ one_if a y.semd_h
        + tally a (map s_link (descs xs))
        + one_if a (s_link e.desc)
        + tally a (map s_link (descs ys))
        + one_if a y.semd_free_h
        + tally a (map s_link fs)
        + tally a (map s_procq (descs xs))
        + one_if a (s_procq e.desc)
        + tally a (map s_procq (descs ys))
        + tally a (map s_procq fs)
        + tally a (waiters xs)
        + one_if a e.first
        + tally a e.others
        + tally a (waiters ys)
tally-split y xs e ys fs a = omega (
  arith,
  tally-fixed y (xs ++ e ∷ ys) fs a,
  tally-descs s_link xs (e ∷ ys) a,
  tally-descs s_procq xs (e ∷ ys) a,
  tally-waiters xs (e ∷ ys) a,
  tally-append a e.others (waiters ys),
)

pub tally-around :
    {y : Layout} {is_pcb : ℕ → Bool} (xs : List Entry) (e : Entry) (ys : List Entry) (fs : List ℕ)
    → Sorted y is_pcb (xs ++ e ∷ ys) fs
    → (a : ℕ)
    → one_if a y.semd_h
        + tally a (map s_link (descs xs))
        + one_if a (s_link e.desc)
        + tally a (map s_link (descs ys))
        + one_if a y.semd_free_h
        + tally a (map s_link fs)
        + tally a (map s_procq (descs xs))
        + one_if a (s_procq e.desc)
        + tally a (map s_procq (descs ys))
        + tally a (map s_procq fs)
        + tally a (waiters xs)
        + one_if a e.first
        + tally a e.others
        + tally a (waiters ys)
      ≤ 1
tally-around {y} xs e ys fs w a = omega (arith, Sorted-once w a, tally-split y xs e ys fs a)

-- A process that waits nowhere.
pub record Fresh (is_pcb : ℕ → Bool) (es : List Entry) (p : ℕ) : Type 0 where
  pub kind : is_pcb p ≡ true
  pub out : has p (waiters es) ≡ false

pub Sorted-Fresh :
    {y : Layout} {is_pcb : ℕ → Bool} {es : List Entry} {fs : List ℕ} {p : ℕ}
    → Sorted y is_pcb es fs
    → Fresh is_pcb es p
    → (a : ℕ) → one_if a p + (tally a (fixed y es fs) + tally a (waiters es)) ≤ 1
Sorted-Fresh {y} {is_pcb} {es} {fs} {p} w n a =
    let off : has p (fixed y es fs) ≡ false = elim (Bool-cases (has p (fixed y es fs))) [
      | inl i ↦ absurd (ground (arith, n.kind, w.not_pcbs p i))
      | inr o ↦ o
    ] in
    elim (Bool-cases (a == p)) [
      | inl e ↦
          let same : a ≡ p = ground arith in
          rw same (ground (arith, tally-out p (fixed y es fs) off, tally-out p (waiters es) n.out))
      | inr e ↦ let once = Sorted-once w a in ground (arith, once, e)
    ]

pub has-map : (f : ℕ → ℕ) (d : ℕ) (ds : List ℕ) → has d ds ≡ true → has (f d) (map f ds) ≡ true
has-map f d [] i = absurd (ground arith)
has-map f d (x ∷ ds) i = elim (Bool-cases (d == x)) [
  | inl e ↦ let same : d ≡ x = ground arith in rw same (ground (arith, ==_refl (f x)))
  | inr e ↦ ground (arith, has-map f d ds)
]

pub length-descs :
    (xs ys : List Entry) → length (descs (xs ++ ys)) ≡ length (descs xs) + length (descs ys)
length-descs [] ys = omega arith
length-descs (e ∷ xs) ys = omega (arith, length-descs xs ys)

pub length-waiters :
    (xs ys : List Entry) → length (waiters (xs ++ ys)) ≡ length (waiters xs) + length (waiters ys)
length-waiters [] ys = omega arith
length-waiters (e ∷ xs) ys = omega (
  arith,
  length-waiters xs ys,
  length-append e.others (waiters (xs ++ ys)),
  length-append e.others (waiters xs),
)
