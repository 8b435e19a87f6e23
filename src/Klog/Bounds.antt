-- ===== src/Klog/Bounds.antt =====
-- klog.c: the place of its next write, and the bounds of its buffer.
use mathlib.Core.Path.{subst}
use multi_pand_os.Base.{
  ℕ, zero, suc, ◌+◌, ◌/◌, ◌%◌, ◌<◌, ◌≤◌, ◌≡◌, refl, true, false, List, [], ◌∷◌, arith, ◌==◌, ltb,
  leb, if◌then◌else◌, Bool-cases, inl, inr, ◌⊎◌, ◌∙◌,
}
use multi_pand_os.Klog.{
  Klog, klog_lines, klog_line_size, next_line, next_char, print_char, klog_print, digit, put, blank,
}

-- The place of the next character lies in the buffer.
pub record IsValid (l : Klog) : Type 0 where
  pub line : l.line_index < klog_lines
  pub char : l.char_index < klog_line_size

pub next_line-IsValid : (l : Klog) → IsValid (next_line l)
unfolding next_line
next_line-IsValid l = record { line = omega arith; char = omega arith }

next_char-IsValid : (l : Klog) → IsValid l → IsValid (next_char l)
unfolding next_char
next_char-IsValid l v = ground (arith, next_line-IsValid (record l { char_index = 0 }))

pub print_char-IsValid : (c : ℕ) (l : Klog) → IsValid l → IsValid (print_char c l)
unfolding print_char
print_char-IsValid c l v =
    next_char-IsValid (record l { buffer = put l.line_index l.char_index c l.buffer })
      (record { line = v.line; char = v.char })

-- What lies outside the buffer's 64 lines of 42 characters is as before.
abbrev pub SpareOutside : Klog → Klog → Type 0
SpareOutside l m =
    (i j : ℕ)
    → (leb klog_lines i ≡ true) ⊎ (leb klog_line_size j ≡ true)
    → m.buffer i j ≡ l.buffer i j

blank-outside :
    (rounds i line : ℕ) (b : ℕ → ℕ → ℕ) (u v : ℕ)
    → i + rounds ≤ klog_line_size
    → line < klog_lines
    → (leb klog_lines u ≡ true) ⊎ (leb klog_line_size v ≡ true)
    → blank rounds i line b u v ≡ b u v
unfolding blank
blank-outside zero i line b u v h lt o = refl
blank-outside (suc rounds) i line b u v h lt o =
    blank-outside rounds (i + 1) line (put line i b' ' b) u v (omega arith) lt o ∙ ground arith

next_line-outside : (l : Klog) → SpareOutside l (next_line l)
unfolding next_line
next_line-outside l u v o =
    blank-outside klog_line_size 0 ((l.line_index + 1) % klog_lines) l.buffer u v (omega arith)
      (omega arith) o

next_char-outside : (l : Klog) → SpareOutside l (next_char l)
unfolding next_char
next_char-outside l u v o = ground (arith, next_line-outside (record l { char_index = 0 }) u v)

put-outside :
    (line char c : ℕ) (b : ℕ → ℕ → ℕ) (u v : ℕ)
    → line < klog_lines
    → char < klog_line_size
    → (leb klog_lines u ≡ true) ⊎ (leb klog_line_size v ≡ true)
    → put line char c b u v ≡ b u v
put-outside line char c b u v h k o = ground arith

print_char-outside : (c : ℕ) (l : Klog) → IsValid l → SpareOutside l (print_char c l)
unfolding print_char
print_char-outside c l w u v o =
    next_char-outside (record l { buffer = put l.line_index l.char_index c l.buffer }) u v o
    ∙ put-outside l.line_index l.char_index c l.buffer u v w.line w.char o

-- What is printed stays in the buffer, from a place in it to a place in it.
abbrev pub Keeps : Klog → Klog → Type 0
Keeps l m = IsValid m × SpareOutside l m

Keeps-trans : (l m n : Klog) → SpareOutside l m → Keeps m n → Keeps l n
Keeps-trans l m n s (v, t) = (v, λ i j o. t i j o ∙ s i j o)

klog_print-newline :
    (c : ℕ) (cs : List ℕ) (l : Klog)
    → (c == b'\n') ≡ true
    → klog_print cs (next_line l) ≡ klog_print (c ∷ cs) l
unfolding klog_print
klog_print-newline c cs l n = rw n

pub klog_print-plain :
    (c : ℕ) (cs : List ℕ) (l : Klog)
    → (c == b'\n') ≡ false
    → klog_print cs (print_char c l) ≡ klog_print (c ∷ cs) l
unfolding klog_print
klog_print-plain c cs l n = rw n

pub klog_print-nil : (l : Klog) → l ≡ klog_print [] l
unfolding klog_print
klog_print-nil l = refl

-- Printing any text from a valid place leaves a valid place, and writes nothing but the buffer.
pub klog_print-IsValid : (cs : List ℕ) (l : Klog) → IsValid l → Keeps l (klog_print cs l)
klog_print-IsValid [] l v = subst (Keeps l) (klog_print-nil l) (v, λ i j o. refl)
klog_print-IsValid (c ∷ cs) l v = elim (Bool-cases (c == b'\n')) [
  | inl n ↦ subst (Keeps l) (klog_print-newline c cs l n) (
      Keeps-trans l (next_line l) (klog_print cs (next_line l)) (next_line-outside l)
        (klog_print-IsValid cs (next_line l) (next_line-IsValid l)))
  | inr n ↦ subst (Keeps l) (klog_print-plain c cs l n) (
      Keeps-trans l (print_char c l) (klog_print cs (print_char c l)) (print_char-outside c l v)
        (klog_print-IsValid cs (print_char c l) (print_char-IsValid c l v)))
]

-- The digits of a number to a base, the last one first, in at most `rounds` of them.
abbrev pub digits_up : (rounds base num : ℕ) → List ℕ
digits_up zero base num = []
digits_up (suc rounds) base num =
    digit (num % base) ∷ (if ltb 0 (num / base) then digits_up rounds base (num / base) else [])

pub digit-plain : (n : ℕ) → n < 16 → (digit n == b'\n') ≡ false
unfolding digit
digit-plain n h = ground arith
