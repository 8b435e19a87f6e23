-- ===== src/Klog/Text.antt =====
-- klog.c: the characters and digits that its functions print.
use native.Mathlib.Nat.{pow-suc}
use multi_pand_os.Base.{
  ltb→lt, ℕ, zero, suc, ◌+◌, ◌/◌, ◌%◌, ◌^◌, ◌<◌, ◌≡◌, true, false, List, [], ◌∷◌, arith, ◌==◌, ltb,
  some, if◌then◌else◌, Bool-cases, inl, inr, length, ◌∙◌, ap,
}
use multi_pand_os.Klog.{
  Klog, klog_line_size, next_char, print_char, klog_print, print_digits, klog_print_dec,
  klog_print_hex, digit, put,
}
use multi_pand_os.Klog.Bounds.{digits_up, digit-plain, klog_print-plain, klog_print-nil}

-- No character of the text is a newline.
abbrev pub IsPlain : List ℕ → Type 0
IsPlain [] = Unit
IsPlain (c ∷ cs) = ((c == b'\n') ≡ false) × IsPlain cs

-- The buffer with the text written from a place on.
abbrev pub written : List ℕ → (line char : ℕ) → (ℕ → ℕ → ℕ) → (ℕ → ℕ → ℕ)
written [] line char b = b
written (c ∷ cs) line char b = written cs line (char + 1) (put line char c b)

print_char-inside :
    (c : ℕ) (l : Klog)
    → l.char_index + 1 < klog_line_size
    → print_char c l ≡ record l {
      char_index = l.char_index + 1;
      buffer = put l.line_index l.char_index c l.buffer;
    }
unfolding print_char next_char
print_char-inside c l h = ground arith

-- A text with no newline that fits in the rest of the line and leaves the last place of the line free
-- is written there, character by character, and nothing else changes but the place.
pub klog_print-written :
    (cs : List ℕ) (l : Klog)
    → IsPlain cs
    → l.char_index + length cs < klog_line_size
    → klog_print cs l ≡ record l {
      char_index = l.char_index + length cs;
      buffer = written cs l.line_index l.char_index l.buffer;
    }
unfolding klog_print
klog_print-written [] l p h = ground arith
klog_print-written (c ∷ cs) l (n, p) h =
    rw (n, print_char-inside c l (omega arith))
      (klog_print-written cs
          (record l {
            char_index = l.char_index + 1;
            buffer = put l.line_index l.char_index c l.buffer;
          })
          p (omega arith)
        ∙ ground arith)

more-digits : (rounds num : ℕ) → num < 16 ^ suc rounds → ltb 0 (num / 16) ≡ true → 0 < rounds
more-digits zero num h more = absurd (omega (arith, ltb→lt 0 (num / 16)))
more-digits (suc rounds) num h more = omega arith

-- With a round for each digit the loop ends, and prints the digits from the last to the first.
print_digits-up :
    (rounds num : ℕ) (l : Klog)
    → num < 16 ^ rounds
    → 0 < rounds
    → print_digits rounds 16 num l ≡ some (klog_print (digits_up rounds 16 num) l)
unfolding print_digits
print_digits-up zero num l h r = absurd (omega arith)
print_digits-up (suc rounds) num l h r = elim (Bool-cases (ltb 0 (num / 16))) [
  | inl more ↦ rw more (
      print_digits-up rounds (num / 16) (print_char (digit (num % 16)) l)
        (omega (arith, pow-suc 16 rounds)) (more-digits rounds num h more)
      ∙ ap (λ m. some m)
          (klog_print-plain (digit (num % 16)) (digits_up rounds 16 (num / 16)) l
            (digit-plain (num % 16) (omega arith))))
  | inr last ↦ rw last (
      ap (λ m. some m)
        (klog_print-nil (print_char (digit (num % 16)) l)
          ∙ klog_print-plain (digit (num % 16)) [] l (digit-plain (num % 16) (omega arith))))
]

-- `klog_print_hex` ends on every word, and prints its hexadecimal digits in reverse: the last
-- digit of the number comes first.
pub klog_print_hex-digits :
    (num : ℕ) (l : Klog)
    → num < 2 ^ 32
    → klog_print_hex num l ≡ some (klog_print (digits_up 8 16 num) l)
unfolding klog_print_hex
klog_print_hex-digits num l h = print_digits-up 8 num l (omega arith) (omega arith)

-- Below 100 `klog_print_dec` prints the decimal digits, the tens in front of the units.
pub klog_print_dec-digits :
    (num : ℕ) (l : Klog)
    → num < 100
    → klog_print_dec num l
      ≡ some (
          klog_print
            (if ltb num 10 then digit num ∷ [] else digit (num / 10) ∷ digit (num % 10) ∷ [])
            l)
unfolding klog_print_dec print_digits
klog_print_dec-digits num l h = elim (Bool-cases (ltb num 10)) [
  | inl small ↦
      let same : num % 10 ≡ num = omega (arith, ltb→lt num 10 small) in
      let done : num / 10 ≡ 0 = omega (arith, ltb→lt num 10 small) in
      rw (small, same, done)
        (ap (λ m. some m)
          (klog_print-nil (print_char (digit num) l)
            ∙ klog_print-plain (digit num) [] l
                (digit-plain num (omega (arith, ltb→lt num 10 small)))))
  | inr big ↦
      let tens : num / 10 % 10 ≡ num / 10 = omega arith in
      let l' = print_char (digit (num / 10)) l in
      rw (big, tens)
        (ap (λ m. some m)
          (klog_print-nil (print_char (digit (num % 10)) l')
            ∙ klog_print-plain (digit (num % 10)) [] l' (digit-plain (num % 10) (omega arith))
            ∙ klog_print-plain (digit (num / 10)) (digit (num % 10) ∷ []) l
                (digit-plain (num / 10) (omega arith))))
]
