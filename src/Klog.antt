-- ===== src/Klog.antt =====
-- klog.c: the circular log buffer.
pub mod Bounds
pub mod Text
use multi_pand_os.Base.{
  ℕ, zero, suc, ◌+◌, ◌/◌, ◌%◌, ◌^◌, ◌-◌, Bool, List, [], ◌∷◌, ◌==◌, ltb, leb, ◌&&◌, Option, none,
  some, if◌then◌else◌,
}

abbrev pub klog_lines : ℕ
klog_lines = 64

abbrev pub klog_line_size : ℕ
klog_line_size = 42

pub record Klog : Type 0 where
  pub line_index : ℕ
  pub char_index : ℕ
  pub buffer : ℕ → ℕ → ℕ

-- klog_buffer[line][char] = c
abbrev pub put : ℕ → ℕ → ℕ → (ℕ → ℕ → ℕ) → (ℕ → ℕ → ℕ)
put line char c b i j = if i == line && j == char then c else b i j

-- for (i = 0; i < KLOG_LINE_SIZE; i++) klog_buffer[line][i] = ' '
unfoldable pub blank : (rounds i line : ℕ) → (ℕ → ℕ → ℕ) → (ℕ → ℕ → ℕ)
blank zero i line b = b
blank (suc rounds) i line b = blank rounds (i + 1) line (put line i b' ' b)

unfoldable pub next_line : Klog → Klog
next_line l =
    let line = (l.line_index + 1) % klog_lines in
    record { line_index = line; char_index = 0; buffer = blank klog_line_size 0 line l.buffer }

unfoldable pub next_char : Klog → Klog
next_char l =
    let char = (l.char_index + 1) % 2 ^ 32 in
    if leb klog_line_size char
    then next_line (record l { char_index = 0 })
    else record l { char_index = char }

-- One character at the current place, and on to the next.
unfoldable pub print_char : ℕ → Klog → Klog
print_char c l = next_char (record l { buffer = put l.line_index l.char_index c l.buffer })

-- A string is the list of its characters in front of the '\0'.
unfoldable pub klog_print : List ℕ → Klog → Klog
klog_print [] l = l
klog_print (c ∷ cs) l = klog_print cs (if c == b'\n' then next_line l else print_char c l)

-- digits[n]
unfoldable pub digit : ℕ → ℕ
digit n = if ltb n 10 then b'0' + n else b'A' + (n - 10)

-- do { … num /= base … } while (num > 0), with rounds for the digits of a word.
unfoldable pub print_digits : (rounds base num : ℕ) → Klog → Option Klog
print_digits zero base num l = none
print_digits (suc rounds) base num l =
    let l' = print_char (digit (num % base)) l in
    let rest = print_digits rounds base (num / base) l' in
    if ltb 0 (num / base) then rest else some l'

unfoldable pub klog_print_dec : ℕ → Klog → Option Klog
klog_print_dec num l =
    if ltb num 10
    then print_digits 1 10 num l
    else some (print_char (digit (num % 10)) (print_char (digit (num / 10 % 10)) l))

-- A word has eight hexadecimal digits.
unfoldable pub klog_print_hex : ℕ → Klog → Option Klog
klog_print_hex num l = print_digits 8 16 num l
