-- ===== src/Tests/Klog.antt =====
-- klog.c on short texts and numbers.
use multi_pand_os.Base.{ℕ, ◌≡◌, refl, some, List, [], ◌∷◌, arith}
use multi_pand_os.Klog.{Klog, klog_print, klog_print_dec, klog_print_hex, digit}
use multi_pand_os.Klog.Bounds.{Keeps, klog_print-IsValid, digits_up}
use multi_pand_os.Klog.Text.{
  written, klog_print-written, klog_print_hex-digits, klog_print_dec-digits,
}

-- The last line but one character is full.
abbrev near_end : Klog
near_end = record { line_index = 63; char_index = 40; buffer = λ i j. 0 }

abbrev text : List ℕ
text = b'a' ∷ b'\n' ∷ b'b' ∷ b'c' ∷ []

klog_print-IsValid_example : Keeps near_end (klog_print text near_end)
klog_print-IsValid_example =
    klog_print-IsValid text near_end (record { line = omega arith; char = omega arith })

abbrev start : Klog
start = record { line_index = 0; char_index = 5; buffer = λ i j. 0 }

abbrev word : List ℕ
word = b'o' ∷ b'k' ∷ []

klog_print-written_example :
    klog_print word start ≡ record start { char_index = 7; buffer = written word 0 5 start.buffer }
klog_print-written_example = klog_print-written word start (refl, (refl, tt)) (omega arith)

klog_print_hex-digits_example :
    klog_print_hex 0x1a start ≡ some (klog_print (digits_up 8 16 0x1a) start)
klog_print_hex-digits_example = klog_print_hex-digits 0x1a start (omega arith)

-- 0x1A comes out as "A1".
hex_reversed : digits_up 8 16 0x1a ≡ b'A' ∷ b'1' ∷ []
unfolding digit
hex_reversed = refl

klog_print_dec-digits_example :
    klog_print_dec 42 start ≡ some (klog_print (digit 4 ∷ digit 2 ∷ []) start)
klog_print_dec-digits_example = klog_print_dec-digits 42 start (omega arith)
