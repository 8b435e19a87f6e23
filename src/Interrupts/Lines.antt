-- ===== src/Interrupts/Lines.antt =====
-- Which devices interrupt, as the loops of phase2/interrupts.c read it from the cause and the lines.
use multi_pand_os.Base.{
  ℕ, suc, ◌+◌, ◌^◌, ◌≡◌, Bool, true, false, ◌&&◌, ◌||◌, ◌==◌, leb, ltb, arith, Bool-cases, inl, inr,
  ==_refl,
}
use multi_pand_os.Base.Word.{tests_bit}
use multi_pand_os.Machine.{Machine}
use multi_pand_os.Interrupts.{il_disk, cause_ip_get}
use multi_pand_os.Interrupts.Answered.{one_device}

module _ (m : Machine) where
  -- The devices of a line, from `from` on, that interrupt.
  abbrev pub on_line : (rounds line from : ℕ) → ℕ → ℕ → Bool
  on_line rounds line from l d =
      (l == line) && (leb from d && ltb d (from + rounds)) && tests_bit (m.interrupt_dev l) (2 ^ d)

  pub on_line-later :
      (rounds line dev l d : ℕ)
      → on_line rounds line (dev + 1) l d ≡ true
      → on_line (suc rounds) line dev l d ≡ true
  on_line-later rounds line dev l d o = ground (arith, o)

  pub on_line-first :
      (rounds line dev l d : ℕ)
      → tests_bit (m.interrupt_dev line) (2 ^ dev) ≡ true
      → (one_device line dev l d || on_line rounds line (dev + 1) l d)
        ≡ on_line (suc rounds) line dev l d
  on_line-first rounds line dev l d i = elim (Bool-cases (l == line)) [
    | inl p ↦ elim (Bool-cases (d == dev)) [
      | inl q ↦
          let same : l ≡ line = ground arith in
          let same' : d ≡ dev = ground arith in
          rw (same, same') (ground (arith, i, ==_refl line, ==_refl dev))
      | inr q ↦ ground (arith, p, q)
    ]
    | inr p ↦ ground (arith, p)
  ]

  pub on_line-skip :
      (rounds line dev l d : ℕ)
      → tests_bit (m.interrupt_dev line) (2 ^ dev) ≡ false
      → (false || on_line rounds line (dev + 1) l d) ≡ on_line (suc rounds) line dev l d
  on_line-skip rounds line dev l d i = elim (Bool-cases (l == line)) [
    | inl p ↦ elim (Bool-cases (d == dev)) [
      | inl q ↦
          let same : l ≡ line = ground arith in
          let same' : d ≡ dev = ground arith in rw (same, same') (ground (arith, i))
      | inr q ↦ ground (arith, p, q)
    ]
    | inr p ↦ ground (arith, p)
  ]

  abbrev pub nowhere : ℕ → ℕ → Bool
  nowhere l d = false

  -- The devices that interrupt, on the lines from `from` on that do.
  abbrev pub on_lines : (rounds from : ℕ) → ℕ → ℕ → Bool
  on_lines rounds from l d =
      (leb from l && ltb l (from + rounds))
      && (cause_ip_get m.cause (l + il_disk) && (ltb d 8 && tests_bit (m.interrupt_dev l) (2 ^ d)))

  pub on_lines-later :
      (rounds line l d : ℕ)
      → on_lines rounds (line + 1) l d ≡ true
      → on_lines (suc rounds) line l d ≡ true
  on_lines-later rounds line l d o = ground (arith, o)

  pub on_lines-here :
      (rounds line d : ℕ)
      → cause_ip_get m.cause (line + il_disk) ≡ true
      → on_line 8 line 0 line d ≡ true
      → on_lines (suc rounds) line line d ≡ true
  on_lines-here rounds line d i o = ground (arith, i, o)

  pub on_lines-first :
      (rounds line l d : ℕ)
      → cause_ip_get m.cause (line + il_disk) ≡ true
      → (on_line 8 line 0 l d || on_lines rounds (line + 1) l d) ≡ on_lines (suc rounds) line l d
  on_lines-first rounds line l d i = elim (Bool-cases (l == line)) [
    | inl p ↦ let same : l ≡ line = ground arith in rw same (ground (arith, i, ==_refl line))
    | inr p ↦ ground (arith, p)
  ]

  pub on_lines-skip :
      (rounds line l d : ℕ)
      → cause_ip_get m.cause (line + il_disk) ≡ false
      → (false || on_lines rounds (line + 1) l d) ≡ on_lines (suc rounds) line l d
  on_lines-skip rounds line l d i = elim (Bool-cases (l == line)) [
    | inl p ↦ let same : l ≡ line = ground arith in rw same (ground (arith, i))
    | inr p ↦ ground (arith, p)
  ]
