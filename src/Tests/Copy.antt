-- ===== src/Tests/Copy.antt =====
-- The copying loops of phase1/pcb.c and phase2/initial.c on a few cells.
use multi_pand_os.Base.{ℕ, ◌*◌, ◌≡◌, inl, arith}
use multi_pand_os.Pcb.{memcpy}
use multi_pand_os.Pcb.Copy.{memcpy-copied}
use multi_pand_os.Initial.{memset}
use multi_pand_os.Initial.Fill.{memset-filled}

-- Each cell holds ten times its address.
abbrev cells : ℕ → ℕ
cells a = 10 * a

memcpy-copied_example : memcpy 5 7 4 cells 8 ≡ 100
memcpy-copied_example = memcpy-copied 5 7 4 cells 8 (inl (omega arith))

memset-filled_example : memset 5 259 4 cells 8 ≡ 3
memset-filled_example = memset-filled 5 259 4 cells 8
