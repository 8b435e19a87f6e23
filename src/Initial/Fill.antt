-- ===== src/Initial/Fill.antt =====
-- `memset` of phase2/initial.c.
use multi_pand_os.Base.{ℕ, zero, suc, ◌+◌, ◌%◌, ◌^◌, ◌≡◌, arith, leb, ltb, ◌&&◌, if◌then◌else◌}
use multi_pand_os.Listx.{update}
use multi_pand_os.Initial.{memset}

-- The range holds the low byte of the value, and no other cell changes.
pub memset-filled :
    (dest val len : ℕ) (mem : ℕ → ℕ) (a : ℕ)
    → memset dest val len mem a ≡ (if leb dest a && ltb a (dest + len) then val % 2 ^ 8 else mem a)
unfolding memset
memset-filled d v zero mem a = ground arith
memset-filled d v (suc len) mem a =
    ground (arith, memset-filled (d + 1) v len (update mem d (v % 2 ^ 8)) a)
