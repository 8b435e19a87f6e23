-- ===== src/Pcb/Copy.antt =====
-- `memcpy` of phase1/pcb.c.
use multi_pand_os.Base.{
  ℕ, zero, suc, ◌+◌, ◌-◌, ◌≤◌, ◌≡◌, ◌⊎◌, inl, inr, arith, leb, ltb, ◌&&◌, if◌then◌else◌,
}
use multi_pand_os.Listx.{update}
use multi_pand_os.Pcb.{memcpy}

-- Where the destination does not start inside the source behind its first cell, it ends up with what
-- the source held before, cell by cell, and no other cell changes.
pub memcpy-copied :
    (dest src len : ℕ) (mem : ℕ → ℕ) (a : ℕ)
    → (dest ≤ src) ⊎ (src + len ≤ dest)
    → memcpy dest src len mem a
      ≡ (if leb dest a && ltb a (dest + len) then mem (src + (a - dest)) else mem a)
unfolding memcpy
memcpy-copied d s zero mem a apart = ground arith
memcpy-copied d s (suc len) mem a (inl le) =
    ground (arith, memcpy-copied (d + 1) (s + 1) len (update mem d (mem s)) a (inl (omega arith)))
memcpy-copied d s (suc len) mem a (inr le) =
    ground (arith, memcpy-copied (d + 1) (s + 1) len (update mem d (mem s)) a (inr (omega arith)))
