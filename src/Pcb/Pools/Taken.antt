-- ===== src/Pcb/Pools/Taken.antt =====
-- `allocPcb` of phase1/pcb.c, between the free list and its users.
use mathlib.Core.Path.{subst}
use multi_pand_os.Base.{
  refl, ℕ, ◌≤◌, ◌≡◌, ◌≢◌, ap, Bool, true, false, Option, some, List, [], ◌∷◌, arith, has, length,
  Bool-cases, inl, inr, Apart,
}
use multi_pand_os.Base.Tally.{tally, tally-in, tally-has, has-tally}
use multi_pand_os.Kernel.{Kernel, Layout, null, p_child, p_sib}
use multi_pand_os.Pcb.{alloc_pcb}
use multi_pand_os.Pcb.Alloc.{heads, alloc_pcb_nil, alloc_pcb_lem, alloc_pcb-frame}
use multi_pand_os.Pcb.Queue.{IsQueue}
use multi_pand_os.Pcb.Pools.{Pools, pcbs, alloc, alloc_from, Placed, perform}
use multi_pand_os.Pcb.Pools.Steps.{
  Does, SamePcbs, Placed-moved, tally-pcbs, length-pcbs, once, free_ready, one_if_self,
}

-- What is no list node is on no list.
unlisted :
    (node : ℕ → Bool) (a : ℕ) (xs : List ℕ)
    → ((b : ℕ) → has b xs ≡ true → node b ≡ true)
    → node a ≡ false
    → has a xs ≡ false
unlisted node a xs listed off = elim (Bool-cases (has a xs)) [
  | inl i ↦ absurd (ground (arith, listed a i))
  | inr o ↦ o
]

module _ {y : Layout} {h : ℕ} {node : ℕ → Bool} {k : Kernel} {s : Pools} (w : Placed y h node k s)
    (p : ℕ) (ps : List ℕ) (first : s.free ≡ p ∷ ps) where
  listed : (b : ℕ) → 1 ≤ tally b (y.pcb_free_h ∷ h ∷ pcbs s) → node b ≡ true
  listed b more = w.nodes b (tally-has b (y.pcb_free_h ∷ h ∷ pcbs s) more)

  first_is : (a : ℕ) → tally a s.free ≡ tally a (p ∷ ps)
  first_is a = ap (tally a) first

  is_node : node p ≡ true
  is_node = listed p (omega (arith, tally-pcbs s p, first_is p, one_if_self p))

  not_null : p ≢ null
  not_null e = ground (arith, is_node, w.no_null, ap node e)

  -- The heads inside the PCB, and its own node, are off every list but the free one.
  heads_off :
      (g : ℕ) (xs : List ℕ)
      → ((b : ℕ) → has b (g ∷ xs) ≡ true → node b ≡ true)
      → has p (g ∷ xs) ≡ false
      → Apart (heads p) (g ∷ xs)
  heads_off g xs nodes out =
      let (child, sib) =
        w.inner p
          (tally-has p (pcbs s) (omega (arith, tally-pcbs s p, first_is p, one_if_self p))) in
      (
        out,
        (
          unlisted node (p_child p) (g ∷ xs) nodes child,
          (
            unlisted node (p_sib p) (g ∷ xs) nodes sib,
            (unlisted node null (g ∷ xs) nodes w.no_null, tt),
          ),
        ),
      )

  taken-Does : Does y h node alloc k s (alloc_from (p ∷ ps) s)
  unfolding perform
  taken-Does =
      let free = subst (IsQueue k y.pcb_free_h) first w.free in
      let s' = (alloc_from (p ∷ ps) s).1 in
      let k' = (alloc_pcb y k).1 in
      let same : SamePcbs s s' = record {
        tallies = λ a. omega (arith, tally-pcbs s a, tally-pcbs s' a, first_is a);
        many = omega (arith, length-pcbs s, length-pcbs s', ap (λ (zs : List ℕ). length zs) first);
      } in
      let off_free =
        heads_off y.pcb_free_h ps
          (λ b i. listed b (
            let there = tally-in b (y.pcb_free_h ∷ ps) i in
            omega (arith, there, tally-pcbs s b, first_is b)))
          (has-tally p (y.pcb_free_h ∷ ps) (omega (arith, once w p, first_is p, one_if_self p))) in
      let off_ready =
        heads_off h s.ready
          (λ b i.
            listed b
              (let there = tally-in b (h ∷ s.ready) i in omega (arith, there, tally-pcbs s b)))
          (has-tally p (h ∷ s.ready) (omega (arith, once w p, first_is p, one_if_self p))) in
      let (given, fresh, rest, number) = alloc_pcb_lem y k p ps free not_null off_free in
      (
        k',
        ap (λ (a : Option ℕ). some (a, k')) given,
        Placed-moved w rest
            (alloc_pcb-frame y k p ps h s.ready free not_null w.ready
              (subst (λ zs. Apart (y.pcb_free_h ∷ zs) (h ∷ s.ready)) first (free_ready w))
              off_ready)
            same,
        same,
      )

pub alloc-Does :
    {y : Layout} {h : ℕ} {node : ℕ → Bool} {k : Kernel} {s : Pools}
    → Placed y h node k s
    → (ps : List ℕ) → s.free ≡ ps
    → Does y h node alloc k s (alloc_from ps s)
unfolding perform
alloc-Does {y} {h} {node} {k} {s} w [] none_free = (
  k,
  ap (λ (r : Option ℕ × Kernel). some r)
      (alloc_pcb_nil y k (subst (IsQueue k y.pcb_free_h) none_free w.free)),
  w,
  record { tallies = λ a. refl; many = refl },
)
alloc-Does w (p ∷ ps) first = taken-Does w p ps first
