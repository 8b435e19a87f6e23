-- ===== src/Asl/Active.antt =====
-- The loop over the active semaphores of phase1/asl.c: which descriptor it finds.
use multi_pand_os.Base.{
  ℕ, ◌≤◌, ◌≡◌, refl, ap, false, Option, none, some, List, [], ◌∷◌, ◌++◌, arith, map, ◌==◌, length,
}
use multi_pand_os.Listx.Ring.{Ring}
use multi_pand_os.Listx.Search.{find, list_for_each-find}
use multi_pand_os.Kernel.{Kernel, Layout, max_proc, max_rounds, s_link, semd_of_s_link}
use multi_pand_os.Asl.{active, has_key}

-- None of the descriptors has the key.
abbrev pub NoKey : Kernel → ℕ → List ℕ → Type 0
NoKey k sem [] = Unit
NoKey k sem (s ∷ ss) = ((k.s_key s == sem) ≡ false) × NoKey k sem ss

-- The descriptors `ss` are active, in this order.
pub record Actives (y : Layout) (k : Kernel) (ss : List ℕ) : Type 0 where
  pub ring : Ring k.links y.semd_h (map s_link ss)
  pub few : length ss ≤ max_proc

-- `s` is the first active descriptor with the key, behind `before`.
pub record Located (y : Layout) (k : Kernel) (sem s : ℕ) (before after : List ℕ) : Type 0 where
  pub actives : Actives y k (before ++ s ∷ after)
  pub key : k.s_key s ≡ sem
  pub first : NoKey k sem before

pub length-map-s_link : (ss : List ℕ) → length (map s_link ss) ≡ length ss
length-map-s_link [] = refl
length-map-s_link (s ∷ ss) = omega (arith, length-map-s_link ss)

pub semd_of_s_link-s_link : (s : ℕ) → semd_of_s_link (s_link s) ≡ s
semd_of_s_link-s_link s = omega arith

find-Located :
    (k : Kernel) (sem s : ℕ) (before after : List ℕ)
    → k.s_key s ≡ sem
    → NoKey k sem before
    → find (has_key k sem) (map s_link (before ++ s ∷ after)) ≡ some (s_link s)
find-Located k sem s [] after e n = rw (semd_of_s_link-s_link s) (ground arith)
find-Located k sem s (b ∷ bs) after e (m, n) =
    rw (semd_of_s_link-s_link b) (rw m (find-Located k sem s bs after e n))

find-NoKey :
    (k : Kernel) (sem : ℕ) (ss : List ℕ)
    → NoKey k sem ss
    → find (has_key k sem) (map s_link ss) ≡ none
find-NoKey k sem [] n = refl
find-NoKey k sem (s ∷ ss) (m, n) = rw (semd_of_s_link-s_link s) (rw m (find-NoKey k sem ss n))

pub active-Located :
    {y : Layout} {k : Kernel} {sem s : ℕ} {before after : List ℕ}
    → Located y k sem s before after
    → active y sem k ≡ some (some (s_link s))
unfolding active
active-Located {y} {k} {sem} {s} {before} {after} w =
    rw
      (list_for_each-find max_rounds y.semd_h (has_key k sem) (map s_link (before ++ s ∷ after))
        w.actives.ring (omega (arith, length-map-s_link (before ++ s ∷ after), w.actives.few)))
      (ap (λ (o : Option ℕ). some o) (find-Located k sem s before after w.key w.first))

pub active-NoKey :
    {y : Layout} {k : Kernel} (sem : ℕ) {ss : List ℕ}
    → Actives y k ss
    → NoKey k sem ss
    → active y sem k ≡ some none
unfolding active
active-NoKey {y} {k} sem {ss} a n =
    rw
      (list_for_each-find max_rounds y.semd_h (has_key k sem) (map s_link ss) a.ring
        (omega (arith, length-map-s_link ss, a.few)))
      (ap (λ (o : Option ℕ). some o) (find-NoKey k sem ss n))
