-- ===== src/P2Test/Waiting.antt =====
-- The loop in which `p3` of phase2/p2test.c waits for the clock.
use multi_pand_os.Base.{
  ℕ, zero, suc, ◌+◌, ◌/◌, ◌<◌, ◌≡◌, refl, ap, true, false, Bool, ltb, ◌&&◌, List, [], ◌∷◌, length,
  arith,
}
use multi_pand_os.Base.Word.{sub32}
use multi_pand_os.Exceptions.Syscalls.{clockwait}
use multi_pand_os.P2Test.Program.{◌>>=◌}
use multi_pand_os.P2Test.Names.{Image, clockinterval}
use multi_pand_os.P2Test.Timing.{await_tick}
use multi_pand_os.P2Test.Follow.{Asked, call, clock, returned, behind, follow}

-- The times of day before and after a CLOCKWAIT, and what that call answers.
pub record Tick : Type 0 where
  pub before : ℕ
  pub answer : ℕ
  pub after : ℕ

abbrev pub short : Tick → Bool
short t = ltb (sub32 t.after t.before) (clockinterval / 2)

abbrev pub all_short : List Tick → Bool
all_short [] = true
all_short (t ∷ ts) = short t && all_short ts

-- The answers that these ticks give, in front of others.
abbrev pub answers : List Tick → List ℕ → List ℕ
answers [] vs = vs
answers (t ∷ ts) vs = t.before ∷ t.answer ∷ t.after ∷ answers ts vs

-- The time of day, CLOCKWAIT, and the time of day, as often as this.
abbrev pub waited : ℕ → List Asked
waited zero = []
waited (suc n) = clock ∷ call clockwait 0 0 0 ∷ clock ∷ waited n

await_tick-from :
    (x : Image) (ts : List Tick) (last : Tick) (vs : List ℕ) (rounds a b : ℕ)
    → all_short ts ≡ true
    → short last ≡ false
    → ltb (sub32 b a) (clockinterval / 2) ≡ true
    → length ts + 1 < rounds
    → follow (await_tick x rounds a b) (answers ts (answers (last ∷ []) vs))
      ≡ (waited (suc (length ts)), returned vs)
unfolding await_tick ◌>>=◌ follow
await_tick-from x ts last vs zero a b early late now more = absurd (omega arith)
await_tick-from x ts last vs (suc zero) a b early late now more = absurd (omega arith)
await_tick-from x [] last vs (suc (suc rounds)) a b early late now more = rw (now, late) refl
await_tick-from x (t ∷ ts) last vs (suc (suc rounds)) a b early late now more =
    let first : short t ≡ true = ground (arith, early) in
    let rest : all_short ts ≡ true = ground (arith, early) in
    rw now (
      ap (behind (clock ∷ call clockwait 0 0 0 ∷ clock ∷ [])) (
        await_tick-from x ts last vs (suc rounds) t.before t.after rest late first
          (omega (arith, more))))

-- The loop of `p3` ends, with the first CLOCKWAIT across which the time of day moves by at least half
-- a clock interval, however many shorter ones come before it, if it is given two rounds more than
-- these: it has called CLOCKWAIT once for each, between two looks at the time of day.
pub await_tick-ends :
    (x : Image) (ts : List Tick) (last : Tick) (vs : List ℕ) (rounds : ℕ)
    → all_short ts ≡ true
    → short last ≡ false
    → length ts + 1 < rounds
    → follow (await_tick x rounds 0 0) (answers ts (answers (last ∷ []) vs))
      ≡ (waited (suc (length ts)), returned vs)
await_tick-ends x ts last vs rounds early late more =
    await_tick-from x ts last vs rounds 0 0 early late refl more
