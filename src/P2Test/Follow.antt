-- ===== src/P2Test/Follow.antt =====
-- A process of phase2/p2test.c against the answers that it gets: what it asks for, in order.
use multi_pand_os.Base.{ℕ, List, [], ◌∷◌, ◌++◌}
use multi_pand_os.P2Test.Program.{
  Code, ret, syscall, load, store, peek, poke, stck, stst, set_entry_hi, set_entry_lo, tlbwr,
  load_state, panics, out_of_rounds,
}

-- A SYSCALL, or a look at the time of day.
pub data Asked : Type 0 where
  call : (number a1 a2 a3 : ℕ) → Asked
  clock : Asked

-- The process returns, with answers that it has not used, or panics, or waits for one more answer,
-- or does something else than ask, or its rounds have run out.
pub data End : Type 0 where
  returned : (rest : List ℕ) → End
  panicked : End
  waits : End
  elsewhere : End
  unfinished : End

abbrev pub behind : List Asked → List Asked × End → List Asked × End
behind es (fs, e) = (es ++ fs, e)

unfoldable pub follow : Code → List ℕ → List Asked × End
follow (ret a) vs = ([], returned vs)
follow (syscall n a b c g) [] = (call n a b c ∷ [], waits)
follow (syscall n a b c g) (v ∷ vs) = behind (call n a b c ∷ []) (follow (g v) vs)
follow (stck g) [] = (clock ∷ [], waits)
follow (stck g) (v ∷ vs) = behind (clock ∷ []) (follow (g v) vs)
follow panics vs = ([], panicked)
follow out_of_rounds vs = ([], unfinished)
follow (load r g) vs = ([], elsewhere)
follow (store w p) vs = ([], elsewhere)
follow (peek a g) vs = ([], elsewhere)
follow (poke a v p) vs = ([], elsewhere)
follow (stst g) vs = ([], elsewhere)
follow (set_entry_hi v p) vs = ([], elsewhere)
follow (set_entry_lo v p) vs = ([], elsewhere)
follow (tlbwr p) vs = ([], elsewhere)
follow (load_state s) vs = ([], elsewhere)
