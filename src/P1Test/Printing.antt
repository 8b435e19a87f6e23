-- ===== src/P1Test/Printing.antt =====
-- `termprint` of phase1/p1test.c on a terminal that gets done with each character.
use multi_pand_os.Base.{ℕ, ◌+◌, ◌≤◌, ◌≡◌, ◌≢◌, ◌⊎◌, List, [], ◌∷◌, ◌++◌}
use Prim.Native.Nat.{bit_and}
use multi_pand_os.P1Test.Terminal.{Devices, Traffic, transmitted, statusmask}

-- The status that a read finds.
abbrev pub status : Devices → ℕ → List (ℕ × ℕ) → ℕ → ℕ
status d a w r = bit_and (d.register a w r) statusmask

-- The documented behaviour of a transmitter with its status at `a` and its command at `c`: after a
-- write it is busy for at most `delay` reads, and then it has transmitted the character, until the
-- next write. A transmitter that is READY stays so until then, too.
pub record IsTransmitter (d : Devices) (a c delay : ℕ) : Type 0 where
  pub works :
      (w : List (ℕ × ℕ)) (v r : ℕ)
      → (status d a (w ++ (c, v) ∷ []) r ≡ d.busy) ⊎ (status d a (w ++ (c, v) ∷ []) r ≡ transmitted)
  pub ends :
      (w : List (ℕ × ℕ)) (v r : ℕ) → delay ≤ r → status d a (w ++ (c, v) ∷ []) r ≡ transmitted
  pub stays :
      (w : List (ℕ × ℕ)) (r : ℕ) → status d a w r ≡ transmitted → status d a w (r + 1) ≡ transmitted
  pub rests : (w : List (ℕ × ℕ)) (r : ℕ) → status d a w r ≡ d.ready → status d a w (r + 1) ≡ d.ready
  pub apart : d.busy ≢ transmitted

-- The transmitter is READY, or has transmitted the last character.
abbrev pub Idle : Devices → ℕ → Traffic → Type 0
Idle d a t = (status d a t.written t.reads ≡ d.ready) ⊎ (status d a t.written t.reads ≡ transmitted)
