-- ===== src/P2Test/Printed.antt =====
-- `print` of phase2/p2test.c: one DOIO for each character, between PASSEREN and VERHOGEN.
use Prim.Native.Nat.{bit_and}
use mathlib.Core.Path.{subst}
use multi_pand_os.Base.{
  append-nil, false, ℕ, ◌≡◌, refl, ap, ◌∙◌, Bool, true, false, ◌&&◌, ◌==◌, List, [], ◌∷◌, ◌++◌, map,
  length, arith,
}
use multi_pand_os.Exceptions.Syscalls.{passeren, verhogen, doio}
use multi_pand_os.P2Test.Program.{Code, ◌>>=◌}
use multi_pand_os.P2Test.Names.{Image, sem_term_mut, recvd, termstatmask}
use multi_pand_os.P2Test.Print.{print_chars, print_codes, command_addr, command_of}
use multi_pand_os.P2Test.Follow.{Asked, call, returned, panicked, behind, follow}

-- The status says that the character has been sent.
abbrev pub received : ℕ → Bool
received status = bit_and status termstatmask == recvd

abbrev pub all_received : List ℕ → Bool
all_received [] = true
all_received (s ∷ ss) = received s && all_received ss

-- DOIO with the command that prints `c`.
abbrev pub sends : ℕ → Asked
sends c = call doio command_addr (command_of c) 0

-- The statuses of the first characters are all good.
print_chars-calls :
    (cs ds ss vs : List ℕ) (f : Unit {0} → Code)
    → length ss ≡ length cs
    → all_received ss ≡ true
    → follow (print_chars (cs ++ ds) >>= f) (ss ++ vs)
      ≡ behind (map sends cs) (follow (print_chars ds >>= f) vs)
unfolding print_chars ◌>>=◌ follow
print_chars-calls [] ds [] vs f same good = refl
print_chars-calls [] ds (s ∷ ss) vs f same good = absurd (omega (arith, same))
print_chars-calls (c ∷ cs) ds [] vs f same good = absurd (omega (arith, same))
print_chars-calls (c ∷ cs) ds (s ∷ ss) vs f same good =
    let now : received s ≡ true = ground (arith, good) in
    let later : all_received ss ≡ true = ground (arith, good) in
    rw now
      (ap (behind (sends c ∷ [])) (print_chars-calls cs ds ss vs f (omega (arith, same)) later))

print_chars-fails :
    (c : ℕ) (cs : List ℕ) (status : ℕ) (vs : List ℕ) (f : Unit {0} → Code)
    → received status ≡ false
    → follow (print_chars (c ∷ cs) >>= f) (status ∷ vs) ≡ (sends c ∷ [], panicked)
unfolding print_chars ◌>>=◌ follow
print_chars-fails c cs status vs f bad = rw bad refl

print_chars-all :
    (cs ss vs : List ℕ) (f : Unit {0} → Code)
    → length ss ≡ length cs
    → all_received ss ≡ true
    → follow (print_chars cs >>= f) (ss ++ vs) ≡ behind (map sends cs) (follow (f tt) vs)
unfolding print_chars ◌>>=◌
print_chars-all cs ss vs f same good =
    subst
      (λ (ds : List ℕ).
        follow (print_chars ds >>= f) (ss ++ vs) ≡ behind (map sends cs) (follow (f tt) vs))
      (append-nil cs) (print_chars-calls cs [] ss vs f same good)

-- `print` asks for PASSEREN on sem_term_mut, for DOIO with the command of each character, in order,
-- and for VERHOGEN on sem_term_mut, and returns: for any text, if the low byte of every status that
-- DOIO answers is RECVD.
pub print_codes-calls :
    (x : Image) (msg ss vs : List ℕ) (p v : ℕ)
    → length ss ≡ length msg
    → all_received ss ≡ true
    → follow (print_codes x msg) (p ∷ ss ++ v ∷ vs) ≡ (
      call passeren (x.at sem_term_mut) 0 0 ∷ map sends msg
          ++ call verhogen (x.at sem_term_mut) 0 0 ∷ [],
      returned vs,
    )
unfolding print_codes ◌>>=◌ follow
print_codes-calls x msg ss vs p v same good =
    ap (behind (call passeren (x.at sem_term_mut) 0 0 ∷ []))
      (print_chars-all msg ss (v ∷ vs) _ same good)

-- `print` panics at the first character for which DOIO answers a status whose low byte is not RECVD:
-- it asks for nothing behind this one, and does not give sem_term_mut back.
pub print_codes-panics :
    (x : Image) (cs : List ℕ) (c : ℕ) (ds ss : List ℕ) (status : ℕ) (vs : List ℕ) (p : ℕ)
    → length ss ≡ length cs
    → all_received ss ≡ true
    → received status ≡ false
    → follow (print_codes x (cs ++ c ∷ ds)) (p ∷ ss ++ status ∷ vs)
      ≡ (call passeren (x.at sem_term_mut) 0 0 ∷ map sends cs ++ sends c ∷ [], panicked)
unfolding print_codes ◌>>=◌ follow
print_codes-panics x cs c ds ss status vs p same good bad =
    ap (behind (call passeren (x.at sem_term_mut) 0 0 ∷ [])) (
      print_chars-calls cs (c ∷ ds) ss (status ∷ vs) _ same good
      ∙ ap (behind (map sends cs)) (print_chars-fails c ds status vs _ bad))
