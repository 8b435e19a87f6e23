-- ===== src/Interrupts/RoundRobin.antt =====
-- A round of the processor, by `handlePLT` of phase2/interrupts.c: every process has had its turn.
use mathlib.Core.Path.{subst}
use multi_pand_os.Scheduler.{timeslice}
use multi_pand_os.Base.{
  sym, ap, append-nil, length-append, Bool-cases, inl, inr, append_assoc, map, ℕ, suc, ◌<◌, ◌≡◌,
  ◌∙◌, refl, true, false, List, [], ◌∷◌, ◌++◌, arith, ◌==◌, has, has-append, length, some,
}
use multi_pand_os.Base.Word.{add32}
use multi_pand_os.Kernel.{Kernel, Layout}
use multi_pand_os.Machine.{Machine}
use multi_pand_os.Exceptions.Termination.{ncpu}
use multi_pand_os.Interrupts.Turns.{
  Slice, run_slices, also, follow, turned, head_of, firsts, Turn, tick,
}

-- Slices as many as `served` are charged to these, and to no other process.
pub record Charged (k k' : Kernel) (served : List ℕ) : Type 0 where
  pub due : (c : ℕ) → has c served ≡ true → k'.p_time c ≡ add32 (k.p_time c) timeslice
  pub rest : (c : ℕ) → has c served ≡ false → k'.p_time c ≡ k.p_time c

Charged-cons :
    (k k1 k2 : Kernel) (p : ℕ) (served : List ℕ)
    → k1.p_time p ≡ add32 (k.p_time p) timeslice
    → ((c : ℕ) → (c == p) ≡ false → k1.p_time c ≡ k.p_time c)
    → has p served ≡ false
    → Charged k1 k2 served
    → Charged k k2 (p ∷ served)
Charged-cons k k1 k2 p served now others new later = record {
  due = λ c i. elim (Bool-cases (c == p)) [
    | inl e ↦
        let same : c ≡ p = ground arith in
        subst (λ d. k2.p_time d ≡ add32 (k.p_time d) timeslice) (sym same) (later.rest p new ∙ now)
    | inr e ↦ later.due c (ground arith) ∙ ap (λ (v : ℕ). add32 v timeslice) (others c e)
  ];
  rest = λ c o. later.rest c (ground arith) ∙ others c (ground arith);
}

serve_all :
    (y : Layout) (m : Machine) (ts : List Slice) (served others : List ℕ) (k : Kernel)
    → m.prid < ncpu
    → length ts ≡ length served
    → Turn y m k (served ++ others)
    → (k' : Kernel) × (run_slices y m ts k
        ≡ some (map k.p_s (firsts (length served) (served ++ others)), k'))
      × Turn y m k' (others ++ served)
      × (k'.p_s ≡ k.p_s)
      × Charged k k' served
unfolding run_slices
serve_all y m [] [] others k one same w = (
  k,
  refl,
  subst (Turn y m k) (sym (append-nil others)) w,
  refl,
  record { due = λ c i. absurd (ground arith); rest = λ c o. refl },
)
serve_all y m [] (p ∷ ps) others k one same w = absurd (omega (arith, same))
serve_all y m (t ∷ ts) [] others k one same w = absurd (omega (arith, same))
serve_all y m (t ∷ ts) (p ∷ ps) others k one same w =
    let (k1, stops, done) = tick y m k t p (ps ++ others) one w in
    let (k', runs, turn, states, charged) =
      serve_all y m ts ps (others ++ p ∷ []) k1 one (omega (arith, same))
        (subst (Turn y m k1) (append_assoc ps others (p ∷ [])) done.turn) in
    (
      k',
      ap (follow (run_slices y m ts)) stops
          ∙ (ap (also (k.p_s (head_of (turned (p ∷ ps ++ others))))) runs
              ∙ rw (done.states, append_assoc ps others (p ∷ [])) refl),
      subst (Turn y m k') (append_assoc others (p ∷ []) ps) turn,
      states ∙ done.states,
      Charged-cons k k1 k' p ps done.charged done.spared
          (ground (arith, w.distinct.1.1.0, has-append p ps others)) charged,
    )

firsts-length : (xs ys : List ℕ) (p : ℕ) → firsts (length xs) (p ∷ xs ++ ys) ≡ xs
firsts-length [] ys p = refl
firsts-length (x ∷ xs) ys p =
    ap (λ (zs : List ℕ). x ∷ firsts (length xs) (x ∷ zs)) (append_assoc xs ys (p ∷ []))
    ∙ ap (λ (zs : List ℕ). x ∷ zs) (firsts-length xs (ys ++ p ∷ []) x)

firsts-turned : (xs : List ℕ) → firsts (length xs) xs ≡ turned xs
firsts-turned [] = refl
firsts-turned (x ∷ []) = refl
firsts-turned (x ∷ q ∷ qs) =
    let rest = qs ++ x ∷ [] in
    let size : suc (length qs) ≡ length rest = omega (arith, length-append qs (x ∷ [])) in
    ap (λ (n : ℕ). q ∷ firsts n (q ∷ rest)) size
    ∙ (ap (λ (zs : List ℕ). q ∷ firsts (length rest) (q ∷ zs)) (sym (append-nil rest))
        ∙ ap (λ (zs : List ℕ). q ∷ zs) (firsts-length rest [] q))

-- One round of the processor, where `handlePLT` runs at the end of every slice: after as many runs as
-- there are processes, each of these has been loaded once, in the order of the ready queue and the
-- current one last, with the state that its PCB held at the start, and has been charged one slice,
-- and no other process has. The queue is as at the start. This holds whatever the processes write and
-- whatever states are saved at the ends of the slices. It does not say that an exception gets to
-- `handlePLT`.
pub run_slices-round :
    (y : Layout) (m : Machine) (ts : List Slice) (xs : List ℕ) (k : Kernel)
    → m.prid < ncpu
    → length ts ≡ length xs
    → Turn y m k xs
    → (k' : Kernel) × (run_slices y m ts k ≡ some (map k.p_s (turned xs), k'))
      × Turn y m k' xs
      × (k'.p_s ≡ k.p_s)
      × Charged k k' xs
run_slices-round y m ts xs k one same w =
    let (k', runs, turn, states, charged) =
      serve_all y m ts xs [] k one same (subst (Turn y m k) (sym (append-nil xs)) w) in
    (
      k',
      runs
          ∙ ap (λ (zs : List ℕ). some (map k.p_s zs, k'))
              (ap (firsts (length xs)) (append-nil xs) ∙ firsts-turned xs),
      turn,
      states,
      charged,
    )
