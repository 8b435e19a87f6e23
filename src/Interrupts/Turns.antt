-- ===== src/Interrupts/Turns.antt =====
-- The slices that the local timer ends, with `handlePLT` of phase2/interrupts.c behind each, and the
-- processes that take turns.
use mathlib.Core.Path.{subst}
use multi_pand_os.Scheduler.{timeslice}
use multi_pand_os.Base.{
  sym, ℕ, zero, suc, ◌<◌, ◌≡◌, ◌≢◌, ◌∙◌, refl, false, List, [], ◌∷◌, ◌++◌, arith, ◌==◌, has,
  has-append, Distinct, Distinct-swap, Option, some, none,
}
use multi_pand_os.Base.Word.{add32}
use multi_pand_os.Listx.{update}
use multi_pand_os.Kernel.{Kernel, Layout, State, null}
use multi_pand_os.Machine.{Machine, Run, stop, ok, out_of_rounds, ldst}
use multi_pand_os.Pcb.Queue.{IsQueue}
use multi_pand_os.Exceptions.Termination.{ncpu}
use multi_pand_os.Interrupts.{handle_plt}
use multi_pand_os.Interrupts.Plt.{handle_plt-ldst}

-- What a process does until the next interrupt: it writes words of the memory, and its
-- state is saved its state.
pub record Slice : Type 0 where
  pub word : ℕ → ℕ
  pub saved_state : State

abbrev pub after_slice : Slice → Kernel → Kernel
after_slice t k = record k {
  word = t.word;
  state_at = update k.state_at k.current_state t.saved_state;
}

-- `handlePLT` at the end of each slice, one run behind the other; the states that LDST loads, in order.
abbrev pub also : State → Option (List State × Kernel) → Option (List State × Kernel)
also s none = none
also s (some (ss, k)) = some (s ∷ ss, k)

abbrev pub follow :
    (Kernel → Option (List State × Kernel)) → Run (Unit {0}) → Option (List State × Kernel)
follow f (stop (ldst s) k) = also s (f k)
follow f (stop h k) = none
follow f (ok a k) = none
follow f out_of_rounds = none

unfoldable pub run_slices : Layout → Machine → List Slice → Kernel → Option (List State × Kernel)
run_slices y m [] k = some ([], k)
run_slices y m (t ∷ ts) k = follow (run_slices y m ts) (handle_plt y m m.prid (after_slice t k))

-- The list with its first element behind the others.
abbrev pub turned : List ℕ → List ℕ
turned [] = []
turned (x ∷ xs) = xs ++ x ∷ []

abbrev pub head_of : List ℕ → ℕ
head_of [] = null
head_of (x ∷ xs) = x

abbrev pub tail_of : List ℕ → List ℕ
tail_of [] = []
tail_of (x ∷ xs) = xs

-- The first elements behind each of the turns.
abbrev pub firsts : ℕ → List ℕ → List ℕ
firsts zero xs = []
firsts (suc n) xs = head_of (turned xs) ∷ firsts n (turned xs)

-- The first of the list is the current process, and the others are ready, in order.
pub record Turn (y : Layout) (m : Machine) (k : Kernel) (xs : List ℕ) : Type 0 where
  pub state : k.current_state ≢ null
  pub current : k.current_process m.prid ≡ head_of xs
  pub queue : IsQueue k y.ready_queue (tail_of xs)
  pub distinct : Distinct (null ∷ y.ready_queue ∷ xs)

-- What one run at the end of a slice does.
pub record Ticked (y : Layout) (m : Machine) (k k' : Kernel) (p : ℕ) (ps : List ℕ) : Type 0 where
  pub turn : Turn y m k' (ps ++ p ∷ [])
  pub states : k'.p_s ≡ k.p_s
  pub charged : k'.p_time p ≡ add32 (k.p_time p) timeslice
  pub spared : (c : ℕ) → (c == p) ≡ false → k'.p_time c ≡ k.p_time c

Distinct-turned :
    (a b p : ℕ) (ps : List ℕ) → Distinct (a ∷ b ∷ p ∷ ps) → Distinct (a ∷ b ∷ ps ++ p ∷ [])
Distinct-turned a b p ps d = (
  ground (arith, d.0, has-append a ps (p ∷ [])),
  (ground (arith, d.1.0, has-append b ps (p ∷ [])), Distinct-swap (p ∷ []) ps d.1.1),
)

tick_to :
    (y : Layout) (m : Machine) (k : Kernel) (t : Slice) (p : ℕ) (ps : List ℕ) (q : ℕ) (qs : List ℕ)
    → m.prid < ncpu
    → Turn y m k (p ∷ ps)
    → ps ++ p ∷ [] ≡ q ∷ qs
    → (k' : Kernel) × (handle_plt y m m.prid (after_slice t k) ≡ stop (ldst (k.p_s q)) k')
      × Ticked y m k k' p ps
tick_to y m k t p ps q qs one w e =
    let off : has p (y.ready_queue ∷ ps) ≡ false =
      ground (arith, w.distinct.1.0, w.distinct.1.1.0) in
    let at : k.current_process m.prid ≢ null =
      λ z. ground (arith, w.distinct.0, sym w.current ∙ z) in
    let (k', stops, queue, current, charged, others, states, state) =
      handle_plt-ldst y m (after_slice t k) ps q qs one w.state at w.queue
        (subst (λ c. has c (y.ready_queue ∷ ps) ≡ false) (sym w.current) off)
        (subst (λ c. ps ++ c ∷ [] ≡ q ∷ qs) (sym w.current) e) in
    (
      k',
      stops,
      record {
        turn = record {
          state = λ z. w.state (sym state ∙ z);
          current = rw e current;
          queue = rw e queue;
          distinct = Distinct-turned null y.ready_queue p ps w.distinct;
        };
        states = states;
        charged = subst (λ c. k'.p_time c ≡ add32 (k.p_time c) timeslice) w.current charged;
        spared = λ c o. others c (subst (λ d. (c == d) ≡ false) (sym w.current) o);
      },
    )

pub tick :
    (y : Layout) (m : Machine) (k : Kernel) (t : Slice) (p : ℕ) (ps : List ℕ)
    → m.prid < ncpu
    → Turn y m k (p ∷ ps)
    → (k' : Kernel) × (handle_plt y m m.prid (after_slice t k)
        ≡ stop (ldst (k.p_s (head_of (turned (p ∷ ps))))) k')
      × Ticked y m k k' p ps
tick y m k t p [] one w = tick_to y m k t p [] p [] one w refl
tick y m k t p (q ∷ qs) one w = tick_to y m k t p (q ∷ qs) q (qs ++ p ∷ []) one w refl
