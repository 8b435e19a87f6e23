-- ===== src/P2Test/Program.antt =====
-- The code of a user process of phase2/p2test.c, as a tree of what it asks of the processor: the
-- answers select the branches. SYSCALL, STCK, STST, LDST, PANIC and the TLB registers are those of
-- the machine's library.
use multi_pand_os.Base.{ℕ, Bool, if◌then◌else◌}
use multi_pand_os.Listx.{update}
use multi_pand_os.Kernel.{Kernel, State}

-- `load` and `store` are accesses to the process's own variables; `peek` and `poke` are accesses
-- through an address that may be no memory. `load_state` is LDST, `out_of_rounds` a loop that was
-- given too few rounds.
pub data Prog {ℓ} (A : Type ℓ) : Type ℓ where
  ret : A → Prog A
  syscall : (number a1 a2 a3 : ℕ) → (ℕ → Prog A) → Prog A
  load : (Kernel → ℕ) → (ℕ → Prog A) → Prog A
  store : (Kernel → Kernel) → Prog A → Prog A
  peek : (address : ℕ) → (ℕ → Prog A) → Prog A
  poke : (address value : ℕ) → Prog A → Prog A
  stck : (ℕ → Prog A) → Prog A
  stst : (State → Prog A) → Prog A
  set_entry_hi set_entry_lo : ℕ → Prog A → Prog A
  tlbwr : Prog A → Prog A
  load_state : (Kernel → State) → Prog A
  panics : Prog A
  out_of_rounds : Prog A

infixl 5 ◌>>=◌ ◌>>◌
unfoldable pub ◌>>=◌ {ℓ κ} : {A : Type ℓ} {B : Type κ} → Prog A → (A → Prog B) → Prog B
ret a >>= f = f a
syscall n a b c g >>= f = syscall n a b c (λ v. g v >>= f)
load r g >>= f = load r (λ v. g v >>= f)
store w p >>= f = store w (p >>= f)
peek a g >>= f = peek a (λ v. g v >>= f)
poke a v p >>= f = poke a v (p >>= f)
stck g >>= f = stck (λ v. g v >>= f)
stst g >>= f = stst (λ s. g s >>= f)
set_entry_hi v p >>= f = set_entry_hi v (p >>= f)
set_entry_lo v p >>= f = set_entry_lo v (p >>= f)
tlbwr p >>= f = tlbwr (p >>= f)
load_state s >>= f = load_state s
panics >>= f = panics
out_of_rounds >>= f = out_of_rounds

abbrev pub ◌>>◌ {ℓ κ} : {A : Type ℓ} {B : Type κ} → Prog A → Prog B → Prog B
p >> q = p >>= (λ _. q)

abbrev pub Code : Type 0
Code = Prog (Unit {0})

abbrev pub nop : Code
nop = ret tt

-- SYSCALL whose answer is kept, and one whose answer is dropped.
abbrev pub ask_nucleus : (number a1 a2 a3 : ℕ) → Prog ℕ
ask_nucleus n a b c = syscall n a b c (λ v. ret v)

abbrev pub call_nucleus : (number a1 a2 a3 : ℕ) → Code
call_nucleus n a b c = syscall n a b c (λ v. nop)

abbrev pub get : (Kernel → ℕ) → Prog ℕ
get r = load r (λ v. ret v)

abbrev pub set_word : (address value : ℕ) → Code
set_word a v = store (λ k. record k { word = update k.word a v }) nop

abbrev pub time_of_day : Prog ℕ
time_of_day = stck (λ v. ret v)

abbrev pub when : Bool → Code → Code
when b p = if b then p else nop
