-- ===== src/Machine.antt =====
-- What the nucleus asks of the machine, whose library is not part of the repository: register
-- reads and the spin lock are parameters, and a call that gives the processor away is recorded
-- with the memory at that moment.
use multi_pand_os.Base.{ℕ, Bool, Option, none, some, ◌≡◌, if◌then◌else◌}
use multi_pand_os.Kernel.{Kernel, State}

-- `interrupt_dev`, the three status words (by line from IL_DISK on and by device) and the command
-- ACK are those of the machine's device registers.
-- `reg_sp` is the register that the machine's headers name so, and `init_cpu` is INITCPU.
-- `stray_pid` is the word that `->p_pid` reads through NULL, among those of the machine.
-- `ldit` is what LDIT writes to the interval timer for its argument: by its documentation, the
-- argument times the word at TIMESCALEADDR.
-- `getPRID`, `getCAUSE`, `STCK`, the word at TIMESCALEADDR, and the lock macros: `acquire` is given
-- the word of the lock and returns its new word, or `none` if the caller spins on it.
pub record Machine : Type 0 where
  pub prid : ℕ
  pub cause : ℕ
  pub tod : ℕ
  pub timescale : ℕ
  pub ldit : ℕ → ℕ
  pub interrupt_dev : ℕ → ℕ
  pub dtp_status : ℕ → ℕ → ℕ
  pub recv_status : ℕ → ℕ → ℕ
  pub transm_status : ℕ → ℕ → ℕ
  pub ack : ℕ
  pub reg_sp : ℕ
  pub init_cpu : ℕ → State → Kernel → Kernel
  pub stray_pid : Kernel → ℕ
  pub acquire : ℕ → Option ℕ
  pub release : ℕ → ℕ

-- The documented behaviour of the lock macros: 0 is free and 1 is held.
pub record IsSpinLock (m : Machine) : Type 0 where
  pub take_free : m.acquire 0 ≡ some 1
  pub wait_held : m.acquire 1 ≡ none
  pub give_back : (w : ℕ) → m.release w ≡ 0

-- How the nucleus gives the processor away: LDST, LDCXT, WAIT and PANIC, a lock that is never
-- freed, a call through `__builtin_unreachable`, and a PCB pointer that is none.
pub data Stop : Type 0 where
  ldst : State → Stop
  ldcxt : (stack_ptr status pc : ℕ) → Stop
  wait panic spin unreachable wild : Stop

pub data Run {ℓ} (A : Type ℓ) : Type ℓ where
  ok : A → Kernel → Run A
  stop : Stop → Kernel → Run A
  out_of_rounds : Run A

abbrev pub Cmd {ℓ} : Type ℓ → Type ℓ
Cmd A = Kernel → Run A

abbrev pub and_then {ℓ κ} : {A : Type ℓ} {B : Type κ} → Run A → (A → Cmd B) → Run B
and_then (ok a k) f = f a k
and_then (stop s k) f = stop s k
and_then out_of_rounds f = out_of_rounds

infixl 5 ◌>>=◌ ◌>>◌
abbrev pub ◌>>=◌ {ℓ κ} : {A : Type ℓ} {B : Type κ} → Cmd A → (A → Cmd B) → Cmd B
◌>>=◌ m f k = and_then (m k) f

abbrev pub ◌>>◌ {ℓ κ} : {A : Type ℓ} {B : Type κ} → Cmd A → Cmd B → Cmd B
◌>>◌ m n k = and_then (m k) (λ _. n)

abbrev pub skip : Cmd (Unit {0})
skip k = ok tt k

abbrev pub halt_with {ℓ} : {A : Type ℓ} → Stop → Cmd A
halt_with s k = stop s k

abbrev pub read {ℓ} : {A : Type ℓ} → (Kernel → A) → Cmd A
read f k = ok (f k) k

abbrev pub modify : (Kernel → Kernel) → Cmd (Unit {0})
modify f k = ok tt (f k)

-- A function of phase1 that returns a value and writes the memory.
abbrev pub call {ℓ} : {A : Type ℓ} → (Kernel → A × Kernel) → Cmd A
call f k = let (a, k') = f k in ok a k'

-- The same with a loop inside.
abbrev pub looped {ℓ} : {A : Type ℓ} → Option (A × Kernel) → Run A
looped none = out_of_rounds
looped (some (a, k)) = ok a k

abbrev pub call_loop {ℓ} : {A : Type ℓ} → (Kernel → Option (A × Kernel)) → Cmd A
call_loop f k = looped (f k)

-- The same for one that writes nothing.
abbrev pub asked {ℓ} : {A : Type ℓ} → Option A → Cmd A
asked none k = out_of_rounds
asked (some a) k = ok a k

abbrev pub ask {ℓ} : {A : Type ℓ} → (Kernel → Option A) → Cmd A
ask f k = asked (f k) k

abbrev pub panic_if : Bool → Cmd (Unit {0})
panic_if b k = if b then stop panic k else ok tt k

abbrev locked : Option ℕ → Cmd (Unit {0})
locked none k = stop spin k
locked (some w) k = ok tt (record k { global_lock = w })

abbrev pub acquire_lock : Machine → Cmd (Unit {0})
acquire_lock m k = locked (m.acquire k.global_lock) k

abbrev pub release_lock : Machine → Cmd (Unit {0})
release_lock m = modify (λ k. record k { global_lock = m.release k.global_lock })
