-- ===== src/Interrupts/Answered.antt =====
-- The acknowledgement of devices, by `deviceHandler` of phase2/interrupts.c.
use multi_pand_os.Base.{
  ℕ, ◌+◌, ◌≡◌, ◌∙◌, refl, ap, Bool, false, not, ◌&&◌, ◌||◌, ◌==◌, arith, Bool-cases, inl, inr,
  if◌then◌else◌,
}
use multi_pand_os.Base.Word.{tests_bit}
use multi_pand_os.Kernel.{Kernel, Layout}
use multi_pand_os.Machine.{Machine, ok}
use multi_pand_os.Interrupts.{acknowledge, il_disk, il_terminal, dev0on}

abbrev pub terminal : ℕ → Bool
terminal line = line + il_disk == il_terminal

-- Bit 0 of the transmitter's status, which READY (1), BUSY (3) and TRANSMITTED (5) all have.
abbrev pub transmitter_on : Machine → ℕ → ℕ → Bool
transmitter_on m line dev = tests_bit (m.transm_status line dev) dev0on

-- The command words after the devices `done` have been acknowledged.
abbrev pub answered : Machine → (ℕ → ℕ → Bool) → Kernel → Kernel
answered m done k = record k {
  command = λ l d. if done l d && not (terminal l) then m.ack else k.command l d;
  recv_command = λ l d.
      if done l d && (terminal l && not (transmitter_on m l d)) then m.ack else k.recv_command l d;
  transm_command = λ l d.
      if done l d && (terminal l && transmitter_on m l d) then m.ack else k.transm_command l d;
}

module _ (k : Kernel) {c c' rc rc' tc tc' : ℕ → ℕ → ℕ} where
  same_devices :
      ((l d : ℕ) → c l d ≡ c' l d)
      → ((l d : ℕ) → rc l d ≡ rc' l d)
      → ((l d : ℕ) → tc l d ≡ tc' l d)
      → (record k { command = c; recv_command = rc; transm_command = tc })
        ≡ record k { command = c'; recv_command = rc'; transm_command = tc' }
  same_devices p q r = λ i. record k {
    command = λ l d. p l d i;
    recv_command = λ l d. q l d i;
    transm_command = λ l d. r l d i;
  }

pub answered-twice :
    (m : Machine) (k : Kernel) (a b both : ℕ → ℕ → Bool)
    → ((l d : ℕ) → (a l d || b l d) ≡ both l d)
    → answered m b (answered m a k) ≡ answered m both k
answered-twice m k a b both e =
    same_devices k (λ l d. ground (arith, e l d)) (λ l d. ground (arith, e l d))
      (λ l d. ground (arith, e l d))

pub answered-none :
    (m : Machine) (k : Kernel) (a : ℕ → ℕ → Bool) → ((l d : ℕ) → a l d ≡ false) → answered m a k ≡ k
answered-none m k a e =
    same_devices k (λ l d. ground (arith, e l d)) (λ l d. ground (arith, e l d))
      (λ l d. ground (arith, e l d))

abbrev pub one_device : ℕ → ℕ → ℕ → ℕ → Bool
one_device line dev l d = l == line && d == dev

at_device :
    (g : ℕ → ℕ → Bool) (line dev l d : ℕ)
    → (one_device line dev l d && g l d) ≡ (one_device line dev l d && g line dev)
at_device g line dev l d = elim (Bool-cases (l == line)) [
  | inl i ↦ elim (Bool-cases (d == dev)) [
    | inl j ↦
        let same : l ≡ line = ground arith in
        let same' : d ≡ dev = ground arith in rw (same, same') refl
    | inr j ↦ ground arith
  ]
  | inr i ↦ ground arith
]

-- The branches of the acknowledgement, by the device itself.
acknowledged : Machine → (line dev : ℕ) → Kernel → Kernel
acknowledged m line dev k = record k {
  command = λ l d. if one_device line dev l d && not (terminal line) then m.ack else k.command l d;
  recv_command = λ l d.
      if one_device line dev l d && (terminal line && not (transmitter_on m line dev))
      then m.ack
      else k.recv_command l d;
  transm_command = λ l d.
      if one_device line dev l d && (terminal line && transmitter_on m line dev)
      then m.ack
      else k.transm_command l d;
}

acknowledged-answered :
    (m : Machine) (line dev : ℕ) (k : Kernel)
    → acknowledged m line dev k ≡ answered m (one_device line dev) k
unfolding acknowledged
acknowledged-answered m line dev k =
    same_devices k (λ l d. rw (at_device (λ a b. not (terminal a)) line dev l d) refl)
      (λ l d. rw (at_device (λ a b. terminal a && not (transmitter_on m a b)) line dev l d) refl)
      (λ l d. rw (at_device (λ a b. terminal a && transmitter_on m a b) line dev l d) refl)

acknowledge-acknowledged :
    (y : Layout) (m : Machine) (line dev : ℕ) (k : Kernel)
    → (status : ℕ) × (acknowledge y m line dev k ≡ ok status (acknowledged m line dev k))
unfolding acknowledge acknowledged
acknowledge-acknowledged y m line dev k = elim (Bool-cases (terminal line)) [
  | inl t ↦ elim (Bool-cases (transmitter_on m line dev)) [
    | inl s ↦
        rw (t, s)
          (
            m.transm_status line dev,
            ap (ok (m.transm_status line dev))
                (same_devices k (λ l d. ground arith) (λ l d. ground arith) (λ l d. ground arith)),
          )
    | inr s ↦
        rw (t, s)
          (
            m.recv_status line dev,
            ap (ok (m.recv_status line dev))
                (same_devices k (λ l d. ground arith) (λ l d. ground arith) (λ l d. ground arith)),
          )
  ]
  | inr t ↦ rw t (
    m.dtp_status line dev,
    ap (ok (m.dtp_status line dev))
        (same_devices k (λ l d. ground arith) (λ l d. ground arith) (λ l d. ground arith)),
  )
]

pub acknowledge-answered :
    (y : Layout) (m : Machine) (line dev : ℕ) (k : Kernel)
    → (status : ℕ) × (acknowledge y m line dev k ≡ ok status (answered m (one_device line dev) k))
acknowledge-answered y m line dev k =
    let (status, e) = acknowledge-acknowledged y m line dev k in
    (status, e ∙ ap (ok status) (acknowledged-answered m line dev k))
