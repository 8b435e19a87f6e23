-- ===== src/Exceptions/Syscalls/Semaphores.antt =====
-- PASSEREN and VERHOGEN of phase2/exceptions.c on a semaphore's value.
use multi_pand_os.Base.{ℕ, ◌^◌, ◌<◌, ◌≡◌, true, refl, ==_refl, arith}
use multi_pand_os.Base.Word.{add32, sub32, is_positive}
use multi_pand_os.Listx.{update}
use multi_pand_os.Kernel.{Kernel, Layout}
use multi_pand_os.Machine.{Machine, ok, ◌>>◌}
use multi_pand_os.Exceptions.Syscalls.{passeren_call, verhogen_call, saved}

-- The word at the address in a1.
abbrev pub semaddr : Kernel → ℕ
semaddr k = (saved k).gpr 25

pub verhogen_call_eq :
    (y : Layout) (m : Machine) (k : Kernel)
    → is_positive (add32 (k.word (semaddr k)) 1) ≡ true
    → verhogen_call y m k
      ≡ ok tt (record k { word = update k.word (semaddr k) (add32 (k.word (semaddr k)) 1) })
unfolding verhogen_call
verhogen_call_eq y m k pos =
    let w = update k.word (semaddr k) (add32 (k.word (semaddr k)) 1) in
    let after : is_positive (w (semaddr k)) ≡ true = rw (==_refl (semaddr k)) pos in rw after refl

-- A positive semaphore is taken and given back without a process being blocked or woken: the two
-- calls return, and every word of the memory, the semaphore's too, is what it was.
pub passeren-verhogen :
    (y : Layout) (m : Machine) (proc : ℕ) (k : Kernel)
    → 0 < k.word (semaddr k)
    → k.word (semaddr k) < 2 ^ 31
    → (w : ℕ → ℕ) × ((passeren_call y m proc >> verhogen_call y m) k
        ≡ ok tt (record k { word = w }))
      × ((a : ℕ) → w a ≡ k.word a)
unfolding passeren_call verhogen_call
passeren-verhogen y m proc k low high =
    let a = semaddr k in
    let taken = sub32 (k.word a) 1 in
    let w1 = update k.word a taken in
    let w2 = update w1 a (add32 (w1 a) 1) in
    let before : is_positive (k.word a) ≡ true = ground arith in
    let after : is_positive (w2 a) ≡ true = ground arith in
    (w2, rw (before, after), λ b. ground arith)
