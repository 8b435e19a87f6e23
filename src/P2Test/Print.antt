-- ===== src/P2Test/Print.antt =====
-- `print` and `uTLB_RefillHandler` of phase2/p2test.c, and the pieces that its processes share.
use Prim.Native.Nat.{bit_and, bit_or}
use Prim.Native.String.{String}
use multi_pand_os.Base.{ℕ, ◌+◌, ◌*◌, ◌%◌, ◌^◌, not, List, [], ◌∷◌, ◌==◌}
use multi_pand_os.Base.Text.{codes}
use multi_pand_os.Kernel.{Kernel, State}
use multi_pand_os.Exceptions.Syscalls.{createprocess, passeren, verhogen, doio}
use multi_pand_os.P2Test.Program.{
  Code, Prog, nop, ◌>>=◌, ◌>>◌, ask_nucleus, call_nucleus, load_state, panics, set_entry_hi,
  set_entry_lo, tlbwr, when,
}
use multi_pand_os.P2Test.Names.{
  Global, Image, sem_term_mut, term0addr, printchr, recvd, termstatmask,
}

-- base + 3, an address of 4-byte registers
abbrev pub command_addr : ℕ
command_addr = term0addr + 3 * 4

-- PRINTCHR | (((devregtr)*s) << 8)
abbrev pub command_of : ℕ → ℕ
command_of c = bit_or printchr (c * 2 ^ 8 % 2 ^ 32)

unfoldable pub print_chars : List ℕ → Code
unfolding ◌>>=◌
print_chars [] = nop
print_chars (c ∷ cs) =
    ask_nucleus doio command_addr (command_of c) 0
    >>= (λ status. when (not (bit_and status termstatmask == recvd)) panics >> print_chars cs)

module _ (x : Image) where
  unfoldable pub print_codes : List ℕ → Code
  unfolding ◌>>=◌ print_chars
  print_codes msg =
      call_nucleus passeren (x.at sem_term_mut) 0 0
      >> print_chars msg
      >> call_nucleus verhogen (x.at sem_term_mut) 0 0

  abbrev pub print : String → Code
  print msg = print_codes (codes msg)

  -- P and V on a semaphore of the program.
  abbrev pub passeren_on : ℕ → Code
  passeren_on sem = call_nucleus passeren sem 0 0

  abbrev pub verhogen_on : ℕ → Code
  verhogen_on sem = call_nucleus verhogen sem 0 0

  -- CREATEPROCESS with a state of the program.
  abbrev pub create : Global → (priority support : ℕ) → Prog ℕ
  create st priority support = ask_nucleus createprocess (x.at st) priority support

-- The handler of a TLB refill; `saved_state` is the state that GET_EXCEPTION_STATE_PTR finds.
unfoldable pub u_tlb_refill_handler : (saved_state : Kernel → State) → Code
u_tlb_refill_handler saved_state =
    set_entry_hi 0x80000000 (set_entry_lo 0 (tlbwr (load_state saved_state)))
