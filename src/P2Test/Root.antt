-- ===== src/P2Test/Root.antt =====
-- `test` of phase2/p2test.c, the root process.
use Prim.Native.Nat.{bit_or}
use multi_pand_os.Base.{ℕ, zero, suc, ◌+◌, ◌*◌, ◌==◌}
use multi_pand_os.Base.Word.{less_int, add32, sub32}
use multi_pand_os.Listx.{update}
use multi_pand_os.Kernel.{Kernel, null}
use multi_pand_os.Exceptions.Syscalls.{generalexcept}
use multi_pand_os.Dispatcher.{pgfaultexcept}
use multi_pand_os.Initial.{mstatus_mpp_m}
use multi_pand_os.P2Test.Program.{
  Code, nop, ◌>>=◌, ◌>>◌, get, set_word, panics, stst, store, poke, out_of_rounds, when,
}
use multi_pand_os.P2Test.Names.{
  Global, Entry, Image, element, noleaves, qpage, mie_all, mstatus_mie_mask, badaddr,
  process_prio_low, process_prio_high, sem_testsem, sem_startp2, sem_endp2, sem_endp3, sem_blkp4,
  sem_endp5, sem_endp8, sem_endcreate, sem_blkp8, p2state, p3state, p4state, p5state, p6state,
  p7state, p8rootstate, child1state, child2state, gchild1state, gchild2state, gchild3state,
  gchild4state, p9state, p10state, hp_p1state, p2pid, p3pid, p4pid, p8pid, p9pid, p_five_support,
  p1p2synch, p8inc, p5_stack,
}
use multi_pand_os.P2Test.Print.{print, passeren_on, verhogen_on, create}

-- status | MSTATUS_MIE_MASK | MSTATUS_MPP_M
abbrev pub enabled : ℕ → ℕ
enabled status = bit_or status (bit_or mstatus_mie_mask mstatus_mpp_m)

module _ (x : Image) where
  -- The stack pointer of a state of the program.
  abbrev pub stack_of : Global → Kernel → ℕ
  stack_of g k = (k.state_at (x.at g)).gpr x.reg_sp

  -- The state `g` for a process that starts at `f`, with its stack `bytes` below that of `base`.
  unfoldable pub set_up : (g base : Global) (bytes : ℕ) → Entry → Code
  set_up g base bytes f = stst (λ s.
      store (λ k. record k { state_at = update k.state_at (x.at g) s })
        (store
          (λ k.
            let s = k.state_at (x.at g) in
            record k {
              state_at = update k.state_at (x.at g) (record s {
                gpr = update s.gpr x.reg_sp (sub32 (stack_of base k) bytes);
                pc_epc = x.entry f;
                status = enabled s.status;
                mie = mie_all;
              });
            })
          nop))

  unfoldable pub set_up_states : Code
  unfolding ◌>>=◌ set_up
  set_up_states =
      set_up hp_p1state hp_p1state qpage Entry.hp_p1
      >> set_up p2state hp_p1state qpage Entry.p2
      >> set_up p3state p2state qpage Entry.p3
      >> set_up p4state p3state qpage Entry.p4
      >> set_up p5state p4state (2 * qpage) Entry.p5
      >> store (λ k. record k { word = update k.word (x.at p5_stack) (stack_of p5state k) }) nop
      >> set_up p6state p5state (2 * qpage) Entry.p6
      >> set_up p7state p6state qpage Entry.p7
      >> set_up p8rootstate p7state qpage Entry.p8root
      >> set_up child1state p8rootstate qpage Entry.child1
      >> set_up child2state child1state qpage Entry.child2
      >> set_up gchild1state child2state qpage Entry.p8leaf1
      >> set_up gchild2state gchild1state qpage Entry.p8leaf2
      >> set_up gchild3state gchild2state qpage Entry.p8leaf3
      >> set_up gchild4state gchild3state qpage Entry.p8leaf4
      >> set_up p9state gchild4state qpage Entry.p9
      >> set_up p10state p9state qpage Entry.p10

  -- One context of `pFiveSupport`.
  unfoldable pub set_context : (exception_type : ℕ) → Entry → Code
  set_context i f =
      let sup = x.at p_five_support in
      let set = λ (m : ℕ → ℕ → ℕ) (v : ℕ). update m sup (update (m sup) i v) in
      store
        (λ k. record k {
          sup_stack_ptr = set k.sup_stack_ptr (k.word (x.at p5_stack));
          sup_status = set k.sup_status (enabled (k.sup_status sup i));
          sup_pc = set k.sup_pc (x.entry f);
        })
        nop

  -- for (int i = 0; i < NOLEAVES; i++) sem_endcreate[i] = 0;
  unfoldable pub clear_endcreate : (rounds i : ℕ) → Code
  unfolding ◌>>=◌
  clear_endcreate zero i = nop
  clear_endcreate (suc rounds) i =
      set_word (element x sem_endcreate i) 0 >> clear_endcreate rounds (i + 1)

  -- for (p8inc = 0; p8inc < 4; p8inc++)
  unfoldable pub p8_rounds : (rounds : ℕ) → Code
  unfolding ◌>>=◌ clear_endcreate
  p8_rounds zero = out_of_rounds
  p8_rounds (suc rounds) = get (λ k. k.word (x.at p8inc)) >>= (λ n. when (less_int n 4) (
      set_word (x.at sem_blkp8) 0
      >> set_word (x.at sem_endp8) 0
      >> clear_endcreate noleaves 0
      >> (create x p8rootstate process_prio_low null >>= (λ pid. set_word (x.at p8pid) pid))
      >> passeren_on x (x.at sem_endp8)
      >> store (λ k. record k { word = update k.word (x.at p8inc) (add32 (k.word (x.at p8inc)) 1) })
          nop
      >> p8_rounds rounds))

  -- Up to the end of p3.
  unfoldable pub test_start : Code
  unfolding ◌>>=◌ set_up_states
  test_start =
      verhogen_on x (x.at sem_testsem)
      >> print x "p1 v(sem_testsem)\n"
      >> set_up_states
      >> (create x p2state process_prio_low null >>= (λ pid. set_word (x.at p2pid) pid))
      >> print x "p2 was started\n"
      >> verhogen_on x (x.at sem_startp2)
      >> verhogen_on x (x.at sem_endp2)
      >> (get (λ k. k.word (x.at p1p2synch))
          >>= (λ v. when (v == 0) (print x "error: p1/p2 synchronization bad\n")))
      >> (create x p3state process_prio_low null >>= (λ pid. set_word (x.at p3pid) pid))
      >> print x "p3 is started\n"
      >> passeren_on x (x.at sem_endp3)

  -- The processes p4 to p9 and hp_p1, up to the end of p5.
  unfoldable pub test_middle : Code
  unfolding ◌>>=◌ set_context
  test_middle =
      (create x hp_p1state process_prio_high null >>= (λ v. nop))
      >> (create x p4state process_prio_low null >>= (λ pid. set_word (x.at p4pid) pid))
      >> set_context generalexcept Entry.p5gen
      >> set_context pgfaultexcept Entry.p5mm
      >> (create x p5state process_prio_low (x.at p_five_support) >>= (λ v. nop))
      >> (create x p6state process_prio_low null >>= (λ v. nop))
      >> (create x p7state process_prio_low null >>= (λ v. nop))
      >> (create x p9state process_prio_low null >>= (λ pid. set_word (x.at p9pid) pid))
      >> passeren_on x (x.at sem_endp5)
      >> print x "p1 knows p5 ended\n"
      >> passeren_on x (x.at sem_blkp4)

  unfoldable pub test : Code
  unfolding ◌>>=◌ test_start test_middle p8_rounds
  test =
      test_start
      >> test_middle
      >> set_word (x.at p8inc) 0
      >> p8_rounds 5
      >> print x "p1 finishes OK -- TTFN\n"
      >> poke badaddr 0 nop
      >> print x "error: p1 still alive after progtrap & no trap vector\n"
      >> panics
