-- ===== src/P2Test/Traps.antt =====
-- `p4`, `p5` and its handlers, `p6` and `p7` of phase2/p2test.c: terminations and traps.
use Prim.Native.Nat.{bit_and, bit_or}
use multi_pand_os.Base.{ℕ, ◌-◌, ◌*◌, ◌/◌, ◌%◌, ◌^◌, ◌==◌, not, if◌then◌else◌}
use multi_pand_os.Base.Word.{add32, sub32}
use multi_pand_os.Listx.{update}
use multi_pand_os.Kernel.{State}
use multi_pand_os.Exceptions.Syscalls.{generalexcept, getsupportptr}
use multi_pand_os.Dispatcher.{pgfaultexcept}
use multi_pand_os.Initial.{mstatus_mpp_m}
use multi_pand_os.P2Test.Program.{
  Code, nop, ◌>>=◌, ◌>>◌, ask_nucleus, call_nucleus, get, set_word, peek, poke, store, load_state,
  panics, when,
}
use multi_pand_os.P2Test.Names.{
  Entry, Image, buserror, addrerror, msyscallexcpt, qpage, badaddr, process_prio_low, sem_blkp4,
  sem_synp4, sem_endp4, sem_endp5, p4state, p4inc, p4pid, p_five_support, p5_mem_location,
}
use multi_pand_os.P2Test.Print.{print, passeren_on, verhogen_on, create}
use multi_pand_os.P2Test.Timing.{check_pid, terminate_self, await_tick}

module _ (x : Image) where
  -- The `switch` on the incarnation number.
  unfoldable pub announce_p4 : (p4inc : ℕ) → Code
  unfolding ◌>>=◌
  announce_p4 n =
      if n == 1
      then print x "first incarnation of p4 starts\n" >> set_word (x.at p4inc) (add32 n 1)
      else when (n == 2) (print x "second incarnation of p4 starts\n")

  -- p4state.reg_sp -= QPAGE
  unfoldable pub lower_stack : Code
  lower_stack =
      store
        (λ k.
          let st = k.state_at (x.at p4state) in
          record k {
            state_at =
                update k.state_at (x.at p4state)
                  (record st { gpr = update st.gpr x.reg_sp (sub32 (st.gpr x.reg_sp) qpage) });
          })
        nop

  unfoldable pub p4 : Code
  unfolding ◌>>=◌ announce_p4 check_pid lower_stack terminate_self
  p4 =
      (get (λ k. k.word (x.at p4inc)) >>= announce_p4)
      >> check_pid x 0 p4pid (print x "Inconsistent process id for p4!\n")
      >> verhogen_on x (x.at sem_synp4)
      >> passeren_on x (x.at sem_blkp4)
      >> passeren_on x (x.at sem_synp4)
      >> lower_stack
      >> (create x p4state process_prio_low 0 >>= (λ pid. set_word (x.at p4pid) pid))
      >> passeren_on x (x.at sem_synp4)
      >> print x "p4 is OK\n"
      >> verhogen_on x (x.at sem_endp4)
      >> terminate_self x (print x "error: p4 didn't terminate\n")

  -- A write to `sup_exceptState[i]` of `pFiveSupport`, and LDST from there.
  abbrev pub with_except : (i : ℕ) → (State → State) → Code
  with_except i f =
      store
        (λ k. record k {
          state_at = update k.state_at (x.except_state i) (f (k.state_at (x.except_state i)));
        })
        nop

  abbrev pub load_except : (i : ℕ) → Code
  load_except i = load_state (λ k. k.state_at (x.except_state i))

  unfoldable pub p5sys : Code
  unfolding ◌>>=◌
  p5sys =
      (get (λ k. (k.state_at (x.except_state generalexcept)).status) >>= (λ status.
        let p5status = status * 2 ^ 28 % 2 ^ 32 / 2 ^ 31 in
        if p5status == 1
        then print x "High level SYS call from user mode process\n"
        else when (p5status == 0) (print x "High level SYS call from kernel mode process\n")))
      >> with_except generalexcept (λ st. record st { pc_epc = add32 st.pc_epc 4 })
      >> load_except generalexcept

  -- The `switch` on the code of the trap.
  unfoldable pub handle_trap : (exe_code : ℕ) → Code
  unfolding ◌>>=◌ p5sys
  handle_trap code =
      if code == buserror
      then print x "Bus Error (as expected): Access non-existent memory\n"
        >> with_except generalexcept (λ st. record st { pc_epc = x.entry Entry.p5a })
      else if code == addrerror
      then print x "Address Error (as expected): non-kuseg access w/KU=1\n"
        >> with_except generalexcept (λ st. record st {
          status = bit_or st.status mstatus_mpp_m;
          pc_epc = x.entry Entry.p5b;
        })
      else if code == msyscallexcpt
      then p5sys
      else print x "ERROR: other program trap\n" >> panics

  unfoldable pub p5gen : Code
  unfolding ◌>>=◌ handle_trap
  p5gen =
      (get (λ k. (k.state_at (x.except_state generalexcept)).cause) >>= handle_trap)
      >> load_except generalexcept

  unfoldable pub p5mm : Code
  unfolding ◌>>=◌
  p5mm =
      print x "memory management trap\n"
      >> (ask_nucleus getsupportptr 0 0 0 >>= (λ a.
          if not (a == x.at p_five_support)
          then print x "Support Structure Address Error\n"
          else print x "Correct Support Structure Address\n"))
      >> with_except pgfaultexcept (λ st. record st {
        status = bit_and st.status (0xffffffff - mstatus_mpp_m);
        pc_epc = x.entry Entry.p5b;
      })
      >> load_except pgfaultexcept

  -- *p5MemLocation = *p5MemLocation + 1
  unfoldable pub p5 : Code
  unfolding ◌>>=◌
  p5 =
      print x "p5 starts\n"
      >> (get (λ k. k.word (x.at p5_mem_location)) >>= (λ a. peek a (λ v. poke a (add32 v 1) nop)))

  unfoldable pub p5a : Code
  unfolding ◌>>=◌
  p5a = set_word (x.at p5_mem_location) 0x80000000 >> poke 0x80000000 42 nop

  unfoldable pub p5b : (rounds : ℕ) → Code
  unfolding ◌>>=◌ await_tick terminate_self
  p5b rounds =
      call_nucleus 1 0 0 0
      >> passeren_on x (x.at sem_endp4)
      >> await_tick x rounds 0 0
      >> verhogen_on x (x.at sem_blkp4)
      >> verhogen_on x (x.at sem_endp5)
      >> terminate_self x (print x "error: p5 didn't terminate\n")

  unfoldable pub p6 : Code
  unfolding ◌>>=◌
  p6 =
      print x "p6 starts\n"
      >> call_nucleus 1 0 0 0
      >> print x "error: p6 alive after SYS9() with no trap vector\n"
      >> panics

  unfoldable pub p7 : Code
  unfolding ◌>>=◌
  p7 =
      print x "p7 starts\n"
      >> poke badaddr 0 nop
      >> print x "error: p7 alive after program trap with no trap vector\n"
      >> panics
