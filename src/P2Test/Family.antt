-- ===== src/P2Test/Family.antt =====
-- `p8root` and its descendants, `p9` and `p10` of phase2/p2test.c: trees of processes.
use multi_pand_os.Base.{ℕ, zero, suc, ◌+◌}
use multi_pand_os.Kernel.{null}
use multi_pand_os.Exceptions.Syscalls.{termprocess, getprocessid}
use multi_pand_os.P2Test.Program.{
  Code, nop, ◌>>=◌, ◌>>◌, ask_nucleus, call_nucleus, get, panics, when,
}
use multi_pand_os.P2Test.Names.{
  Global, Image, element, noleaves, process_prio_low, sem_endp8, sem_endcreate, sem_blkp8,
  sem_blkp9, child1state, child2state, gchild1state, gchild2state, gchild3state, gchild4state,
  p10state, p8pid, p9pid,
}
use multi_pand_os.Base.{◌==◌, not}
use multi_pand_os.P2Test.Print.{print, passeren_on, verhogen_on, create}
use multi_pand_os.P2Test.Timing.{check_pid}

module _ (x : Image) where
  -- CREATEPROCESS whose answer is dropped.
  abbrev pub start : Global → Code
  start st = create x st process_prio_low null >>= (λ v. nop)

  -- for (grandchild = 0; grandchild < NOLEAVES; grandchild++)
  unfoldable pub await_leaves : (rounds grandchild : ℕ) → Code
  unfolding ◌>>=◌
  await_leaves zero i = nop
  await_leaves (suc rounds) i =
      passeren_on x (element x sem_endcreate i) >> await_leaves rounds (i + 1)

  unfoldable pub p8root : Code
  unfolding ◌>>=◌ await_leaves
  p8root =
      print x "p8root starts\n"
      >> start child1state
      >> start child2state
      >> await_leaves noleaves 0
      >> verhogen_on x (x.at sem_endp8)
      >> call_nucleus termprocess 0 0 0

  unfoldable pub child1 : Code
  unfolding ◌>>=◌ check_pid
  child1 =
      print x "child1 starts\n"
      >> check_pid x 1 p8pid (print x "Inconsistent (parent) process id for p8's first child\n")
      >> start gchild1state
      >> start gchild2state
      >> passeren_on x (x.at sem_blkp8)

  unfoldable pub child2 : Code
  unfolding ◌>>=◌ check_pid
  child2 =
      print x "child2 starts\n"
      >> check_pid x 1 p8pid (print x "Inconsistent (parent) process id for p8's first child\n")
      >> start gchild3state
      >> start gchild4state
      >> passeren_on x (x.at sem_blkp8)

  unfoldable pub p8leaf1 : Code
  unfolding ◌>>=◌
  p8leaf1 =
      print x "leaf process (1) starts\n"
      >> verhogen_on x (element x sem_endcreate 0)
      >> passeren_on x (x.at sem_blkp8)

  unfoldable pub p8leaf2 : Code
  unfolding ◌>>=◌
  p8leaf2 =
      print x "leaf process (2) starts\n"
      >> verhogen_on x (element x sem_endcreate 1)
      >> passeren_on x (x.at sem_blkp8)

  unfoldable pub p8leaf3 : Code
  unfolding ◌>>=◌
  p8leaf3 =
      print x "leaf process (3) starts\n"
      >> verhogen_on x (element x sem_endcreate 2)
      >> passeren_on x (x.at sem_blkp8)

  unfoldable pub p8leaf4 : Code
  unfolding ◌>>=◌
  p8leaf4 =
      print x "leaf process (4) starts\n"
      >> verhogen_on x (element x sem_endcreate 3)
      >> passeren_on x (x.at sem_blkp8)

  unfoldable pub p9 : Code
  unfolding ◌>>=◌
  p9 = print x "p9 starts\n" >> start p10state >> passeren_on x (x.at sem_blkp9)

  unfoldable pub p10 : Code
  unfolding ◌>>=◌
  p10 =
      print x "p10 starts\n"
      >> (ask_nucleus getprocessid 1 0 0 >>= (λ ppid.
          (get (λ k. k.word (x.at p9pid)) >>= (λ known.
            when (not (ppid == known)) (print x "Inconsistent process id for p9!\n" >> panics)))
          >> call_nucleus termprocess ppid 0 0))
      >> print x "Error: p10 didn't die with its parent!\n"
      >> panics
