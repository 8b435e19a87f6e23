-- ===== src/P2Test/Timing.antt =====
-- `p2`, `p3` and `hp_p1` of phase2/p2test.c: semaphores, times and the clock.
use multi_pand_os.Base.{ℕ, zero, suc, ◌+◌, ◌/◌, not, ltb, ◌&&◌, ◌==◌, if◌then◌else◌}
use multi_pand_os.Base.Word.{sub32, less_int, quotient_int}
use multi_pand_os.Exceptions.Syscalls.{clockwait, gettime, getprocessid, termprocess}
use multi_pand_os.P2Test.Program.{
  Code, nop, ◌>>=◌, ◌>>◌, ask_nucleus, call_nucleus, get, set_word, time_of_day, peek, panics,
  out_of_rounds, when,
}
use multi_pand_os.P2Test.Names.{
  Global, Image, element, maxsem, clockinterval, minlooptime, clockloop, minclockloop,
  timescaleaddr, s, sem_startp2, sem_endp2, sem_endp3, p2pid, p3pid, p1p2synch,
}
use multi_pand_os.P2Test.Print.{print, passeren_on, verhogen_on}

module _ (x : Image) where
  -- int pid = SYSCALL(GETPROCESSID, ...); if (pid != ...) { print(...); PANIC(); }
  unfoldable pub check_pid : (parent : ℕ) → Global → Code → Code
  unfolding ◌>>=◌
  check_pid parent g complain = ask_nucleus getprocessid parent 0 0 >>= (λ pid.
      get (λ k. k.word (x.at g)) >>= (λ known. when (not (pid == known)) (complain >> panics)))

  -- TERMPROCESS of the process itself, and what follows if it comes back.
  unfoldable pub terminate_self : Code → Code
  unfolding ◌>>=◌
  terminate_self complain = call_nucleus termprocess 0 0 0 >> complain >> panics

  -- for (i = 0; i <= MAXSEM; i++) s[i] = 0;
  unfoldable pub clear_s : (rounds i : ℕ) → Code
  unfolding ◌>>=◌
  clear_s zero i = nop
  clear_s (suc rounds) i = set_word (element x s i) 0 >> clear_s rounds (i + 1)

  -- V, then P, all of the semaphores in the s[] array.
  unfoldable pub pair_semaphores : (rounds i : ℕ) → Code
  unfolding ◌>>=◌
  pair_semaphores zero i = nop
  pair_semaphores (suc rounds) i =
      verhogen_on x (element x s i)
      >> passeren_on x (element x s i)
      >> (get (λ k. k.word (element x s i))
          >>= (λ v. when (not (v == 0)) (print x "error: p2 bad v/p pairs\n")))
      >> pair_semaphores rounds (i + 1)

  -- The judgement on the times of day and the processor times, `scale` being the machine's.
  unfoldable pub judge_times : (now1 now2 cpu_t1 cpu_t2 scale : ℕ) → Code
  unfolding ◌>>=◌
  judge_times now1 now2 cpu_t1 cpu_t2 scale =
      let real = sub32 now2 now1 in
      let used = sub32 cpu_t2 cpu_t1 in
      let least = quotient_int minlooptime scale in
      if not (less_int real used) && not (less_int used least)
      then print x "p2 is OK\n"
      else when (less_int real used) (print x "error: more cpu time than real time\n")
        >> when (less_int used least) (print x "error: not enough cpu time went by\n")
        >> print x "p2 blew it!\n"

  unfoldable pub p2 : Code
  unfolding ◌>>=◌ check_pid clear_s pair_semaphores judge_times terminate_self
  p2 =
      passeren_on x (x.at sem_startp2)
      >> print x "p2 starts\n"
      >> check_pid 0 p2pid (print x "Inconsistent process id for p2!\n")
      >> clear_s (maxsem + 1) 0
      >> pair_semaphores (maxsem + 1) 0
      >> print x "p2 v's successfully\n"
      >> (time_of_day >>= (λ now1. ask_nucleus gettime 0 0 0 >>= (λ cpu_t1.
          ask_nucleus gettime 0 0 0 >>= (λ cpu_t2. time_of_day >>= (λ now2.
            peek timescaleaddr (λ scale. judge_times now1 now2 cpu_t1 cpu_t2 scale))))))
      >> set_word (x.at p1p2synch) 1
      >> passeren_on x (x.at sem_endp2)
      >> terminate_self (print x "error: p2 didn't terminate\n")

  -- while (time2 - time1 < (CLOCKINTERVAL >> 1)) { STCK; CLOCKWAIT; STCK }
  unfoldable pub await_tick : (rounds time1 time2 : ℕ) → Code
  unfolding ◌>>=◌
  await_tick zero time1 time2 = out_of_rounds
  await_tick (suc rounds) time1 time2 = when (ltb (sub32 time2 time1) (clockinterval / 2)) (
      time_of_day
      >>= (λ t1. call_nucleus clockwait 0 0 0 >> (time_of_day >>= (λ t2. await_tick rounds t1 t2))))

  -- SYSCALL(CLOCKWAIT, 0, 0, 0) in a loop.
  unfoldable pub wait_ticks : (rounds : ℕ) → Code
  unfolding ◌>>=◌
  wait_ticks zero = nop
  wait_ticks (suc rounds) = call_nucleus clockwait 0 0 0 >> wait_ticks rounds

  unfoldable pub p3 : (rounds : ℕ) → Code
  unfolding ◌>>=◌ await_tick wait_ticks check_pid terminate_self
  p3 rounds =
      await_tick rounds 0 0
      >> print x "p3 - CLOCKWAIT OK\n"
      >> (ask_nucleus gettime 0 0 0 >>= (λ cpu_t1.
          wait_ticks clockloop
          >> (ask_nucleus gettime 0 0 0 >>= (λ cpu_t2. peek timescaleaddr (λ scale.
              if less_int (sub32 cpu_t2 cpu_t1) (quotient_int minclockloop scale)
              then print x "error: p3 - CPU time incorrectly maintained\n"
              else print x "p3 - CPU time correctly maintained\n")))))
      >> check_pid 0 p3pid (print x "Inconsistent process id for p3!\n")
      >> verhogen_on x (x.at sem_endp3)
      >> terminate_self (print x "error: p3 didn't terminate\n")

  unfoldable pub hp_p1 : Code
  unfolding ◌>>=◌ wait_ticks terminate_self
  hp_p1 =
      print x "hp_p1 starts\n"
      >> wait_ticks 10
      >> terminate_self (print x "Error: hp_p1 didn't die!\n")
