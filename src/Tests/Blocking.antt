-- ===== src/Tests/Blocking.antt =====
-- The blocking system calls of phase2/exceptions.c at one semaphore.
use multi_pand_os.Base.{◌≡◌, refl, [], ◌∷◌, arith}
use multi_pand_os.Base.Word.{add32, sub32}
use multi_pand_os.Listx.{Links, list_add_tail, list_add_between}
use multi_pand_os.Listx.Ring.{Ring}
use multi_pand_os.Kernel.{Kernel, zero_state}
use multi_pand_os.Machine.{stop, ldst}
use multi_pand_os.Pcb.Queue.{IsQueue}
use multi_pand_os.Exceptions.Syscalls.{passeren_call, do_io, saved}
use multi_pand_os.Exceptions.Syscalls.Blocking.{Blocks, passeren_call-block_on, do_io-block_on}
use multi_pand_os.Tests.Data.{lay, mach, waiting, two_wait}

-- Two processes wait, a third is ready, and all registers of the caller are the semaphore.
abbrev asking_links : Links
asking_links = list_add_tail 1576 400 two_wait

abbrev asking : Kernel
asking = record (waiting 50000) {
  links = asking_links;
  state_at = λ a. record zero_state { gpr = λ i. 50000 };
}

asking-Blocks : Blocks lay asking 1384 50000 6000 [] [] (1000 ∷ 1192 ∷ []) 1576 []
unfolding list_add_tail list_add_between
asking-Blocks = record {
  located = record {
    actives = record {
      ring = record {
        chain = ((refl, refl), tt);
        closed = (refl, refl);
        distinct = (refl, (refl, tt));
      };
      few = omega arith;
    };
    key = refl;
    first = tt;
  };
  waiters = record {
    chain = ((refl, refl), ((refl, refl), tt));
    closed = (refl, refl);
    distinct = (refl, (refl, (refl, tt)));
  };
  fresh = refl;
  ready = record {
    chain = ((refl, refl), tt);
    closed = (refl, refl);
    distinct = (refl, (refl, tt));
  };
  apart = (refl, (refl, (refl, (refl, tt))));
}

passeren_call-block_on_example :
    (k' : Kernel) × (passeren_call lay mach 1384 asking ≡ stop (ldst zero_state) k')
    × Ring k'.links 6004 (1000 ∷ 1192 ∷ 1384 ∷ [])
    × IsQueue k' 400 []
    × (k'.p_s 1384 ≡ saved asking)
    × (k'.p_sem_add 1384 ≡ 50000)
    × (k'.waiting_count ≡ add32 2 1)
    × (k'.word 50000 ≡ sub32 0 1)
passeren_call-block_on_example =
    passeren_call-block_on lay mach asking 1384 6000 [] [] (1000 ∷ 1192 ∷ []) 1576 [] refl
      asking-Blocks

do_io-block_on_example :
    (k' : Kernel) × (do_io lay mach 1384 asking ≡ stop (ldst zero_state) k')
    × Ring k'.links 6004 (1000 ∷ 1192 ∷ 1384 ∷ [])
    × IsQueue k' 400 []
    × (k'.p_s 1384 ≡ saved asking)
    × (k'.p_sem_add 1384 ≡ 50000)
    × (k'.waiting_count ≡ add32 2 1)
    × (k'.word 50000 ≡ 50000)
do_io-block_on_example =
    do_io-block_on lay mach asking 1384 6000 [] [] (1000 ∷ 1192 ∷ []) 1576 [] asking-Blocks
