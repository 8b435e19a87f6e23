-- ===== src/Tests/Create.antt =====
-- CREATEPROCESS of phase2/exceptions.c with one free PCB.
use multi_pand_os.Base.{◌≡◌, refl, [], ◌∷◌, arith}
use multi_pand_os.Base.Word.{add32}
use multi_pand_os.Listx.{list_add_tail, list_add_between}
use multi_pand_os.Listx.Ring.{Ring}
use multi_pand_os.Kernel.{Kernel, zero_state}
use multi_pand_os.Machine.{ok}
use multi_pand_os.Pcb.Queue.{IsQueue}
use multi_pand_os.Pcb.Tree.{Family}
use multi_pand_os.Exceptions.Syscalls.{create_process, saved}
use multi_pand_os.Exceptions.Syscalls.Create.{Creates, create_process-child}
use multi_pand_os.Tests.Data.{lay, mach, alone, memory}

-- The PCB at 1192 is free; the one at 1000 runs.
abbrev one_free : Kernel
one_free = memory (list_add_tail 1192 100 alone)

one_free-Creates : Creates lay one_free 1000 1192 [] [] []
unfolding list_add_tail list_add_between
one_free-Creates = record {
  free = record {
    chain = ((refl, refl), tt);
    closed = (refl, refl);
    distinct = (refl, (refl, tt));
  };
  real = omega arith;
  ready = record { chain = tt; closed = (refl, refl); distinct = (refl, tt) };
  family = record {
    ring = record { chain = tt; closed = (refl, refl); distinct = (refl, tt) };
    parents = tt;
  };
  heads_free = (refl, (refl, (refl, (refl, tt))));
  heads_ready = (refl, (refl, (refl, (refl, tt))));
  heads_family = (refl, (refl, (refl, (refl, tt))));
  free_ready = (refl, (refl, tt));
  free_family = (refl, (refl, tt));
  ready_family = (refl, tt);
  stranger = refl;
}

create_process-child_example :
    (k' : Kernel) × (create_process lay mach 1000 one_free ≡ ok tt k')
    × IsQueue k' 400 (1192 ∷ [])
    × Family k' 1000 (1192 ∷ [])
    × Ring k'.links 100 []
    × (k'.p_s 1192 ≡ zero_state)
    × (k'.p_support_struct 1192 ≡ 0)
    × (k'.p_pid 1192 ≡ 1)
    × (k'.process_count ≡ add32 0 1)
    × ((saved k').gpr 2 ≡ 0)
create_process-child_example =
    create_process-child lay mach one_free 1000 1192 [] [] [] one_free-Creates
