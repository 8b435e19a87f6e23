-- ===== src/P1Test/Passes.antt =====
-- The run of `main` of phase1/p1test.c.
use multi_pand_os.Base.{ℕ, ◌≡◌, refl, none, some, Option}
use multi_pand_os.Listx.{
  list_for_each, list_del, list_add, list_add_tail, list_empty, list_add_between, init_list_head,
}
use multi_pand_os.Kernel.{Layout}
use multi_pand_os.Pcb.{
  init_pcbs, init_pcbs_from, alloc_pcb, free_pcb, mk_empty_proc_q, empty_proc_q, insert_proc_q,
  head_proc_q, remove_proc_q, out_proc_q, empty_child, insert_child, remove_child, out_child,
}
use multi_pand_os.Asl.{
  init_asl, init_asl_from, insert_blocked, remove_blocked, out_blocked, head_blocked,
}
use multi_pand_os.P1Test.Terminal.{termprint, Devices}
use multi_pand_os.P1Test.State.{add_ok_codes, Bench, Setting, Result, done}
use multi_pand_os.P1Test.Main.{main}

-- An example of where the linker places the tables and the lists.
abbrev pub linked : Layout
linked = record {
  pcb_free_h = 100;
  pcb_free_table = 1000;
  sizeof_pcb = 192;
  semd_free_h = 200;
  semd_h = 300;
  semd_table = 6000;
  sizeof_semd = 20;
  ready_queue = 400;
  dev_semaph = 50000;
  test = 70000;
  tlb_refill_entry = 70100;
  exception_entry = 70200;
  schedule_entry = 70300;
  state_gpr_len = 32;
}

-- A terminal that has transmitted whenever it is asked.
abbrev pub quick : Devices
quick = record {
  dev_per_int = 8;
  dev_reg_size = 16;
  dev_reg_len = 4;
  tran_status = 2;
  tran_command = 3;
  ready = 1;
  busy = 3;
  register = λ a w r. 5;
}

abbrev pub setting : Setting
setting = record {
  layout = linked;
  devices = quick;
  qa = 900;
  sem = 80000;
  onesem = 90000;
  patience = 3;
}

-- The value that `main` returns, and the index in `okbuf` that `mp` has then.
pub answer : Result ℕ → Option (ℕ × ℕ)
answer (done v b) = some (v, b.mp)
answer _ = none

-- The program as it starts: `pcbFree_h`, `semdFree_h` and `semd_h` are initialised where they are
-- declared, and `mp` points to the start of `okbuf`.
unfoldable pub loaded : Bench → Bench
loaded b = record b {
  mp = 0;
  kernel = record b.kernel {
    links =
        init_list_head linked.pcb_free_h
          (init_list_head linked.semd_free_h (init_list_head linked.semd_h b.kernel.links));
  };
}

-- On the modules of phase 1, `main` returns 0, no check of it failed, and the messages take 645 of
-- the 2048 characters of `okbuf`: whatever the tables of PCBs and semaphore descriptors, the buffers
-- and the other globals hold when it starts, on this layout of the memory and with this terminal.
main_passes : (b : Bench) → answer (main setting (loaded b)) ≡ some (0, 645)
unfolding main loaded init_pcbs alloc_pcb free_pcb mk_empty_proc_q empty_proc_q insert_proc_q
    head_proc_q remove_proc_q out_proc_q empty_child insert_child remove_child out_child init_asl
    insert_blocked remove_blocked out_blocked head_blocked list_for_each list_del list_add
    list_add_tail answer add_ok_codes termprint list_empty init_pcbs_from list_add_between
    init_list_head init_asl_from
main_passes b = refl
