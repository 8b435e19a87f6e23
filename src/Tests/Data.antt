-- ===== src/Tests/Data.antt =====
-- A memory layout, a machine, and memories in which every list is empty or holds a few PCBs.
use multi_pand_os.Base.{ℕ, ◌≡◌, refl, Option, none, some, [], ◌∷◌, ◌==◌, if◌then◌else◌, arith}
use multi_pand_os.Base.{has, false}
use multi_pand_os.Listx.{Links, list_add_tail, list_add_between}
use multi_pand_os.Asl.Active.{Located}
use multi_pand_os.Asl.Remove.{Waiting}
use multi_pand_os.Listx.Ring.{Ring}
use multi_pand_os.Listx.Edit.{list_add_tail-Ring}
use multi_pand_os.Kernel.{Kernel, Layout, Vector, zero_state}
use multi_pand_os.Machine.{Machine, IsSpinLock}

abbrev pub lay : Layout
lay = record {
  pcb_free_h = 100;
  pcb_free_table = 1000;
  sizeof_pcb = 192;
  semd_free_h = 200;
  semd_h = 300;
  semd_table = 6000;
  sizeof_semd = 20;
  ready_queue = 400;
  dev_semaph = 50000;
  test = 70000;
  tlb_refill_entry = 70100;
  exception_entry = 70200;
  schedule_entry = 70300;
  state_gpr_len = 32;
}

abbrev spin_lock : ℕ → Option ℕ
spin_lock w = if w == 0 then some 1 else none

-- The first disk interrupts.
abbrev pub mach : Machine
mach = record {
  prid = 0;
  cause = 0x2000000;
  tod = 12345;
  timescale = 1;
  ldit = λ t. t;
  interrupt_dev = λ line. 1;
  dtp_status = λ line dev. 1;
  recv_status = λ line dev. 1;
  transm_status = λ line dev. 1;
  ack = 1;
  reg_sp = 1;
  init_cpu = λ cpu s k. k;
  stray_pid = λ k. 0;
  acquire = spin_lock;
  release = λ w. 0;
}

pub mach-IsSpinLock : IsSpinLock mach
mach-IsSpinLock = record { take_free = refl; wait_held = refl; give_back = λ w. refl }

-- Every list head is linked to itself.
abbrev pub alone : Links
alone = record { next = λ a. a; prev = λ a. a }

abbrev pub no_vector : Vector
no_vector = record {
  tlb_refill_handler = 0;
  tlb_refill_stack_ptr = 0;
  exception_handler = 0;
  exception_stack_ptr = 0;
}

abbrev pub memory : Links → Kernel
memory l = record {
  links = l;
  p_parent = λ p. 0;
  p_s = λ p. zero_state;
  p_time = λ p. 0;
  p_sem_add = λ p. 0;
  p_support_struct = λ p. 0;
  p_pid = λ p. 0;
  s_key = λ s. 0;
  next_pid = 1;
  process_count = 0;
  waiting_count = 0;
  global_lock = 0;
  current_process = λ i. 0;
  current_state = 0x0ffff000;
  state_at = λ a. zero_state;
  word = λ a. 0;
  sup_stack_ptr = λ a i. 0;
  sup_status = λ a i. 0;
  sup_pc = λ a i. 0;
  command = λ l d. 0;
  recv_command = λ l d. 0;
  transm_command = λ l d. 0;
  timer = 0;
  interval_timer = 0;
  passupvector = λ i. no_vector;
  status = 0;
}

pub alone-Ring : (h : ℕ) → Ring alone h []
alone-Ring h = record { chain = tt; closed = (refl, refl); distinct = (refl, tt) }

-- One and two nodes behind a head.
pub one-Ring : Ring (list_add_tail 1000 400 alone) 400 (1000 ∷ [])
one-Ring = list_add_tail-Ring 1000 400 [] (alone-Ring 400) refl

pub two-Ring : Ring (list_add_tail 1192 400 (list_add_tail 1000 400 alone)) 400 (1000 ∷ 1192 ∷ [])
two-Ring = list_add_tail-Ring 1192 400 (1000 ∷ []) one-Ring refl

-- The descriptor at 6000 is active, and the PCBs at 1000 and 1192 wait in its queue. Its link is at
-- 6012 and its queue's head at 6004.
abbrev pub two_wait : Links
two_wait = list_add_tail 1192 6004 (list_add_tail 1000 6004 (list_add_tail 6012 300 alone))

abbrev pub waiting : ℕ → Kernel
waiting sem = record (memory two_wait) {
  s_key = λ s. sem;
  p_sem_add = λ p. sem;
  process_count = 2;
  waiting_count = 2;
}

pub two_wait-active : Ring two_wait 300 (6012 ∷ [])
unfolding list_add_tail list_add_between
two_wait-active = record {
  chain = ((refl, refl), tt);
  closed = (refl, refl);
  distinct = (refl, (refl, tt));
}

pub two_wait-queue : Ring two_wait 6004 (1000 ∷ 1192 ∷ [])
unfolding list_add_tail list_add_between
two_wait-queue = record {
  chain = ((refl, refl), ((refl, refl), tt));
  closed = (refl, refl);
  distinct = (refl, (refl, (refl, tt)));
}

pub two_wait-Ring :
    (h : ℕ) → has h (300 ∷ 6012 ∷ 6004 ∷ 1000 ∷ 1192 ∷ []) ≡ false → Ring two_wait h []
unfolding list_add_tail list_add_between
two_wait-Ring h out = record {
  chain = tt;
  closed = (ground arith, ground arith);
  distinct = (refl, tt);
}

pub waiting-Waiting : (sem : ℕ) → Waiting lay (waiting sem) 6000 [] [] [] 1000 (1192 ∷ [])
waiting-Waiting sem = record {
  active = two_wait-active;
  free = two_wait-Ring 200 refl;
  queue = two_wait-queue;
  lists = (refl, (refl, tt));
  queue_active = (refl, (refl, (refl, tt)));
  queue_free = (refl, (refl, (refl, tt)));
}

pub waiting-Located : (sem : ℕ) → Located lay (waiting sem) sem 6000 [] []
waiting-Located sem = record {
  actives = record { ring = two_wait-active; few = omega arith };
  key = refl;
  first = tt;
}
