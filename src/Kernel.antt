-- ===== src/Kernel.antt =====
-- The memory of the nucleus: headers/types.h, the constants of headers/const.h that the model
-- uses, and the globals of phase1/pcb.c, phase1/asl.c and phase2/initial.c.
use multi_pand_os.Base.{ℕ, ◌+◌, ◌-◌, Option, none, some}
use multi_pand_os.Listx.{Links}

-- `state_t` of the machine's headers, by the fields that the source names.
pub record State : Type 0 where
  pub entry_hi : ℕ
  pub cause : ℕ
  pub status : ℕ
  pub pc_epc : ℕ
  pub mie : ℕ
  pub gpr : ℕ → ℕ

abbrev pub alloff : ℕ
alloff = 0

-- All bytes 0.
abbrev pub zero_state : State
zero_state = record { entry_hi = 0; cause = 0; status = 0; pc_epc = 0; mie = 0; gpr = λ i. 0 }

-- `passupvector_t` of the machine's headers.
pub record Vector : Type 0 where
  pub tlb_refill_handler : ℕ
  pub tlb_refill_stack_ptr : ℕ
  pub exception_handler : ℕ
  pub exception_stack_ptr : ℕ

-- Addresses and sizes that the linker and the machine's headers fix: they are parameters.
pub record Layout : Type 0 where
  pub pcb_free_h : ℕ
  pub pcb_free_table : ℕ
  pub sizeof_pcb : ℕ
  pub semd_free_h : ℕ
  pub semd_h : ℕ
  pub semd_table : ℕ
  pub sizeof_semd : ℕ
  pub ready_queue : ℕ
  pub dev_semaph : ℕ
  pub test : ℕ
  pub tlb_refill_entry : ℕ
  pub exception_entry : ℕ
  pub schedule_entry : ℕ
  pub state_gpr_len : ℕ

-- Each field of `pcb_t` and `semd_t` is a map from the structure's address; `state_at` and `word`
-- are the processor states and the words that lie outside those structures. `sup_*` are the fields of
-- `sup_exceptContext[i]` of the support structure at an address. `command`,
-- `recv_command` and `transm_command` are the command words of the devices, by line from IL_DISK on
-- and by device; `timer`, `interval_timer` and
-- `status` are the machine's registers that the source loads, `passupvector` its pass-up vectors by
-- processor.
pub record Kernel : Type 0 where
  pub links : Links
  pub p_parent : ℕ → ℕ
  pub p_s : ℕ → State
  pub p_time : ℕ → ℕ
  pub p_sem_add : ℕ → ℕ
  pub p_support_struct : ℕ → ℕ
  pub p_pid : ℕ → ℕ
  pub s_key : ℕ → ℕ
  pub next_pid : ℕ
  pub process_count : ℕ
  pub waiting_count : ℕ
  pub global_lock : ℕ
  pub current_process : ℕ → ℕ
  pub current_state : ℕ
  pub state_at : ℕ → State
  pub sup_stack_ptr : ℕ → ℕ → ℕ
  pub sup_status : ℕ → ℕ → ℕ
  pub sup_pc : ℕ → ℕ → ℕ
  pub command : ℕ → ℕ → ℕ
  pub recv_command : ℕ → ℕ → ℕ
  pub transm_command : ℕ → ℕ → ℕ
  pub timer : ℕ
  pub interval_timer : ℕ
  pub passupvector : ℕ → Vector
  pub status : ℕ
  pub word : ℕ → ℕ

abbrev pub null : ℕ
null = 0

abbrev pub max_proc : ℕ
max_proc = 20

-- A loop over a list of PCBs or semaphore descriptors is given one round more than there are.
abbrev pub max_rounds : ℕ
max_rounds = max_proc + 1

-- The list heads of a PCB and of a descriptor, `&p->field`, and `container_of` back.
abbrev pub p_list : ℕ → ℕ
p_list p = p

abbrev pub p_child : ℕ → ℕ
p_child p = p + 12

abbrev pub p_sib : ℕ → ℕ
p_sib p = p + 20

abbrev pub s_procq : ℕ → ℕ
s_procq s = s + 4

abbrev pub s_link : ℕ → ℕ
s_link s = s + 12

abbrev pub pcb_of_p_list : ℕ → ℕ
pcb_of_p_list a = a

abbrev pub pcb_of_p_sib : ℕ → ℕ
pcb_of_p_sib a = a - 20

abbrev pub semd_of_s_link : ℕ → ℕ
semd_of_s_link a = a - 12

abbrev pub with_links : (Links → Links) → Kernel → Kernel
with_links f k = record k { links = f k.links }

-- A pointer that may be NULL.
abbrev pub ptr : Option ℕ → ℕ
ptr none = null
ptr (some p) = p

infixl 5 ◌>>=◌
abbrev pub ◌>>=◌ {ℓ κ} : {A : Type ℓ} {B : Type κ} → Option A → (A → Option B) → Option B
none >>= f = none
some a >>= f = f a
