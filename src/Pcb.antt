-- ===== src/Pcb.antt =====
-- phase1/pcb.c: the free PCBs, the process queues and the process tree. A function that returns a
-- pointer returns `none` for NULL; one with a loop returns `none` if its rounds run out.
pub mod Fifo
pub mod Pools
pub mod Queue
pub mod First
pub mod Tree
pub mod Alloc
pub mod Copy
use multi_pand_os.Base.{
  ℕ, zero, suc, ◌+◌, ◌*◌, Bool, true, false, not, Option, none, some, ◌==◌, if◌then◌else◌,
}
use multi_pand_os.Base.Word.{add32}
use multi_pand_os.Listx.{
  update, set_next, set_prev, init_list_head, list_add, list_add_tail, list_del, list_empty,
  list_for_each,
}
use multi_pand_os.Kernel.{
  zero_state, alloff, Kernel, Layout, State, null, max_proc, max_rounds, p_list, p_child, p_sib,
  pcb_of_p_list, pcb_of_p_sib, ptr, with_links, ◌>>=◌,
}

-- The cells that `memcpy` writes: `*d++ = *s++`, `len` times.
unfoldable pub memcpy : (dest src len : ℕ) → (ℕ → ℕ) → (ℕ → ℕ)
memcpy d s zero mem = mem
memcpy d s (suc len) mem = memcpy (d + 1) (s + 1) len (update mem d (mem s))

unfoldable pub mk_empty_proc_q : (head : ℕ) → Kernel → Kernel
mk_empty_proc_q head k = with_links (init_list_head head) k

unfoldable pub empty_proc_q : (head : ℕ) → Kernel → Bool
empty_proc_q head k = list_empty head k.links

unfoldable pub insert_proc_q : (head p : ℕ) → Kernel → Kernel
insert_proc_q head p k = with_links (list_add_tail (p_list p) head) k

unfoldable pub head_proc_q : (head : ℕ) → Kernel → Option ℕ
head_proc_q head k =
    if list_empty head k.links then none else some (pcb_of_p_list (k.links.next head))

unfoldable pub remove_proc_q : (head : ℕ) → Kernel → Option ℕ × Kernel
unfolding head_proc_q
remove_proc_q head k =
    if list_empty head k.links
    then (none, k)
    else (let tmp = ptr (head_proc_q head k) in (some tmp, with_links (list_del (p_list tmp)) k))

unfoldable pub out_proc_q : (head p : ℕ) → Kernel → Option (Option ℕ × Kernel)
out_proc_q head p k = do
  found ← list_for_each max_rounds head (λ pos. pcb_of_p_list pos == p) k.links
  some (elim found [ none ↦ (none, k) | some _ ↦ (some p, with_links (list_del (p_list p)) k) ])

unfoldable pub empty_child : (p : ℕ) → Kernel → Bool
empty_child p k = list_empty (p_child p) k.links

unfoldable pub insert_child : (prnt p : ℕ) → Kernel → Kernel
insert_child prnt p k =
    with_links (list_add_tail (p_sib p) (p_child prnt))
      (record k { p_parent = update k.p_parent p prnt })

unfoldable pub remove_child : (p : ℕ) → Kernel → Option ℕ × Kernel
remove_child p k =
    if not (list_empty (p_child p) k.links)
    then (let tmp = pcb_of_p_sib (k.links.next (p_child p)) in
        (
          some tmp,
          with_links (list_del (p_sib tmp)) (record k { p_parent = update k.p_parent tmp null }),
        ))
    else (none, k)

unfoldable pub out_child : (p : ℕ) → Kernel → Option ℕ × Kernel
out_child p k =
    if not (k.p_parent p == null)
    then (
      some p,
      (let k' = with_links (list_del (p_sib p)) k in
          record k' { p_parent = update k'.p_parent p null }),
    )
    else (none, k)

module _ (y : Layout) where
  unfoldable pub init_pcbs_from : (rounds i : ℕ) → Kernel → Kernel
  init_pcbs_from zero i k = k
  init_pcbs_from (suc rounds) i k =
      init_pcbs_from rounds (i + 1)
        (with_links (list_add (p_list (y.pcb_free_table + i * y.sizeof_pcb)) y.pcb_free_h) k)

  unfoldable pub init_pcbs : Kernel → Kernel
  init_pcbs k = init_pcbs_from max_proc 0 k

  unfoldable pub free_pcb : (p : ℕ) → Kernel → Kernel
  free_pcb p k = with_links (list_add_tail (p_list p) y.pcb_free_h) k

  unfoldable pub is_in_pcb_free_h : (p : ℕ) → Kernel → Option Bool
  is_in_pcb_free_h p k = do
    found ← list_for_each max_rounds y.pcb_free_h (λ pos. pcb_of_p_list pos == p) k.links
    some (elim found [ none ↦ false | some _ ↦ true ])

  -- Every byte of the PCB set to 0, its three list heads among them.
  unfoldable pub zero_pcb : (p : ℕ) → Kernel → Kernel
  zero_pcb p k =
      record (with_links (λ l. set_next p 0 (set_prev p 0 l))
        (with_links (λ l. set_next (p_child p) 0 (set_prev (p_child p) 0 l))
          (with_links (λ l. set_next (p_sib p) 0 (set_prev (p_sib p) 0 l)) k))) {
            p_parent = update k.p_parent p 0;
            p_s = update k.p_s p zero_state;
            p_time = update k.p_time p 0;
            p_sem_add = update k.p_sem_add p 0;
            p_support_struct = update k.p_support_struct p 0;
            p_pid = update k.p_pid p 0;
          }

  -- for (i = 0; i < STATE_GPR_LEN; i++) gpr[i] = 0
  unfoldable pub clear_gpr : (rounds i : ℕ) → (ℕ → ℕ) → (ℕ → ℕ)
  clear_gpr zero i gpr = gpr
  clear_gpr (suc rounds) i gpr = clear_gpr rounds (i + 1) (update gpr i 0)

  -- The writes to `p_s` behind the list heads: only `pc_epc` ends up other than 0.
  unfoldable pub init_state : State → State
  init_state s = record s {
    cause = 0;
    status = alloff;
    entry_hi = 0;
    gpr = clear_gpr y.state_gpr_len 0 s.gpr;
    mie = 0;
    pc_epc = y.test;
  }

  -- `INIT_LIST_HEAD` is also called on `p_parent`, which is NULL by then.
  unfoldable pub init_pcb : (p : ℕ) → Kernel → Kernel
  unfolding init_state
  init_pcb p k =
      let k1 =
        with_links
          (λ l. init_list_head (p_sib p) (
            init_list_head (k.p_parent p)
              (init_list_head (p_child p) (init_list_head (p_list p) l))))
          k in
      record k1 {
        p_s = update k1.p_s p (init_state (k1.p_s p));
        p_parent = update k1.p_parent p null;
        p_time = update k1.p_time p 0;
        p_sem_add = update k1.p_sem_add p null;
        p_support_struct = update k1.p_support_struct p null;
        p_pid = update k1.p_pid p k1.next_pid;
        next_pid = add32 k1.next_pid 1;
      }

  unfoldable pub alloc_pcb : Kernel → Option ℕ × Kernel
  unfolding zero_pcb init_pcb
  alloc_pcb k =
      if list_empty y.pcb_free_h k.links
      then (none, k)
      else (let tmp = pcb_of_p_list (k.links.next y.pcb_free_h) in
          (
            some tmp,
            init_pcb tmp (zero_pcb tmp (with_links (list_del (k.links.next y.pcb_free_h)) k)),
          ))
