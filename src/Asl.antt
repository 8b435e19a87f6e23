-- ===== src/Asl.antt =====
-- phase1/asl.c: the active semaphore list. `none` of the outer option means that the rounds of a
-- loop ran out, `none` of the inner one is NULL.
pub mod Active
pub mod Insert
pub mod Locate
pub mod Out
pub mod Release
pub mod Remove
pub mod Runs
pub mod Spec
pub mod Stored
use multi_pand_os.Base.{
  ℕ, zero, suc, ◌+◌, ◌*◌, Bool, true, false, Option, none, some, ◌==◌, if◌then◌else◌,
}
use multi_pand_os.Listx.{
  Links, update, init_list_head, list_add, list_add_tail, list_del, list_empty, list_for_each,
}
use multi_pand_os.Kernel.{
  Kernel, Layout, max_proc, max_rounds, p_list, pcb_of_p_list, s_procq, s_link, semd_of_s_link,
  with_links, ◌>>=◌,
}

-- The loop's test: the descriptor at this position has the key.
abbrev pub has_key : Kernel → ℕ → ℕ → Bool
has_key k sem pos = k.s_key (semd_of_s_link pos) == sem

module _ (y : Layout) where
  unfoldable pub init_asl_from : (rounds i : ℕ) → Kernel → Kernel
  init_asl_from zero i k = k
  init_asl_from (suc rounds) i k =
      init_asl_from rounds (i + 1)
        (with_links (list_add (s_link (y.semd_table + i * y.sizeof_semd)) y.semd_free_h) k)

  unfoldable pub init_asl : Kernel → Kernel
  init_asl k = init_asl_from max_proc 0 k

  -- `for_each` over the active semaphores up to the first with the key.
  unfoldable pub active : (sem : ℕ) → Kernel → Option (Option ℕ)
  active sem k = list_for_each max_rounds y.semd_h (has_key k sem) k.links

  -- The branch of `insertBlocked` that finds the semaphore active.
  unfoldable pub insert_active : (pos sem p : ℕ) → Kernel → Kernel
  insert_active pos sem p k =
      let tmp = semd_of_s_link pos in
      let k1 = with_links (list_add_tail (p_list p) (s_procq tmp)) k in
      record k1 { p_sem_add = update k1.p_sem_add p sem }

  -- The branch that takes a free descriptor.
  unfoldable pub insert_new : (sem p : ℕ) → Kernel → Kernel
  insert_new sem p k =
      let tmp = semd_of_s_link (k.links.next y.semd_free_h) in
      let k1 = with_links (list_del (s_link tmp)) k in
      let k2 = with_links (list_add_tail (s_link tmp) y.semd_h) k1 in
      let k3 = record k2 {
        s_key = update k2.s_key tmp sem;
        p_sem_add = update k2.p_sem_add p sem;
      } in
      with_links (λ l. list_add (p_list p) (s_procq tmp) (init_list_head (s_procq tmp) l)) k3

  unfoldable pub insert_blocked : (sem p : ℕ) → Kernel → Option (ℕ × Kernel)
  unfolding active insert_active insert_new
  insert_blocked sem p k = do
    found ← active sem k
    some (elim found [
      | some pos ↦ (0, insert_active pos sem p k)
      | none ↦ if list_empty y.semd_free_h k.links then (1, k) else (0, insert_new sem p k)
    ])

  -- The body of `removeBlocked` at the descriptor that it finds.
  unfoldable pub remove_active : (pos : ℕ) → Kernel → Option ℕ × Kernel
  remove_active pos k =
      let tmp = semd_of_s_link pos in
      let p = pcb_of_p_list (k.links.next (s_procq tmp)) in
      let l1 = list_del (s_procq tmp) k.links in
      let l2 = list_del (s_link tmp) l1 in
      (
        some p,
        with_links
            (λ _.
              if list_empty (s_procq tmp) l1
              then list_add (l2.next (l2.prev (s_link tmp))) y.semd_free_h l2
              else l1)
            k,
      )

  unfoldable pub remove_blocked : (sem : ℕ) → Kernel → Option (Option ℕ × Kernel)
  unfolding active remove_active
  remove_blocked sem k = do
    found ← active sem k
    some (elim found [ some pos ↦ remove_active pos k | none ↦ (none, k) ])

  unfoldable pub out_blocked_pid_from : (rounds pos pid : ℕ) → Kernel → Option (Option ℕ × Kernel)
  out_blocked_pid_from zero pos pid k = none
  out_blocked_pid_from (suc rounds) pos pid k =
      let rest = out_blocked_pid_from rounds (k.links.next pos) pid k in
      let sem_tmp = semd_of_s_link pos in
      let visit : Option (Option ℕ × Kernel) = do
        found ←
            list_for_each max_rounds (s_procq sem_tmp) (λ q. k.p_pid (pcb_of_p_list q) == pid)
              k.links
        elim found [
          | some q ↦
              some (some (pcb_of_p_list q), with_links (list_del (p_list (pcb_of_p_list q))) k)
          | none ↦ rest
        ]
      in if pos == y.semd_h then some (none, k) else visit

  unfoldable pub out_blocked_pid : (pid : ℕ) → Kernel → Option (Option ℕ × Kernel)
  unfolding out_blocked_pid_from
  out_blocked_pid pid k = out_blocked_pid_from max_rounds (k.links.next y.semd_h) pid k

  -- The body of `outBlocked` at the descriptor that it finds.
  unfoldable pub out_active : (pos p : ℕ) → Kernel → Option (Option ℕ × Kernel)
  out_active pos p k =
      let sem_tmp = semd_of_s_link pos in
      let l1 = list_del (p_list p) k.links in
      if list_empty (s_procq sem_tmp) k.links then some (none, k) else (do
        found ← list_for_each max_rounds (s_procq sem_tmp) (λ q. pcb_of_p_list q == p) k.links
        some (elim found [
          | none ↦ (none, k)
          | some _ ↦ (
            some p,
            with_links
                (λ _.
                  if list_empty (s_procq sem_tmp) l1
                  then list_add (s_link sem_tmp) y.semd_free_h (list_del (s_link sem_tmp) l1)
                  else l1)
                k,
          )
        ]))

  unfoldable pub out_blocked : (p : ℕ) → Kernel → Option (Option ℕ × Kernel)
  unfolding active out_active
  out_blocked p k = do
    found ← active (k.p_sem_add p) k
    elim found [ some pos ↦ out_active pos p k | none ↦ some (none, k) ]

  unfoldable pub head_blocked : (sem : ℕ) → Kernel → Option (Option ℕ)
  unfolding active
  head_blocked sem k = do
    found ← active sem k
    some (elim found [
      | none ↦ none
      | some pos ↦
          if list_empty (s_procq (semd_of_s_link pos)) k.links
          then none
          else some (pcb_of_p_list (k.links.next (s_procq (semd_of_s_link pos))))
    ])
