-- ===== src/P1Test/Checks.antt =====
-- `main` of phase1/p1test.c, check by check.
use multi_pand_os.Base.{ℕ, zero, suc, ◌+◌, Bool, not, ◌||◌, Option, ◌==◌, if◌then◌else◌}
use multi_pand_os.Listx.{update}
use multi_pand_os.Kernel.{Kernel, Layout, null, max_proc, ptr}
use multi_pand_os.Pcb.{
  init_pcbs, alloc_pcb, free_pcb, mk_empty_proc_q, empty_proc_q, insert_proc_q, head_proc_q,
  remove_proc_q, out_proc_q,
}
use multi_pand_os.P1Test.State.{
  Setting, Test, ◌>>=◌, ◌>>◌, look, change, call, call_loop, do_call, addokbuf, fails,
}

-- q = ..., p = ..., procp[i] = ...
abbrev pub set_q : ℕ → Test (Unit {0})
set_q v = change (λ b. record b { q = v })

abbrev pub set_p : ℕ → Test (Unit {0})
set_p v = change (λ b. record b { p = v })

abbrev pub set_procp : (i v : ℕ) → Test (Unit {0})
set_procp i v = change (λ b. record b { procp = update b.procp i v })

-- An answer that is a pointer, and one that comes with a loop.
abbrev pub pointer : (Kernel → Option ℕ × Kernel) → Test ℕ
pointer f = do r ← call f; look (λ b. ptr r)

abbrev pub pointer_loop : (Kernel → Option (Option ℕ × Kernel)) → Test ℕ
pointer_loop f = do r ← call_loop f; look (λ b. ptr r)

abbrev pub is_null : ℕ → Bool
is_null p = p == null

abbrev pub differs : ℕ → ℕ → Bool
differs p q = not (p == q)

module _ (x : Setting) where
  abbrev y : Layout
  y = x.layout

  -- for (i = 0; i < MAXPROC; i++) if ((procp[i] = allocPcb()) == NULL) ...
  unfoldable pub alloc_all : (rounds i : ℕ) → Test (Unit {0})
  alloc_all zero i = look (λ b. tt)
  alloc_all (suc rounds) i = do
    v ← pointer (alloc_pcb x.layout)
    set_procp i v
    fails x (is_null v) "allocPcb: unexpected NULL   "
    alloc_all rounds (i + 1)

  unfoldable pub check_alloc : Test (Unit {0})
  unfolding alloc_all
  check_alloc = do
    do_call (init_pcbs x.layout)
    addokbuf x "Initialized process control blocks   \n"
    alloc_all max_proc 0
    v ← pointer (alloc_pcb x.layout)
    fails x (not (is_null v)) "allocPcb: allocated more than MAXPROC entries   "
    addokbuf x "allocPcb ok   \n"

  -- for (i = ...; ...; i++) freePcb(procp[i]);
  unfoldable pub free_from : (rounds i : ℕ) → Test (Unit {0})
  free_from zero i = look (λ b. tt)
  free_from (suc rounds) i = do
    v ← look (λ b. b.procp i)
    do_call (free_pcb x.layout v)
    free_from rounds (i + 1)

  -- The `switch` on the position.
  abbrev remember : (i v : ℕ) → Test (Unit {0})
  remember i v = change (λ b.
      if i == 0
      then record b { firstproc = v }
      else if i == 5
      then record b { midproc = v }
      else if i == 9
      then record b { lastproc = v }
      else b)

  unfoldable pub insert_ten : (rounds i : ℕ) → Test (Unit {0})
  insert_ten zero i = look (λ b. tt)
  insert_ten (suc rounds) i = do
    v ← pointer (alloc_pcb x.layout)
    set_q v
    fails x (is_null v) "allocPcb: unexpected NULL while insert   "
    remember i v
    do_call (insert_proc_q x.qa v)
    insert_ten rounds (i + 1)

  unfoldable pub remove_eight : (rounds : ℕ) → Test (Unit {0})
  remove_eight zero = look (λ b. tt)
  remove_eight (suc rounds) = do
    v ← pointer (remove_proc_q x.qa)
    set_q v
    fails x (is_null v) "removeProcQ: unexpected NULL   "
    do_call (free_pcb x.layout v)
    remove_eight rounds

  unfoldable pub check_out_proc : Test (Unit {0})
  check_out_proc = do
    head ← look (λ b. ptr (head_proc_q x.qa b.kernel))
    first ← look (λ b. b.firstproc)
    fails x (differs head first) "headProcQ failed   "
    v ← pointer_loop (out_proc_q x.qa first)
    set_q v
    fails x (is_null v || differs v first) "outProcQ failed on first entry   "
    do_call (free_pcb x.layout v)
    mid ← look (λ b. b.midproc)
    w ← pointer_loop (out_proc_q x.qa mid)
    set_q w
    fails x (is_null w || differs w mid) "outProcQ failed on middle entry   "
    do_call (free_pcb x.layout w)
    stranger ← look (λ b. b.procp 0)
    u ← pointer_loop (out_proc_q x.qa stranger)
    fails x (not (is_null u)) "outProcQ failed on nonexistent entry   "
    addokbuf x "outProcQ ok   \n"

  unfoldable pub check_queue : Test (Unit {0})
  unfolding insert_ten check_out_proc remove_eight
  check_queue = do
    do_call (mk_empty_proc_q x.qa)
    was_empty ← look (λ b. empty_proc_q x.qa b.kernel)
    fails x (not was_empty) "emptyProcQ: unexpected FALSE   "
    addokbuf x "Inserting...   \n"
    insert_ten 10 0
    addokbuf x "inserted 10 elements   \n"
    still_empty ← look (λ b. empty_proc_q x.qa b.kernel)
    fails x still_empty "emptyProcQ: unexpected TRUE"
    check_out_proc
    addokbuf x "Removing...   \n"
    remove_eight 8
    v ← look (λ b. b.q)
    last ← look (λ b. b.lastproc)
    fails x (differs v last) "removeProcQ: failed on last entry   "
    more ← pointer (remove_proc_q x.qa)
    fails x (not (is_null more)) "removeProcQ: removes too many entries   "
    now_empty ← look (λ b. empty_proc_q x.qa b.kernel)
    fails x (not now_empty) "emptyProcQ: unexpected FALSE   "
    addokbuf x "insertProcQ, removeProcQ and emptyProcQ ok   \n"
    addokbuf x "process queues module ok      \n"
