-- ===== src/P1Test/Main.antt =====
-- `main` of phase1/p1test.c: the process tree, the semaphores, and all of it.
use multi_pand_os.Base.{
  ℕ, zero, suc, ◌+◌, ◌-◌, ◌*◌, Bool, true, false, not, ◌||◌, ◌==◌, if◌then◌else◌,
}
use multi_pand_os.Kernel.{max_proc, ptr}
use multi_pand_os.Pcb.{alloc_pcb, empty_child, insert_child, remove_child, out_child}
use multi_pand_os.Asl.{init_asl, insert_blocked, remove_blocked, out_blocked, head_blocked}
use multi_pand_os.P1Test.State.{
  Setting, Test, ◌>>=◌, ◌>>◌, look, call_loop, do_call, ask, addokbuf, fails,
}
use multi_pand_os.P1Test.Checks.{
  set_q, set_p, set_procp, pointer, pointer_loop, is_null, differs, check_alloc, check_queue,
  free_from,
}

module _ (x : Setting) where
  unfoldable pub insert_children : (rounds i : ℕ) → Test (Unit {0})
  insert_children zero i = look (λ b. tt)
  insert_children (suc rounds) i = do
    parent ← look (λ b. b.procp 0)
    child ← look (λ b. b.procp i)
    do_call (insert_child parent child)
    insert_children rounds (i + 1)

  unfoldable pub remove_children : (rounds : ℕ) → Test (Unit {0})
  remove_children zero = look (λ b. tt)
  remove_children (suc rounds) = do
    parent ← look (λ b. b.procp 0)
    v ← pointer (remove_child parent)
    set_q v
    fails x (is_null v) "removeChild: unexpected NULL   "
    remove_children rounds

  -- q = outChild(procp[i]); if (q == NULL || q != procp[i]) adderrbuf(...);
  unfoldable pub check_out_child : (i : ℕ) → Test Bool
  check_out_child i = do
    child ← look (λ b. b.procp i)
    v ← pointer (out_child child)
    set_q v
    look (λ b. is_null v || differs v child)

  unfoldable pub check_tree : Test (Unit {0})
  unfolding insert_children remove_children check_out_child
  check_tree = do
    addokbuf x "checking process trees...\n"
    lonely ← look (λ b. empty_child (b.procp 2) b.kernel)
    fails x (not lonely) "emptyChild: unexpected FALSE   "
    addokbuf x "Inserting...   \n"
    insert_children 9 1
    addokbuf x "Inserted 9 children   \n"
    parent ← look (λ b. b.procp 0)
    childless ← look (λ b. empty_child parent b.kernel)
    fails x childless "emptyChild: unexpected TRUE   "
    bad_first ← check_out_child 1
    fails x bad_first "outChild failed on first child   "
    bad_middle ← check_out_child 4
    fails x bad_middle "outChild failed on middle child   "
    v ← pointer (out_child parent)
    fails x (not (is_null v)) "outChild failed on nonexistent child   "
    addokbuf x "outChild ok   \n"
    addokbuf x "Removing...   \n"
    remove_children 7
    w ← pointer (remove_child parent)
    fails x (not (is_null w)) "removeChild: removes too many children   "
    now_childless ← look (λ b. empty_child parent b.kernel)
    fails x (not now_childless) "emptyChild: unexpected FALSE   "
    addokbuf x "insertChild, removeChild and emptyChild ok   \n"
    addokbuf x "process tree module ok      \n"

  -- &sem[i]
  abbrev pub sem_at : ℕ → ℕ
  sem_at i = x.sem + 4 * i

  unfoldable pub insert_each : (rounds i : ℕ) → (test_two : Bool) → Test (Unit {0})
  insert_each zero i two = look (λ b. tt)
  insert_each (suc rounds) i two = do
    v ← pointer (alloc_pcb x.layout)
    set_procp i v
    full ← call_loop (insert_blocked x.layout (sem_at i) v)
    fails x (not (full == 0)) (
        if two
        then "insertBlocked(2): unexpected TRUE   "
        else "insertBlocked(1): unexpected TRUE   ")
    insert_each rounds (i + 1) two

  unfoldable pub move_each : (rounds i : ℕ) → Test (Unit {0})
  move_each zero i = look (λ b. tt)
  move_each (suc rounds) i = do
    v ← pointer_loop (remove_blocked x.layout (sem_at i))
    set_q v
    fails x (is_null v) "removeBlocked: wouldn't remove   "
    known ← look (λ b. b.procp i)
    fails x (differs v known) "removeBlocked: removed wrong element   "
    full ← call_loop (insert_blocked x.layout (sem_at (i - 10)) v)
    fails x (not (full == 0)) "insertBlocked(3): unexpected TRUE   "
    move_each rounds (i + 1)

  unfoldable pub check_insert_blocked : Test (Unit {0})
  unfolding insert_each move_each
  check_insert_blocked = do
    addokbuf x "insertBlocked test #1 started  \n"
    insert_each 10 10 false
    addokbuf x "insertBlocked test #2 started  \n"
    insert_each 10 0 true
    v ← pointer_loop (remove_blocked x.layout (sem_at 11))
    set_p v
    full ← call_loop (insert_blocked x.layout (sem_at 11) v)
    fails x (not (full == 0)) "removeBlocked: fails to return to free list   "
    ninth ← look (λ b. b.procp 9)
    refused ← call_loop (insert_blocked x.layout x.onesem ninth)
    fails x (refused == 0) "insertBlocked: inserted more than MAXPROC   "
    addokbuf x "removeBlocked test started   \n"
    move_each 10 10
    gone ← pointer_loop (remove_blocked x.layout (sem_at 11))
    fails x (not (is_null gone)) "removeBlocked: removed nonexistent blocked proc   "
    addokbuf x "insertBlocked and removeBlocked ok   \n"

  -- q = headBlocked(&sem[9]), and p = outBlocked(q).
  abbrev head_of : ℕ → Test ℕ
  head_of i = do r ← ask (head_blocked x.layout (sem_at i)); look (λ b. ptr r)

  abbrev take_out : ℕ → Test ℕ
  take_out v = do w ← pointer_loop (out_blocked x.layout v); set_p w; look (λ b. w)

  unfoldable pub check_out_blocked : Test (Unit {0})
  check_out_blocked = do
    none_there ← head_of 11
    fails x (not (is_null none_there)) "headBlocked: nonNULL for a nonexistent queue   "
    v ← head_of 9
    set_q v
    fails x (is_null v) "headBlocked(1): NULL for an existent queue   "
    ninth ← look (λ b. b.procp 9)
    fails x (differs v ninth) "headBlocked(1): wrong process returned   "
    out1 ← take_out v
    fails x (differs out1 v) "outBlocked(1): couldn't remove from valid queue   "
    w ← head_of 9
    set_q w
    fails x (is_null w) "headBlocked(2): NULL for an existent queue   "
    last ← look (λ b. b.procp 19)
    fails x (differs w last) "headBlocked(2): wrong process returned   "
    out2 ← take_out w
    fails x (differs out2 w) "outBlocked(2): couldn't remove from valid queue   "
    out3 ← take_out w
    fails x (not (is_null out3)) "outBlocked: removed same process twice."
    left ← head_of 9
    fails x (not (is_null left)) "out/headBlocked: unexpected nonempty queue   "
    addokbuf x "headBlocked and outBlocked ok   \n"
    addokbuf x "ASL module ok   \n"

  unfoldable pub main : Test ℕ
  unfolding check_alloc check_queue free_from check_tree check_insert_blocked check_out_blocked
  main = do
    check_alloc x
    free_from x (max_proc - 10) 10
    addokbuf x "freed 10 entries   \n"
    check_queue x
    check_tree
    free_from x 10 0
    do_call (init_asl x.layout)
    addokbuf x "Initialized active semaphore list   \n"
    check_insert_blocked
    check_out_blocked
    addokbuf x "So Long and Thanks for All the Fish\n"
    look (λ b. 0)
