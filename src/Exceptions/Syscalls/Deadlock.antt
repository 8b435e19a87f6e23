-- ===== src/Exceptions/Syscalls/Deadlock.antt =====
-- TERMPROCESS of phase2/exceptions.c on a process that has a parent, and no child.
use multi_pand_os.Base.{
  ℕ, ◌≡◌, refl, ap, ◌∙◌, false, List, [], ◌∷◌, ◌++◌, ◌==◌, arith, has, some, Apart,
}
use multi_pand_os.Base.Word.{sub32}
use multi_pand_os.Listx.Ring.{Ring, Ring-frame}
use multi_pand_os.Listx.Edit.{list_del-spares}
use multi_pand_os.Kernel.{Kernel, Layout, State, null, p_child, p_sib}
use multi_pand_os.Machine.{Machine, ok, panic}
use multi_pand_os.Pcb.{out_child}
use multi_pand_os.Pcb.Queue.{IsQueue}
use multi_pand_os.Pcb.Tree.{Family, unlink}
use multi_pand_os.Exceptions.Destroy.{Queues}
use multi_pand_os.Exceptions.Termination.{terminate_process}
use multi_pand_os.Exceptions.Syscalls.{term_process, saved}
use multi_pand_os.Exceptions.Syscalls.Terminate.{
  RunsAlone, Ends, terminate_process-unlinked, leave-panics, term_process_self,
}

-- `proc` runs: it is neither ready nor free, and has no child. It is one of the children of `parent`,
-- between the nodes `before` and `after`, and that list has no node in common with the others.
pub record RunsBelow (y : Layout) (k : Kernel) (proc parent : ℕ) (before after rs fs : List ℕ)
    : Type 0 where
  pub queues : Queues y k rs fs
  pub not_ready : has proc (y.ready_queue ∷ rs) ≡ false
  pub not_free : has proc (y.pcb_free_h ∷ fs) ≡ false
  pub childless : Family k proc []
  pub siblings : Ring k.links (p_child parent) (before ++ p_sib proc ∷ after)
  pub known : (k.p_parent proc == null) ≡ false
  pub off_ready : Apart (p_child parent ∷ before ++ p_sib proc ∷ after) (y.ready_queue ∷ rs)
  pub off_free : Apart (p_child parent ∷ before ++ p_sib proc ∷ after) (y.pcb_free_h ∷ fs)
  pub off_children : Apart (p_child parent ∷ before ++ p_sib proc ∷ after) (p_child proc ∷ [])

-- Writes that spare the lists and the parents.
pub RunsBelow-same :
    {y : Layout} {k : Kernel} {proc parent : ℕ} {before after rs fs : List ℕ} (w : ℕ)
    (states : ℕ → State)
    → RunsBelow y k proc parent before after rs fs
    → RunsBelow y (record k { global_lock = w; state_at = states }) proc parent before after rs fs
RunsBelow-same w states a = record {
  queues = record {
    ready = a.queues.ready;
    free = a.queues.free;
    apart = a.queues.apart;
    few_ready = a.queues.few_ready;
    few_free = a.queues.few_free;
  };
  not_ready = a.not_ready;
  not_free = a.not_free;
  childless = record { ring = a.childless.ring; parents = tt };
  siblings = a.siblings;
  known = a.known;
  off_ready = a.off_ready;
  off_free = a.off_free;
  off_children = a.off_children;
}

-- The parent has lost the child.
unlink-RunsAlone :
    (y : Layout) (k : Kernel) (proc parent : ℕ) (before after rs fs : List ℕ)
    → RunsBelow y k proc parent before after rs fs
    → RunsAlone y (unlink proc k) proc rs fs
unlink-RunsAlone y k proc parent before after rs fs a =
    let ring = p_child parent ∷ before ++ p_sib proc ∷ after in
    let spared = list_del-spares (p_child parent) (p_sib proc) before after a.siblings in
    record {
      queues = record {
        ready = Ring-frame y.ready_queue rs ring a.queues.ready spared a.off_ready;
        free = Ring-frame y.pcb_free_h fs ring a.queues.free spared a.off_free;
        apart = a.queues.apart;
        few_ready = a.queues.few_ready;
        few_free = a.queues.few_free;
      };
      not_ready = a.not_ready;
      not_free = a.not_free;
      childless = record {
        ring = Ring-frame (p_child proc) [] ring a.childless.ring spared a.off_children;
        parents = tt;
      };
      orphan = ground arith;
    }

out_child-unlink :
    (k : Kernel) (proc : ℕ)
    → (k.p_parent proc == null) ≡ false
    → out_child proc k ≡ (some proc, unlink proc k)
unfolding out_child
out_child-unlink k proc known = rw known refl

-- The process leaves its parent's list and ends, with both counts lowered, although it did not wait.
pub terminate_process-below :
    (y : Layout) (k : Kernel) (proc parent : ℕ) (before after rs fs : List ℕ)
    → RunsBelow y k proc parent before after rs fs
    → (k' : Kernel) × (terminate_process y proc k ≡ ok tt k')
      × IsQueue k' y.ready_queue rs
      × IsQueue k' y.pcb_free_h (fs ++ proc ∷ [])
      × (k'.process_count ≡ sub32 k.process_count 1)
      × (k'.waiting_count ≡ sub32 k.waiting_count 1)
terminate_process-below y k proc parent before after rs fs a =
    terminate_process-unlinked y k (unlink proc k) proc (some proc) rs fs
      (out_child-unlink k proc a.known) (unlink-RunsAlone y k proc parent before after rs fs a)

-- A process that has a parent and no child ends itself while no other is ready and one other process
-- exists, which waits and is counted by `waiting_count`, as a parent that waits for its child. The
-- nucleus panics, as if nobody waited.
pub term_process-panics :
    (y : Layout) (m : Machine) (k : Kernel) (proc parent : ℕ) (before after fs : List ℕ)
    → RunsBelow y k proc parent before after [] fs
    → (saved k).gpr 25 ≡ 0
    → k.process_count ≡ 2
    → k.waiting_count ≡ 1
    → Ends (term_process y m proc k) panic
term_process-panics y m k proc parent before after fs a self two one =
    let (k', e, ready, _, pc, wc) = terminate_process-below y k proc parent before after [] fs a in
    let (k'', f) =
      leave-panics y m k' ready (pc ∙ ap (λ n. sub32 n 1) two) (wc ∙ ap (λ n. sub32 n 1) one) in
    (k'', term_process_self y m k k' k'' proc panic self e f)
