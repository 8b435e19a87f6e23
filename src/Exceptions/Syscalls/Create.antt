-- ===== src/Exceptions/Syscalls/Create.antt =====
-- CREATEPROCESS of phase2/exceptions.c.
use multi_pand_os.Base.{
  ℕ, ◌≡◌, ◌≢◌, ◌∙◌, ap, refl, false, List, [], ◌∷◌, ◌++◌, arith, map, has, Apart, Apart-sym,
  Apart-drop, Apart-append,
}
use multi_pand_os.Base.Word.{add32}
use multi_pand_os.Listx.{update}
use multi_pand_os.Listx.Ring.{Ring, Ring-frame, SameOutside}
use multi_pand_os.Listx.Edit.{list_add_tail-SameOutside}
use multi_pand_os.Kernel.{Kernel, Layout, null, p_child, p_sib}
use multi_pand_os.Machine.{Machine, ok}
use multi_pand_os.Pcb.{alloc_pcb, insert_proc_q, insert_child}
use multi_pand_os.Pcb.Queue.{IsQueue, insert_proc_q_lem}
use multi_pand_os.Pcb.Tree.{Family, insert_child_lem, Parented-same}
use multi_pand_os.Pcb.Alloc.{heads, alloc_pcb_lem, alloc_pcb-frame, alloc_pcb-rest, alloc_pcb_nil}
use multi_pand_os.Exceptions.Syscalls.{create_process, start_process, saved, set_gpr, noproc}

-- No PCB is free: v0 is NOPROC, and nothing else changes.
pub create_process-noproc :
    (y : Layout) (m : Machine) (k : Kernel) (proc : ℕ)
    → Ring k.links y.pcb_free_h []
    → create_process y m proc k ≡ ok tt (set_gpr 2 noproc k)
unfolding create_process
create_process-noproc y m k proc r = rw (alloc_pcb_nil y k r) refl

-- The PCB `p` is the first free one, `rs` are ready, and `cs` are the children of `proc`; the three
-- lists and the heads of `p` are separate objects.
pub record Creates (y : Layout) (k : Kernel) (proc p : ℕ) (fs rs cs : List ℕ) : Type 0 where
  pub free : Ring k.links y.pcb_free_h (p ∷ fs)
  pub real : p ≢ null
  pub ready : IsQueue k y.ready_queue rs
  pub family : Family k proc cs
  pub heads_free : Apart (heads p) (y.pcb_free_h ∷ fs)
  pub heads_ready : Apart (heads p) (y.ready_queue ∷ rs)
  pub heads_family : Apart (heads p) (p_child proc ∷ map p_sib cs)
  pub free_ready : Apart (y.pcb_free_h ∷ p ∷ fs) (y.ready_queue ∷ rs)
  pub free_family : Apart (y.pcb_free_h ∷ p ∷ fs) (p_child proc ∷ map p_sib cs)
  pub ready_family : Apart (y.ready_queue ∷ rs) (p_child proc ∷ map p_sib cs)
  pub stranger : has p cs ≡ false

module _ {y : Layout} (m : Machine) {k : Kernel} {proc p : ℕ} {fs rs cs : List ℕ}
    (c : Creates y k proc p fs rs cs) where
  abbrev fresh : Kernel
  fresh = (alloc_pcb y k).1

  fresh-ready : IsQueue fresh y.ready_queue rs
  fresh-ready =
      alloc_pcb-frame y k p fs y.ready_queue rs c.free c.real c.ready c.free_ready c.heads_ready

  fresh-family : Ring fresh.links (p_child proc) (map p_sib cs)
  fresh-family =
      alloc_pcb-frame y k p fs (p_child proc) (map p_sib cs) c.free c.real c.family.ring
        c.free_family c.heads_family

  -- The new PCB is given what the caller asks for.
  abbrev given : Kernel
  given = record fresh {
    p_s = update fresh.p_s p (fresh.state_at ((saved k).gpr 25));
    p_time = update fresh.p_time p 0;
    p_sem_add = update fresh.p_sem_add p null;
    p_support_struct = update fresh.p_support_struct p ((saved k).gpr 27);
  }

  abbrev queued : Kernel
  queued = insert_proc_q y.ready_queue p given

  queued-ready : IsQueue queued y.ready_queue (rs ++ p ∷ [])
  queued-ready = (insert_proc_q_lem given y.ready_queue p rs fresh-ready c.heads_ready.0).0

  queued_parents : queued.p_parent ≡ fresh.p_parent
  unfolding insert_proc_q
  queued_parents = refl

  queued-Family : Family queued proc cs
  queued-Family = record {
    ring =
        Ring-frame (p_child proc) (map p_sib cs) (p ∷ y.ready_queue ∷ rs) fresh-family
          (insert_proc_q_lem given y.ready_queue p rs fresh-ready c.heads_ready.0).1
          (c.heads_family.0, c.ready_family);
    parents =
        Parented-same k.p_parent queued.p_parent proc cs
          (λ d i.
            ap (λ (f : ℕ → ℕ). f d) queued_parents
            ∙ (alloc_pcb-rest y k p fs c.free).3 d (ground (arith, c.stranger)))
          c.family.parents;
  }

  -- The links that `insertChild` writes at most.
  abbrev joined : List ℕ
  joined = p_sib p ∷ p_child proc ∷ map p_sib cs

  joined-ready : Apart joined (y.ready_queue ∷ rs ++ p ∷ [])
  joined-ready =
      let off : Apart (y.ready_queue ∷ rs) joined = Apart-sym joined (y.ready_queue ∷ rs) (
        c.heads_ready.1.1.0,
        Apart-sym (y.ready_queue ∷ rs) (p_child proc ∷ map p_sib cs) c.ready_family,
      ) in
      Apart-sym (y.ready_queue ∷ rs ++ p ∷ []) joined (
        Apart-append (y.ready_queue ∷ rs) (p ∷ []) joined off
          (ground (arith, c.heads_family.0), tt))

  joined-free : Apart joined (y.pcb_free_h ∷ fs)
  joined-free = (
    c.heads_free.1.1.0,
    Apart-sym (y.pcb_free_h ∷ fs) (p_child proc ∷ map p_sib cs)
        (Apart-drop p (y.pcb_free_h ∷ []) fs (p_child proc ∷ map p_sib cs) c.free_family),
  )

  queued-free : Ring queued.links y.pcb_free_h fs
  queued-free =
      Ring-frame y.pcb_free_h fs (p ∷ y.ready_queue ∷ rs)
        (alloc_pcb_lem y k p fs c.free c.real c.heads_free).2
        (insert_proc_q_lem given y.ready_queue p rs fresh-ready c.heads_ready.0).1
        (
          c.heads_free.0,
          Apart-sym (y.pcb_free_h ∷ fs) (y.ready_queue ∷ rs)
              (Apart-drop p (y.pcb_free_h ∷ []) fs (y.ready_queue ∷ rs) c.free_ready),
        )

  join-SameOutside : SameOutside joined queued.links (insert_child proc p queued).links
  unfolding insert_child
  join-SameOutside =
      list_add_tail-SameOutside (p_sib p) (p_child proc) (map p_sib cs) queued-Family.ring
        c.heads_family.1.1.0

  abbrev created : Kernel
  created = set_gpr 2 0 (start_process y m proc p ((saved k).gpr 25) ((saved k).gpr 27) fresh)

  created-ready : IsQueue created y.ready_queue (rs ++ p ∷ [])
  unfolding start_process
  created-ready =
      Ring-frame y.ready_queue (rs ++ p ∷ []) joined queued-ready join-SameOutside joined-ready

  created-free : Ring created.links y.pcb_free_h fs
  unfolding start_process
  created-free = Ring-frame y.pcb_free_h fs joined queued-free join-SameOutside joined-free

  created-Family : Family created proc (cs ++ p ∷ [])
  unfolding start_process
  created-Family =
      let f = insert_child_lem queued proc p cs queued-Family c.heads_family.1.1.0 in
      record { ring = f.ring; parents = f.parents }

  created_eq : create_process y m proc k ≡ ok tt created
  unfolding create_process
  created_eq = rw (alloc_pcb_lem y k p fs c.free c.real c.heads_free).0 refl

  created_fields :
      (created.p_s p ≡ k.state_at ((saved k).gpr 25))
      × (created.p_support_struct p ≡ (saved k).gpr 27)
      × (created.p_pid p ≡ k.next_pid)
      × (created.process_count ≡ add32 k.process_count 1)
      × ((saved created).gpr 2 ≡ 0)
  unfolding start_process insert_proc_q insert_child
  created_fields =
      let (states, at, count, others) = alloc_pcb-rest y k p fs c.free in
      (
        ground (arith, states),
        ground arith,
        (alloc_pcb_lem y k p fs c.free c.real c.heads_free).1.number,
        rw count refl,
        ground arith,
      )

-- The new process is ready behind the others and the youngest child of the caller; it starts with
-- the state and the support structure that the caller names, and has the next number. The other free
-- PCBs stay free, `process_count` goes up, and v0 is 0.
pub create_process-child :
    (y : Layout) (m : Machine) (k : Kernel) (proc p : ℕ) (fs rs cs : List ℕ)
    → Creates y k proc p fs rs cs
    → (k' : Kernel) × (create_process y m proc k ≡ ok tt k')
      × IsQueue k' y.ready_queue (rs ++ p ∷ [])
      × Family k' proc (cs ++ p ∷ [])
      × Ring k'.links y.pcb_free_h fs
      × (k'.p_s p ≡ k.state_at ((saved k).gpr 25))
      × (k'.p_support_struct p ≡ (saved k).gpr 27)
      × (k'.p_pid p ≡ k.next_pid)
      × (k'.process_count ≡ add32 k.process_count 1)
      × ((saved k').gpr 2 ≡ 0)
create_process-child y m k proc p fs rs cs c =
    let (state, support, pid, count, answer) = created_fields m c in
    (
      created m c,
      created_eq m c,
      created-ready m c,
      created-Family m c,
      created-free m c,
      state,
      support,
      pid,
      count,
      answer,
    )
