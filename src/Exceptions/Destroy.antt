-- ===== src/Exceptions/Destroy.antt =====
-- `destroyProcess` of phase2/exceptions.c, by where it finds the process.
use multi_pand_os.Base.{
  ℕ, ◌≤◌, ◌≡◌, refl, true, false, List, [], ◌∷◌, ◌++◌, arith, has, has-middle, has-append,
  Apart-erase, Apart-snoc, Distinct-erase, erase, erase-split, erase-out, length-erase, Bool-cases,
  inl, inr, sym, length-append, ◌<◌, ◌==◌, ◌∙◌, length, Apart, Apart-sym, Apart-has, Apart-drop,
  Distinct-out,
}
use mathlib.Core.Path.{subst}
use multi_pand_os.Base.Word.{sub32}
use multi_pand_os.Listx.{list_del}
use multi_pand_os.Listx.Ring.{SameOutside, Ring-frame}
use multi_pand_os.Listx.Edit.{list_del-Ring, list_del-spares}
use multi_pand_os.Kernel.{Kernel, Layout, max_proc, with_links}
use multi_pand_os.Machine.{ok}
use multi_pand_os.Pcb.{free_pcb}
use multi_pand_os.Pcb.Queue.{IsQueue, out_proc_q_found}
use multi_pand_os.Pcb.Alloc.{is_in_pcb_free_h_lem, free_pcb_lem}
use multi_pand_os.Exceptions.Termination.{destroy_process, retire, forget_waiting}

-- The ready queue holds `rs` and the free list `fs`; they share no node, and neither has more
-- entries than there are PCBs.
pub record Queues (y : Layout) (k : Kernel) (rs fs : List ℕ) : Type 0 where
  pub ready : IsQueue k y.ready_queue rs
  pub free : IsQueue k y.pcb_free_h fs
  pub apart : Apart (y.ready_queue ∷ rs) (y.pcb_free_h ∷ fs)
  pub few_ready : length rs ≤ max_proc
  pub few_free : length fs ≤ max_proc

not_free : (p h : ℕ) (fs : List ℕ) → has p (h ∷ fs) ≡ false → has p fs ≡ false
not_free p h fs o = ground arith

-- A PCB that is free already is left alone.
pub destroy_process-free :
    (y : Layout) (k : Kernel) (p : ℕ) (rs fs : List ℕ)
    → Queues y k rs fs
    → has p fs ≡ true
    → destroy_process y p k ≡ ok tt k
unfolding destroy_process
destroy_process-free y k p rs fs q i = rw (is_in_pcb_free_h_lem y k p fs q.free q.few_free, i)

abbrev pub uncounted : Kernel → Kernel
uncounted k = record k { process_count = sub32 k.process_count 1 }

free_pcb_counts :
    (y : Layout) (p : ℕ) (k : Kernel)
    → (uncounted (free_pcb y p k)).process_count ≡ sub32 k.process_count 1
unfolding free_pcb
free_pcb_counts y p k = refl

free_pcb_waits :
    (y : Layout) (p : ℕ) (k : Kernel) → (uncounted (free_pcb y p k)).waiting_count ≡ k.waiting_count
unfolding free_pcb
free_pcb_waits y p k = refl

-- A ready process leaves the ready queue, whatever its place, waits last among the free PCBs, and
-- of the two counts only `process_count` goes down. The links of nodes on neither list stay.
pub destroy_process-ready :
    (y : Layout) (k : Kernel) (p : ℕ) (before after fs : List ℕ)
    → Queues y k (before ++ p ∷ after) fs
    → (k' : Kernel) × (destroy_process y p k ≡ ok tt k')
      × IsQueue k' y.ready_queue (before ++ after)
      × IsQueue k' y.pcb_free_h (fs ++ p ∷ [])
      × (k'.process_count ≡ sub32 k.process_count 1)
      × (k'.waiting_count ≡ k.waiting_count)
      × ((a : ℕ)
          → has a (y.ready_queue ∷ before ++ p ∷ after) ≡ false
          → has a (y.pcb_free_h ∷ fs) ≡ false
          → (k'.links.next a ≡ k.links.next a) × (k'.links.prev a ≡ k.links.prev a))
unfolding destroy_process retire
destroy_process-ready y k p before after fs q =
    let rs = before ++ p ∷ after in
    let cut = with_links (list_del p) k in
    let apart = Apart-sym (y.ready_queue ∷ rs) (y.pcb_free_h ∷ fs) q.apart in
    let out : has p (y.pcb_free_h ∷ fs) ≡ false =
      Apart-has p (y.pcb_free_h ∷ fs) (y.ready_queue ∷ rs) apart
        (has-middle p (y.ready_queue ∷ before) after) in
    let (rest, alone) = list_del-Ring y.ready_queue p before after q.ready in
    let free : IsQueue cut y.pcb_free_h fs =
      Ring-frame y.pcb_free_h fs (y.ready_queue ∷ rs) q.free
        (list_del-spares y.ready_queue p before after q.ready) q.apart in
    let (back, spared) = free_pcb_lem y cut p fs free out in
    let away : Apart (p ∷ y.pcb_free_h ∷ fs) (y.ready_queue ∷ before ++ after) = (
      Distinct-out p (y.ready_queue ∷ before) after q.ready.distinct,
      Apart-sym (y.ready_queue ∷ before ++ after) (y.pcb_free_h ∷ fs)
          (Apart-drop p (y.ready_queue ∷ before) after (y.pcb_free_h ∷ fs) q.apart),
    ) in
    (
      uncounted (free_pcb y p cut),
      rw (
        is_in_pcb_free_h_lem y k p fs q.free q.few_free,
        not_free p y.pcb_free_h fs out,
        out_proc_q_found k y.ready_queue p rs q.ready q.few_ready,
        has-middle p before after,
      ),
      Ring-frame y.ready_queue (before ++ after) (p ∷ y.pcb_free_h ∷ fs) rest spared away,
      back,
      free_pcb_counts y p cut,
      free_pcb_waits y p cut,
      λ a o o'.
          let step = spared a (ground (arith, has-append a before (p ∷ after))) in
          let first = list_del-spares y.ready_queue p before after q.ready a o in
          (step.0 ∙ first.0, step.1 ∙ first.1),
    )

-- A process that is neither free nor ready, be it running or blocked, is put behind the free PCBs,
-- and both counts go down: it is taken for one that waits, and no semaphore is looked at.
pub destroy_process-other :
    (y : Layout) (k : Kernel) (p : ℕ) (rs fs : List ℕ)
    → Queues y k rs fs
    → has p (y.ready_queue ∷ rs) ≡ false
    → has p (y.pcb_free_h ∷ fs) ≡ false
    → (k' : Kernel) × (destroy_process y p k ≡ ok tt k')
      × IsQueue k' y.ready_queue rs
      × IsQueue k' y.pcb_free_h (fs ++ p ∷ [])
      × (k'.process_count ≡ sub32 k.process_count 1)
      × (k'.waiting_count ≡ sub32 k.waiting_count 1)
      × SameOutside (p ∷ y.pcb_free_h ∷ fs) k.links k'.links
unfolding destroy_process retire
destroy_process-other y k p rs fs q off out =
    let (back, spared) = free_pcb_lem y (forget_waiting k) p fs q.free out in
    (
      uncounted (free_pcb y p (forget_waiting k)),
      rw (
        is_in_pcb_free_h_lem y k p fs q.free q.few_free,
        not_free p y.pcb_free_h fs out,
        out_proc_q_found k y.ready_queue p rs q.ready q.few_ready,
        not_free p y.ready_queue rs off,
      ),
      Ring-frame y.ready_queue rs (p ∷ y.pcb_free_h ∷ fs) q.ready spared
          (off, Apart-sym (y.ready_queue ∷ rs) (y.pcb_free_h ∷ fs) q.apart),
      back,
      free_pcb_counts y p (forget_waiting k),
      free_pcb_waits y p (forget_waiting k),
      spared,
    )

-- The queues when `p` has gone to the free ones.
Queues-moved :
    (y : Layout) (k k' : Kernel) (p : ℕ) (rs fs : List ℕ)
    → Queues y k rs fs
    → (p == y.ready_queue) ≡ false
    → length fs < max_proc
    → IsQueue k' y.ready_queue (erase p rs)
    → IsQueue k' y.pcb_free_h (fs ++ p ∷ [])
    → Queues y k' (erase p rs) (fs ++ p ∷ [])
Queues-moved y k k' p rs fs q nh few ready free =
    let rest : Apart (y.ready_queue ∷ erase p rs) (y.pcb_free_h ∷ fs) =
      (q.apart.0, Apart-erase p rs (y.pcb_free_h ∷ fs) q.apart.1) in
    record {
      ready = ready;
      free = free;
      apart =
          Apart-snoc p (y.ready_queue ∷ erase p rs) (y.pcb_free_h ∷ fs) rest
            (ground (arith, Distinct-erase p rs q.ready.distinct.1));
      few_ready = omega (arith, length-erase p rs, q.few_ready);
      few_free = omega (arith, length-append fs (p ∷ []));
    }

-- What is neither in the ready queue nor on the free list keeps its links.
abbrev pub KeptApart : Layout → (rs fs : List ℕ) → (k k' : Kernel) → Type 0
KeptApart y rs fs k k' =
    (a : ℕ)
    → has a (y.ready_queue ∷ rs) ≡ false
    → has a (y.pcb_free_h ∷ fs) ≡ false
    → (k'.links.next a ≡ k.links.next a) × (k'.links.prev a ≡ k.links.prev a)

-- Both cases together: the queues after a process that is not free has been destroyed.
pub destroy_process-Queues :
    (y : Layout) (k : Kernel) (p : ℕ) (rs fs : List ℕ)
    → Queues y k rs fs
    → (p == y.ready_queue) ≡ false
    → has p (y.pcb_free_h ∷ fs) ≡ false
    → length fs < max_proc
    → (k' : Kernel) × (destroy_process y p k ≡ ok tt k')
      × Queues y k' (erase p rs) (fs ++ p ∷ [])
      × (k'.process_count ≡ sub32 k.process_count 1)
      × KeptApart y rs (p ∷ fs) k k'
destroy_process-Queues y k p rs fs q nh out few = elim (Bool-cases (has p rs)) [
  | inl here ↦
      let (before, after, e, f) = erase-split p rs here in
      let q' : Queues y k (before ++ p ∷ after) fs = subst (λ xs. Queues y k xs fs) e q in
      let (k', runs, ready, free, count, waits, same) =
        destroy_process-ready y k p before after fs q' in
      (
        k',
        runs,
        Queues-moved y k k' p rs fs q nh few (subst (IsQueue k' y.ready_queue) (sym f) ready) free,
        count,
        λ a o o'. same a (subst (λ xs. has a (y.ready_queue ∷ xs) ≡ false) e o) (ground arith),
      )
  | inr away ↦
      let (k', runs, ready, free, count, waits, same) =
        destroy_process-other y k p rs fs q (ground arith) out in
      (
        k',
        runs,
        Queues-moved y k k' p rs fs q nh few
            (subst (IsQueue k' y.ready_queue) (sym (erase-out p rs away)) ready) free,
        count,
        λ a o o'. same a (ground arith),
      )
]
