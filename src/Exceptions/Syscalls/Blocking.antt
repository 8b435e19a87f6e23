-- ===== src/Exceptions/Syscalls/Blocking.antt =====
-- The system calls of phase2/exceptions.c that block their caller on an active semaphore.
use multi_pand_os.Base.{
  ℕ, ◌≡◌, ◌∙◌, ◌==◌, refl, sym, map, false, List, [], ◌∷◌, ◌++◌, arith, has, Apart, Apart-sym,
  Apart-append,
}
use mathlib.Core.Path.{subst}
use multi_pand_os.Base.Word.{add32, sub32, is_positive}
use multi_pand_os.Listx.{update, list_add_tail}
use multi_pand_os.Listx.Ring.{Ring, Ring-frame}
use multi_pand_os.Listx.Edit.{
  list_add_tail-Ring, list_add_tail-SameOutside, list_del-spares, list_del-Ring,
}
use multi_pand_os.Kernel.{Kernel, Layout, null, s_procq, s_link, with_links}
use multi_pand_os.Machine.{Machine, ok, stop, ldst}
use multi_pand_os.Asl.{insert_blocked, insert_active}
use multi_pand_os.Asl.Active.{Located, active-Located, semd_of_s_link-s_link}
use multi_pand_os.Asl.Remove.{NoKey-same}
use multi_pand_os.Pcb.Queue.{IsQueue}
use multi_pand_os.Scheduler.Branches.{schedule-cons, dispatched}
use multi_pand_os.Exceptions.Syscalls.{passeren_call, do_io, block_on, leave, saved}
use multi_pand_os.Exceptions.Syscalls.Semaphores.{semaddr}

-- The caller is saved and queued, and the processor left without a process.
abbrev pub blocked : Machine → (proc sem s : ℕ) → Kernel → Kernel
blocked m proc sem s k = record (with_links (list_add_tail proc (s_procq s)) k) {
  p_s = update k.p_s proc (saved k);
  p_sem_add = update (update k.p_sem_add proc sem) proc sem;
  current_process = update k.current_process m.prid null;
  waiting_count = add32 k.waiting_count 1;
}

-- Writes that spare the links and the keys.
Located-same :
    {y : Layout} {k : Kernel} {sem s : ℕ} {before after : List ℕ} (g : Kernel)
    → Located y k sem s before after
    → g.links ≡ k.links
    → ((t : ℕ) → g.s_key t ≡ k.s_key t)
    → Located y g sem s before after
Located-same {y} {k} {sem} {s} {before} {after} g w links keys = record {
  actives = record {
    ring =
        subst (λ l. Ring l y.semd_h (map s_link (before ++ s ∷ after))) (sym links) w.actives.ring;
    few = w.actives.few;
  };
  key = keys s ∙ w.key;
  first = NoKey-same k g sem before keys w.first;
}

block_on_eq :
    {y : Layout} (m : Machine) {k : Kernel} (proc : ℕ) {sem s : ℕ} {before after : List ℕ}
    → Located y k sem s before after
    → block_on y m proc sem k ≡ ok tt (blocked m proc sem s k)
unfolding block_on insert_blocked insert_active
block_on_eq {y} m {k} proc {sem} {s} {before} {after} w =
    let saving : Kernel = record k {
      p_s = update k.p_s proc (saved k);
      p_sem_add = update k.p_sem_add proc sem;
    } in
    rw (active-Located (Located-same saving w refl (λ t. refl)), semd_of_s_link-s_link s) refl

-- A caller that is on neither the semaphore's queue nor the ready queue, which share no node.
pub record Blocks (y : Layout) (k : Kernel) (proc sem s : ℕ) (before after q : List ℕ) (p : ℕ)
    (ps : List ℕ) : Type 0 where
  pub located : Located y k sem s before after
  pub waiters : Ring k.links (s_procq s) q
  pub fresh : has proc (s_procq s ∷ q) ≡ false
  pub ready : IsQueue k y.ready_queue (p ∷ ps)
  pub apart : Apart (proc ∷ s_procq s ∷ q) (y.ready_queue ∷ p ∷ ps)

module _ {y : Layout} (m : Machine) {k : Kernel} {proc sem s : ℕ} {before after q : List ℕ} {p : ℕ}
    {ps : List ℕ} (b : Blocks y k proc sem s before after q p ps) where
  -- The memory when the next process is loaded, after the writes of `f` to other words.
  abbrev left : (ℕ → ℕ) → Kernel
  left w =
      dispatched m p
        (record (blocked m proc sem s k) { word = w; global_lock = m.release k.global_lock })

  blocked-ready : IsQueue (blocked m proc sem s k) y.ready_queue (p ∷ ps)
  blocked-ready =
      Ring-frame y.ready_queue (p ∷ ps) (proc ∷ s_procq s ∷ q) b.ready
        (list_add_tail-SameOutside proc (s_procq s) q b.waiters b.fresh) b.apart

  left-waiters : (w : ℕ → ℕ) → Ring (left w).links (s_procq s) (q ++ proc ∷ [])
  left-waiters w =
      Ring-frame (s_procq s) (q ++ proc ∷ []) (y.ready_queue ∷ p ∷ ps)
        (list_add_tail-Ring proc (s_procq s) q b.waiters b.fresh)
        (list_del-spares y.ready_queue p [] ps blocked-ready)
        (Apart-sym (s_procq s ∷ q ++ proc ∷ []) (y.ready_queue ∷ p ∷ ps) (
          b.apart.1.0,
          Apart-append q (proc ∷ []) (y.ready_queue ∷ p ∷ ps) b.apart.1.1 (b.apart.0, tt),
        ))

  leave_eq :
      (w : ℕ → ℕ)
      → leave y m (record (blocked m proc sem s k) { word = w }) ≡ stop (ldst (k.p_s p)) (left w)
  unfolding leave
  leave_eq w =
      let other : (p == proc) ≡ false = ground (arith, b.apart) in
      rw
        (
          (schedule-cons y m
              (record (blocked m proc sem s k) { word = w; global_lock = m.release k.global_lock })
              p ps blocked-ready).0,
          other,
        )
        refl

  left-ready : (w : ℕ → ℕ) → IsQueue (left w) y.ready_queue ps
  left-ready w = (list_del-Ring y.ready_queue p [] ps blocked-ready).0

-- PASSEREN on a semaphore that is not positive, and active: the word goes down by one, the caller is
-- saved and queued behind the others, `waiting_count` goes up, and the first ready process is
-- loaded.
pub passeren_call-block_on :
    (y : Layout) (m : Machine) (k : Kernel) (proc s : ℕ) (before after q : List ℕ) (p : ℕ)
    (ps : List ℕ)
    → is_positive (k.word (semaddr k)) ≡ false
    → Blocks y k proc (semaddr k) s before after q p ps
    → (k' : Kernel) × (passeren_call y m proc k ≡ stop (ldst (k.p_s p)) k')
      × Ring k'.links (s_procq s) (q ++ proc ∷ [])
      × IsQueue k' y.ready_queue ps
      × (k'.p_s proc ≡ saved k)
      × (k'.p_sem_add proc ≡ semaddr k)
      × (k'.waiting_count ≡ add32 k.waiting_count 1)
      × (k'.word (semaddr k) ≡ sub32 (k.word (semaddr k)) 1)
unfolding passeren_call
passeren_call-block_on y m k proc s before after q p ps low b =
    let w = update k.word (semaddr k) (sub32 (k.word (semaddr k)) 1) in
    let taken : Kernel = record k { word = w } in
    let e = block_on_eq m {k = taken} proc (Located-same taken b.located refl (λ t. refl)) in
    (
      left m b w,
      rw (low, e) (leave_eq m b w),
      left-waiters m b w,
      left-ready m b w,
      ground arith,
      ground arith,
      refl,
      ground arith,
    )

-- DOIO on an active semaphore: the caller is saved and queued behind the others, the command
-- stands at its address, and the first ready process is loaded.
pub do_io-block_on :
    (y : Layout) (m : Machine) (k : Kernel) (proc s : ℕ) (before after q : List ℕ) (p : ℕ)
    (ps : List ℕ)
    → Blocks y k proc ((saved k).gpr 27) s before after q p ps
    → (k' : Kernel) × (do_io y m proc k ≡ stop (ldst (k.p_s p)) k')
      × Ring k'.links (s_procq s) (q ++ proc ∷ [])
      × IsQueue k' y.ready_queue ps
      × (k'.p_s proc ≡ saved k)
      × (k'.p_sem_add proc ≡ (saved k).gpr 27)
      × (k'.waiting_count ≡ add32 k.waiting_count 1)
      × (k'.word ((saved k).gpr 25) ≡ (saved k).gpr 26)
unfolding do_io
do_io-block_on y m k proc s before after q p ps b =
    let w = update k.word ((saved k).gpr 25) ((saved k).gpr 26) in
    (
      left m b w,
      rw (block_on_eq m proc b.located) (leave_eq m b w),
      left-waiters m b w,
      left-ready m b w,
      ground arith,
      ground arith,
      refl,
      ground arith,
    )
