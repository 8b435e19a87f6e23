-- ===== src/Interrupts/Tick.antt =====
-- The pseudo-clock tick, `handleIntervalTimer` of phase2/interrupts.c.
use mathlib.Core.Path.{subst}
use mathlib.Core.List.{map-append}
use multi_pand_os.Base.{
  ℕ, suc, ◌*◌, ◌%◌, ◌^◌, ◌≡◌, refl, sym, ap, ◌∙◌, none, some, List, [], ◌∷◌, ◌++◌, arith, map,
  length-append, ==_refl, Apart, Apart-sym, Apart-drop,
}
use multi_pand_os.Base.Word.{sub32}
use multi_pand_os.Listx.{update}
use multi_pand_os.Listx.Ring.{Ring, Ring-frame}
use multi_pand_os.Kernel.{Kernel, Layout, null, max_rounds, s_link, s_procq, with_links}
use multi_pand_os.Machine.{Machine, IsSpinLock, ok}
use multi_pand_os.Pcb.{insert_proc_q}
use multi_pand_os.Pcb.Queue.{IsQueue, insert_proc_q_lem}
use multi_pand_os.Asl.{remove_blocked}
use multi_pand_os.Asl.Active.{Located, NoKey}
use multi_pand_os.Asl.Remove.{
  Waiting, remove_blocked_eq, released, released_rings, released_spares, remove_blocked-NoKey,
  NoKey-same, NoKey-append,
}
use multi_pand_os.Interrupts.{wake, wake_all, handle_interval_timer, clock_sem, psecond}

-- `p` and then `ps` wait for the clock on the one descriptor `s` that has its key, and the ready
-- queue `rs` shares no node with the lists of semaphores.
pub record WaitsForTick (y : Layout) (k : Kernel) (s : ℕ) (before after fs : List ℕ) (p : ℕ)
    (ps rs : List ℕ) : Type 0 where
  pub waiting : Waiting y k s before after fs p ps
  pub located : Located y k (clock_sem y) s before after
  pub only : NoKey k (clock_sem y) after
  pub named : k.p_sem_add p ≡ clock_sem y
  pub ready : IsQueue k y.ready_queue rs
  pub apart_queue : Apart (s_procq s ∷ p ∷ ps) (y.ready_queue ∷ rs)
  pub apart_active :
      Apart (y.semd_h ∷ map s_link before ++ s_link s ∷ map s_link after) (y.ready_queue ∷ rs)
  pub apart_free : Apart (y.semd_free_h ∷ map s_link fs) (y.ready_queue ∷ rs)

-- What `wake` makes of the memory.
abbrev woken : Layout → ℕ → Kernel → Kernel
woken y p k =
    let k1 = insert_proc_q y.ready_queue p (record k { p_sem_add = update k.p_sem_add p null }) in
    record k1 { waiting_count = sub32 k1.waiting_count 1 }

wake_eq :
    (y : Layout) (m : Machine) (sem p : ℕ) (k : Kernel)
    → k.p_sem_add p ≡ sem
    → wake y m sem p k ≡ ok tt (woken y p k)
unfolding wake
wake_eq y m sem p k named = rw (named, ==_refl sem)

module _ {y : Layout} {k : Kernel} (s : ℕ) (before after fs : List ℕ) (p : ℕ) (ps rs : List ℕ)
    (w : WaitsForTick y k s before after fs p ps rs) where
  abbrev given : Kernel
  given = with_links (λ _. released s before after fs p ps w.waiting) k

  given_eq : remove_blocked y (clock_sem y) k ≡ some (some p, given)
  given_eq = remove_blocked_eq (clock_sem y) s before after fs p ps w.waiting w.located

  given-active : Ring given.links y.semd_h (map s_link before ++ map s_link after)
  given-active = (released_rings s before after fs p ps w.waiting).0

  given_same : given ≡ with_links (λ _. given.links) k
  given_same = refl

  given-ready : IsQueue given y.ready_queue rs
  given-ready =
      released_spares s before after fs p ps w.waiting y.ready_queue rs w.ready w.apart_queue
        w.apart_active w.apart_free

  abbrev acts : List ℕ
  acts = map s_link before ++ s_link s ∷ map s_link after

  abbrev left : List ℕ
  left = y.semd_h ∷ map s_link before ++ map s_link after

  away : Apart (p ∷ y.ready_queue ∷ rs) left
  away =
      let drop = λ (zs : List ℕ).
        Apart-drop (s_link s) (y.semd_h ∷ map s_link before) (map s_link after) zs in
      (
        (Apart-sym left (p ∷ []) (
            drop (p ∷ [])
              (Apart-sym (p ∷ []) (y.semd_h ∷ acts) (w.waiting.queue_active.1.0, tt)))).0,
        Apart-sym left (y.ready_queue ∷ rs) (drop (y.ready_queue ∷ rs) w.apart_active),
      )

  woken_links : (woken y p given).links ≡ (insert_proc_q y.ready_queue p given).links
  unfolding insert_proc_q
  woken_links = refl

  woken-ready : IsQueue (woken y p given) y.ready_queue (rs ++ p ∷ [])
  woken-ready =
      subst (λ l. Ring l y.ready_queue (rs ++ p ∷ [])) (sym woken_links)
        (insert_proc_q_lem given y.ready_queue p rs given-ready w.apart_queue.1.0).0

  woken-active : Ring (woken y p given).links y.semd_h (map s_link before ++ map s_link after)
  woken-active =
      subst (λ l. Ring l y.semd_h (map s_link before ++ map s_link after)) (sym woken_links)
        (Ring-frame y.semd_h (map s_link before ++ map s_link after) (p ∷ y.ready_queue ∷ rs)
          given-active (insert_proc_q_lem given y.ready_queue p rs given-ready w.apart_queue.1.0).1
          away)

  woken_key : (t : ℕ) → (woken y p given).s_key t ≡ k.s_key t
  unfolding insert_proc_q
  woken_key t = ap (λ (g : Kernel). g.s_key t) given_same

  second : remove_blocked y (clock_sem y) (woken y p given) ≡ some (none, woken y p given)
  second =
      remove_blocked-NoKey {y = y} {k = woken y p given} (clock_sem y) (before ++ after)
        (record {
          ring = rw map-append woken-active;
          few = omega (
            arith,
            w.located.actives.few,
            length-append before (s ∷ after),
            length-append before after,
          );
        })
        (NoKey-same k (woken y p given) (clock_sem y) (before ++ after) woken_key
          (NoKey-append k (clock_sem y) before after w.located.first w.only))

  given_named : given.p_sem_add p ≡ clock_sem y
  given_named = ap (λ (g : Kernel). g.p_sem_add p) given_same ∙ w.named

-- Two rounds: one that wakes the first process, and one that finds nobody.
wake_all-two :
    (y : Layout) (m : Machine) (rounds sem p : ℕ) (k g k' : Kernel)
    → remove_blocked y sem k ≡ some (some p, g)
    → g.p_sem_add p ≡ sem
    → woken y p g ≡ k'
    → remove_blocked y sem k' ≡ some (none, k')
    → wake_all y m (suc (suc rounds)) sem k ≡ ok tt k'
unfolding wake_all
wake_all-two y m rounds sem p k g k' first named e second =
    rw (first, wake_eq y m sem p g named, e, second)

-- The memory inside the lock, with the timer loaded.
abbrev ticking : Machine → Kernel → Kernel
ticking m k = record k {
  interval_timer = m.ldit ((psecond * m.timescale) % 2 ^ 32);
  global_lock = 1;
}

ticking-WaitsForTick :
    (y : Layout) (m : Machine) (k : Kernel) (s : ℕ) (before after fs : List ℕ) (p : ℕ)
    (ps rs : List ℕ)
    → WaitsForTick y k s before after fs p ps rs
    → WaitsForTick y (ticking m k) s before after fs p ps rs
ticking-WaitsForTick y m k s before after fs p ps rs w = record {
  waiting = record {
    active = w.waiting.active;
    free = w.waiting.free;
    queue = w.waiting.queue;
    lists = w.waiting.lists;
    queue_active = w.waiting.queue_active;
    queue_free = w.waiting.queue_free;
  };
  located = record {
    actives = record { ring = w.located.actives.ring; few = w.located.actives.few };
    key = w.located.key;
    first = NoKey-same k (ticking m k) (clock_sem y) before (λ t. refl) w.located.first;
  };
  only = NoKey-same k (ticking m k) (clock_sem y) after (λ t. refl) w.only;
  named = w.named;
  ready = w.ready;
  apart_queue = w.apart_queue;
  apart_active = w.apart_active;
  apart_free = w.apart_free;
}

woken_waiting :
    (y : Layout) (p : ℕ) (k : Kernel) → (woken y p k).waiting_count ≡ sub32 k.waiting_count 1
unfolding insert_proc_q
woken_waiting y p k = refl

woken_timer : (y : Layout) (p : ℕ) (k : Kernel) → (woken y p k).interval_timer ≡ k.interval_timer
unfolding insert_proc_q
woken_timer y p k = refl

-- The handler around a loop that ends in `k'`.
handle_interval_timer_eq :
    (y : Layout) (m : Machine) (k k' : Kernel)
    → IsSpinLock m
    → k.global_lock ≡ 0
    → wake_all y m max_rounds (clock_sem y) (ticking m k) ≡ ok tt k'
    → handle_interval_timer y m k
      ≡ ok tt (record k' { word = update k'.word (clock_sem y) 0; global_lock = 0 })
unfolding handle_interval_timer
handle_interval_timer_eq y m k k' lock free loop = rw (free, lock.take_free, loop, lock.give_back)

-- The tick does LDIT with PSECOND times the time scale, and wakes the process that waits first and no other: the
-- loop ends at its second round, however many wait. The ready queue gains that process alone,
-- `waiting_count` goes down by one, and the clock's semaphore is 0. The lock, a spin lock, is free
-- before and after.
pub handle_interval_timer_wakes :
    (y : Layout) (m : Machine) (k : Kernel) (s : ℕ) (before after fs : List ℕ) (p : ℕ)
    (ps rs : List ℕ)
    → IsSpinLock m
    → k.global_lock ≡ 0
    → WaitsForTick y k s before after fs p ps rs
    → (k' : Kernel) × (handle_interval_timer y m k ≡ ok tt k')
      × IsQueue k' y.ready_queue (rs ++ p ∷ [])
      × (k'.waiting_count ≡ sub32 k.waiting_count 1)
      × (k'.word (clock_sem y) ≡ 0)
      × (k'.interval_timer ≡ m.ldit ((psecond * m.timescale) % 2 ^ 32))
      × (k'.global_lock ≡ 0)
handle_interval_timer_wakes y m k s before after fs p ps rs lock free w =
    let w' = ticking-WaitsForTick y m k s before after fs p ps rs w in
    let g = given s before after fs p ps rs w' in
    let k' = woken y p g in
    let loop : wake_all y m max_rounds (clock_sem y) (ticking m k) ≡ ok tt k' =
      wake_all-two y m 19 (clock_sem y) p (ticking m k) g k' (given_eq s before after fs p ps rs w')
        (given_named s before after fs p ps rs w') refl (second s before after fs p ps rs w') in
    (
      record k' { word = update k'.word (clock_sem y) 0; global_lock = 0 },
      handle_interval_timer_eq y m k k' lock free loop,
      woken-ready s before after fs p ps rs w',
      woken_waiting y p g
          ∙ ap (λ (t : Kernel). sub32 t.waiting_count 1) (given_same s before after fs p ps rs w'),
      ground arith,
      woken_timer y p g
          ∙ ap (λ (t : Kernel). t.interval_timer) (given_same s before after fs p ps rs w'),
      refl,
    )
