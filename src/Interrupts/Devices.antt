-- ===== src/Interrupts/Devices.antt =====
-- The device interrupts of phase2/interrupts.c and the lock that they take.
use multi_pand_os.Base.{
  ℕ, zero, suc, ◌+◌, ◌-◌, ◌*◌, ◌^◌, ◌<◌, ◌≤◌, ◌≡◌, ◌≢◌, refl, ap, ◌∙◌, true, false, ◌&&◌, ◌||◌,
  List, leb, ltb, arith, ne→==, ==_refl,
}
use multi_pand_os.Base.Word.{tests_bit, sub32}
use multi_pand_os.Listx.{update}
use multi_pand_os.Kernel.{Kernel, Layout, null}
use multi_pand_os.Machine.{Machine, IsSpinLock, stop, spin}
use multi_pand_os.Asl.Active.{Located}
use multi_pand_os.Asl.Remove.{Waiting, remove_blocked_lem, NoKey-same}
use multi_pand_os.Exceptions.Termination.{ncpu}
use multi_pand_os.Exceptions.Syscalls.{dev_sem}
use multi_pand_os.Interrupts.Answered.{answered, one_device, acknowledge-answered}
use multi_pand_os.Interrupts.{
  unblock, serve, scan, device_handler, serve_lines, interrupt_handler, il_disk, il_terminal,
  cause_ip_get, localtimerint, timerinterrupt, mip_mtip_mask,
}

-- `p` waits first on the semaphore of a device, and says so.
pub record WaitsFor (y : Layout) (k : Kernel) (line dev s : ℕ) (before after fs : List ℕ) (p : ℕ)
    (ps : List ℕ) : Type 0 where
  pub waiting : Waiting y k s before after fs p ps
  pub located : Located y k (dev_sem y (line * 8 + dev)) s before after
  pub named : k.p_sem_add p ≡ dev_sem y (line * 8 + dev)

unblock-spin :
    (y : Layout) (m : Machine) (sem status p : ℕ) (k : Kernel)
    → IsSpinLock m
    → k.global_lock ≡ 1
    → k.p_sem_add p ≡ sem
    → (k' : Kernel) × (unblock y m sem status p k ≡ stop spin k')
unfolding unblock
unblock-spin y m sem status p k lock held named = (
  record k {
    p_sem_add = update k.p_sem_add p null;
    p_s = update k.p_s p (record (k.p_s p) { gpr = update (k.p_s p).gpr 2 status });
    waiting_count = sub32 k.waiting_count 1;
  },
  rw (named, ==_refl sem, held, lock.wait_held),
)

module _ (y : Layout) (m : Machine) (line dev s : ℕ) (before after fs : List ℕ) (p : ℕ)
    (ps : List ℕ) (lock : IsSpinLock m) where
  -- The PCB is given up, and the lock that the caller holds is asked for again.
  serve-spin :
      (k : Kernel)
      → k.global_lock ≡ 1
      → WaitsFor y k line dev s before after fs p ps
      → (k' : Kernel) × (serve y m line dev k ≡ stop spin k')
  unfolding serve
  serve-spin k held w =
      let (status, e) = acknowledge-answered y m line dev k in
      let k1 = answered m (one_device line dev) k in
      let wait : Waiting y k1 s before after fs p ps = record {
        active = w.waiting.active;
        free = w.waiting.free;
        queue = w.waiting.queue;
        lists = w.waiting.lists;
        queue_active = w.waiting.queue_active;
        queue_free = w.waiting.queue_free;
      } in
      let at : Located y k1 (dev_sem y (line * 8 + dev)) s before after = record {
        actives = record { ring = w.located.actives.ring; few = w.located.actives.few };
        key = w.located.key;
        first = NoKey-same k k1 (dev_sem y (line * 8 + dev)) before (λ t. refl) w.located.first;
      } in
      let (k2, f, _, _, _, _, same) =
        remove_blocked_lem (dev_sem y (line * 8 + dev)) s before after fs p ps wait at in
      let (k3, g) =
        unblock-spin y m (dev_sem y (line * 8 + dev)) status p k2 lock
          (ap (λ (t : Kernel). t.global_lock) same ∙ held)
          (ap (λ (t : Kernel). t.p_sem_add p) same ∙ w.named) in
      (k3, rw (e, f) g)

  -- The scan comes to `dev` over devices with no interrupt.
  scan-spin :
      (n rounds d : ℕ) (k : Kernel)
      → d + n ≡ dev
      → n < rounds
      → ((j : ℕ) → j < dev → d ≤ j → tests_bit (m.interrupt_dev line) (2 ^ j) ≡ false)
      → tests_bit (m.interrupt_dev line) (2 ^ dev) ≡ true
      → k.global_lock ≡ 1
      → WaitsFor y k line dev s before after fs p ps
      → (k' : Kernel) × (scan y m rounds line d k ≡ stop spin k')
  unfolding scan
  scan-spin n zero d k e lt clear here held w = absurd (omega arith)
  scan-spin zero (suc rounds) d k e lt clear here held w =
      let (k', f) = serve-spin k held w in let at : d ≡ dev = omega arith in (k', rw (at, here, f))
  scan-spin (suc n) (suc rounds) d k e lt clear here held w =
      let (k', f) =
        scan-spin n rounds (d + 1) k (omega arith) (omega arith) (λ j a b. clear j a (omega arith))
          here held w in
      (k', rw (clear d (omega arith) (omega arith), f))

-- The interrupt that is pending: neither timer, no line below `line`, and on this line no device
-- below `dev`.
pub record Pending (m : Machine) (line dev : ℕ) : Type 0 where
  pub no_plt : (tests_bit m.cause localtimerint && tests_bit m.cause mip_mtip_mask) ≡ false
  pub no_tick : (tests_bit m.cause timerinterrupt && tests_bit m.cause mip_mtip_mask) ≡ false
  pub line_low : il_disk ≤ line
  pub line_high : line ≤ il_terminal
  pub line_set : cause_ip_get m.cause line ≡ true
  pub lines_clear : (j : ℕ) → j < line → il_disk ≤ j → cause_ip_get m.cause j ≡ false
  pub dev_low : dev < 8
  pub dev_set : tests_bit (m.interrupt_dev (line - il_disk)) (2 ^ dev) ≡ true
  pub devs_clear :
      (j : ℕ) → j < dev → 0 ≤ j → tests_bit (m.interrupt_dev (line - il_disk)) (2 ^ j) ≡ false

module _ (y : Layout) (m : Machine) (line dev s : ℕ) (before after fs : List ℕ) (p : ℕ)
    (ps : List ℕ) (lock : IsSpinLock m) (i : Pending m line dev) where
  device_handler-spin :
      (k : Kernel)
      → k.global_lock ≡ 1
      → WaitsFor y k (line - il_disk) dev s before after fs p ps
      → (k' : Kernel) × (device_handler y m line k ≡ stop spin k')
  unfolding device_handler
  device_handler-spin k held w =
      let in_range : (ltb line il_disk || ltb il_terminal line) ≡ false =
        ground (arith, i.line_low, i.line_high) in
      let (k', f) =
        scan-spin y m (line - il_disk) dev s before after fs p ps lock dev 8 0 k (omega arith)
          i.dev_low i.devs_clear i.dev_set held w in
      (k', rw (in_range, f))

  serve_lines-spin :
      (n rounds from : ℕ) (k : Kernel)
      → from + n ≡ line
      → n < rounds
      → il_disk ≤ from
      → k.global_lock ≡ 0
      → WaitsFor y (record k { global_lock = 1 }) (line - il_disk) dev s before after fs p ps
      → (k' : Kernel) × (serve_lines y m rounds from k ≡ stop spin k')
  unfolding serve_lines
  serve_lines-spin n zero from k e lt low free w = absurd (omega arith)
  serve_lines-spin zero (suc rounds) from k e lt low free w =
      let at : from ≡ line = omega arith in
      let (k', f) = device_handler-spin (record k { global_lock = 1 }) refl w in
      (k', rw (at, i.line_set, free, lock.take_free, f))
  serve_lines-spin (suc n) (suc rounds) from k e lt low free w =
      let (k', f) =
        serve_lines-spin n rounds (from + 1) k (omega arith) (omega arith) (omega arith) free w in
      (k', rw (i.lines_clear from (omega arith) low, f))

-- A device interrupt for which a process waits never returns: `interruptHandler` takes the global
-- lock around `deviceHandler`, which asks for it again before it makes the process ready. The lock
-- is a spin lock that was free before, neither timer is pending, and the device is the first one.
pub interrupt_handler-spin :
    (y : Layout) (m : Machine) (line dev s : ℕ) (before after fs : List ℕ) (p : ℕ) (ps : List ℕ)
    (k : Kernel)
    → IsSpinLock m
    → Pending m line dev
    → m.prid < ncpu
    → k.current_state ≢ null
    → k.global_lock ≡ 0
    → WaitsFor y (record k { global_lock = 1 }) (line - il_disk) dev s before after fs p ps
    → (k' : Kernel) × (interrupt_handler y m k ≡ stop spin k')
unfolding interrupt_handler
interrupt_handler-spin y m line dev s before after fs p ps k lock i one state free w =
    let in_range : leb ncpu m.prid ≡ false = ground arith in
    let (k', f) =
      serve_lines-spin y m line dev s before after fs p ps lock i (line - il_disk) 5 il_disk k
        (omega (arith, i.line_low)) (omega (arith, i.line_high)) (omega arith) free w in
    (k', rw (in_range, ne→== _ _ state, i.no_plt, i.no_tick, f))
