-- ===== src/Interrupts/Unawaited.antt =====
-- The device interrupts of phase2/interrupts.c for which no process waits.
use multi_pand_os.Base.{
  ℕ, zero, suc, ◌+◌, ◌-◌, ◌*◌, ◌^◌, ◌<◌, ◌≤◌, ◌≡◌, ◌≢◌, ◌∙◌, refl, ap, sym, true, false, ◌&&◌, ◌||◌,
  List, leb, ltb, arith, Bool-cases, inl, inr, ne→==, ==_refl,
}
use multi_pand_os.Base.Word.{tests_bit}
use multi_pand_os.Kernel.{Kernel, Layout, null}
use multi_pand_os.Machine.{Machine, IsSpinLock, ok}
use multi_pand_os.Asl.Active.{Actives, NoKey}
use multi_pand_os.Asl.Remove.{remove_blocked-NoKey, NoKey-same}
use multi_pand_os.Exceptions.Termination.{ncpu}
use multi_pand_os.Exceptions.Syscalls.{dev_sem}
use multi_pand_os.Interrupts.{
  serve, scan, device_handler, serve_lines, interrupt_handler, il_disk, il_terminal, cause_ip_get,
  localtimerint, timerinterrupt, mip_mtip_mask,
}
use multi_pand_os.Interrupts.Answered.{
  answered, answered-twice, answered-none, one_device, acknowledge-answered,
}
use multi_pand_os.Interrupts.Lines.{
  on_line, on_line-later, on_line-first, on_line-skip, nowhere, on_lines, on_lines-later,
  on_lines-here, on_lines-first, on_lines-skip,
}

-- No process waits for the device.
abbrev pub Unawaited : Layout → Kernel → List ℕ → ℕ → ℕ → Type 0
Unawaited y k ss line dev = NoKey k (dev_sem y (line * 8 + dev)) ss

module _ (y : Layout) (m : Machine) (ss : List ℕ) where
  serve-answered :
      (line dev : ℕ) (k : Kernel)
      → Actives y k ss
      → Unawaited y k ss line dev
      → serve y m line dev k ≡ ok tt (answered m (one_device line dev) k)
  unfolding serve
  serve-answered line dev k a n =
      let (status, e) = acknowledge-answered y m line dev k in
      let k1 = answered m (one_device line dev) k in
      let none_there =
        remove_blocked-NoKey {y = y} {k = k1} (dev_sem y (line * 8 + dev)) ss
          (record { ring = a.ring; few = a.few })
          (NoKey-same k k1 (dev_sem y (line * 8 + dev)) ss (λ t. refl) n) in
      rw (e, none_there) refl

  scan-answered :
      (rounds line dev : ℕ) (k : Kernel)
      → Actives y k ss
      → ((d : ℕ) → on_line m rounds line dev line d ≡ true → Unawaited y k ss line d)
      → scan y m rounds line dev k ≡ ok tt (answered m (on_line m rounds line dev) k)
  unfolding scan
  scan-answered zero line dev k a n =
      ap (ok tt) (sym (answered-none m k (on_line m 0 line dev) (λ l d. ground arith)))
  scan-answered (suc rounds) line dev k a n =
      elim (Bool-cases (tests_bit (m.interrupt_dev line) (2 ^ dev))) [
        | inl i ↦
            let k1 = answered m (one_device line dev) k in
            rw
              (
                i,
                serve-answered line dev k a (n dev (ground (arith, i, ==_refl line, ==_refl dev))),
              )
              (scan-answered rounds line (dev + 1) k1 (record { ring = a.ring; few = a.few })
                  (λ d o.
                    NoKey-same k k1 (dev_sem y (line * 8 + d)) ss (λ t. refl)
                      (n d (on_line-later m rounds line dev line d o)))
                ∙ ap (ok tt) (
                    answered-twice m k (one_device line dev) (on_line m rounds line (dev + 1))
                      (on_line m (suc rounds) line dev)
                      (λ l d. on_line-first m rounds line dev l d i)))
        | inr i ↦ rw i (
            scan-answered rounds line (dev + 1) k a
              (λ d o. n d (on_line-later m rounds line dev line d o))
            ∙ ap (ok tt) (
                ap (answered m (on_line m rounds line (dev + 1)))
                  (sym (answered-none m k (nowhere m) (λ l d. refl)))
                ∙ answered-twice m k (nowhere m) (on_line m rounds line (dev + 1))
                    (on_line m (suc rounds) line dev)
                    (λ l d. on_line-skip m rounds line dev l d i)))
      ]

  device_handler-answered :
      (line : ℕ) (k : Kernel)
      → line < 5
      → Actives y k ss
      → ((d : ℕ) → on_line m 8 line 0 line d ≡ true → Unawaited y k ss line d)
      → device_handler y m (line + il_disk) k ≡ ok tt (answered m (on_line m 8 line 0) k)
  unfolding device_handler
  device_handler-answered line k low a n =
      let in_range : (ltb (line + il_disk) il_disk || ltb il_terminal (line + il_disk)) ≡ false =
        ground arith in
      let at : line + il_disk - il_disk ≡ line = omega arith in
      rw (in_range, at) (scan-answered 8 line 0 k a n)

  module _ (lock : IsSpinLock m) where
    serve_lines-answered :
        (rounds line : ℕ) (k : Kernel)
        → line + rounds ≤ 5
        → k.global_lock ≡ 0
        → Actives y k ss
        → ((l d : ℕ) → on_lines m rounds line l d ≡ true → Unawaited y k ss l d)
        → serve_lines y m rounds (line + il_disk) k ≡ ok tt (answered m (on_lines m rounds line) k)
    unfolding serve_lines
    serve_lines-answered zero line k few free a n =
        ap (ok tt) (sym (answered-none m k (on_lines m 0 line) (λ l d. ground arith)))
    serve_lines-answered (suc rounds) line k few free a n =
        let next : line + il_disk + 1 ≡ (line + 1) + il_disk = omega arith in
        elim (Bool-cases (cause_ip_get m.cause (line + il_disk))) [
          | inl i ↦
              let held = record k { global_lock = 1 } in
              let k1 = answered m (on_line m 8 line 0) k in
              let handled =
                device_handler-answered line held (omega (arith, few))
                  (record { ring = a.ring; few = a.few })
                  (λ d o.
                    NoKey-same k held (dev_sem y (line * 8 + d)) ss (λ t. refl)
                      (n line d (on_lines-here m rounds line d i o))) in
              let after = record k1 { global_lock = 0 } in
              rw (i, next, free, lock.take_free, handled, lock.give_back 1)
                (serve_lines-answered rounds (line + 1) after (omega (arith, few)) refl
                    (record { ring = a.ring; few = a.few })
                    (λ l d o.
                      NoKey-same k after (dev_sem y (l * 8 + d)) ss (λ t. refl)
                        (n l d (on_lines-later m rounds line l d o)))
                  ∙ ap (ok tt) (
                      answered-twice m (record k { global_lock = 0 }) (on_line m 8 line 0)
                        (on_lines m rounds (line + 1)) (on_lines m (suc rounds) line)
                        (λ l d. on_lines-first m rounds line l d i)))
          | inr i ↦
              rw (i, next)
                (serve_lines-answered rounds (line + 1) k (omega (arith, few)) free a
                    (λ l d o. n l d (on_lines-later m rounds line l d o))
                  ∙ ap (ok tt) (
                      ap (answered m (on_lines m rounds (line + 1)))
                        (sym (answered-none m k (nowhere m) (λ l d. refl)))
                      ∙ answered-twice m k (nowhere m) (on_lines m rounds (line + 1))
                          (on_lines m (suc rounds) line)
                          (λ l d. on_lines-skip m rounds line l d i)))
        ]

-- Neither timer asks for an interrupt.
pub record NoTimer (m : Machine) : Type 0 where
  pub no_plt : (tests_bit m.cause localtimerint && tests_bit m.cause mip_mtip_mask) ≡ false
  pub no_tick : (tests_bit m.cause timerinterrupt && tests_bit m.cause mip_mtip_mask) ≡ false

-- Device interrupts for which no process waits, on any of the five lines and from any of their
-- devices at once: `interruptHandler` returns, each of these devices and no other has been
-- acknowledged, a terminal by its transmitter if bit 0 of that one's status is set, which READY,
-- BUSY and TRANSMITTED all have, and by its receiver otherwise, and nothing else has changed. The lock, a spin lock, is free before and after, and
-- neither timer asks for an interrupt.
pub interrupt_handler-answered :
    (y : Layout) (m : Machine) (ss : List ℕ) (k : Kernel)
    → IsSpinLock m
    → NoTimer m
    → m.prid < ncpu
    → k.current_state ≢ null
    → k.global_lock ≡ 0
    → Actives y k ss
    → ((l d : ℕ) → on_lines m 5 0 l d ≡ true → Unawaited y k ss l d)
    → interrupt_handler y m k ≡ ok tt (answered m (on_lines m 5 0) k)
unfolding interrupt_handler
interrupt_handler-answered y m ss k lock timers one state free a n =
    let in_range : leb ncpu m.prid ≡ false = ground arith in
    rw (in_range, ne→== _ _ state, timers.no_plt, timers.no_tick)
      (serve_lines-answered y m ss lock 5 0 k (omega arith) free a n)
