-- ===== src/Tests/Devices.antt =====
-- Interrupts of the first two disks and terminals, while two processes wait for the tick.
use multi_pand_os.Base.{◌≡◌, refl, [], ◌∷◌, arith}
use multi_pand_os.Machine.{Machine, IsSpinLock, ok}
use multi_pand_os.Asl.Active.{Actives}
use multi_pand_os.Interrupts.{interrupt_handler}
use multi_pand_os.Interrupts.Answered.{answered}
use multi_pand_os.Interrupts.Lines.{on_lines}
use multi_pand_os.Interrupts.Unawaited.{interrupt_handler-answered}
use multi_pand_os.Tests.Data.{lay, mach, waiting, two_wait-active}

-- The lines 17 and 21, with the devices 0 and 1.
abbrev busy : Machine
busy = record mach { cause = 0x22000000; interrupt_dev = λ line. 3 }

busy-IsSpinLock : IsSpinLock busy
busy-IsSpinLock = record { take_free = refl; wait_held = refl; give_back = λ w. refl }

tick-Actives : Actives lay (waiting 50192) (6000 ∷ [])
tick-Actives = record { ring = two_wait-active; few = omega arith }

interrupt_handler-answered_example :
    interrupt_handler lay busy (waiting 50192)
    ≡ ok tt (answered busy (on_lines busy 5 0) (waiting 50192))
interrupt_handler-answered_example =
    interrupt_handler-answered lay busy (6000 ∷ []) (waiting 50192) busy-IsSpinLock
      (record { no_plt = refl; no_tick = refl }) (omega arith) (omega arith) refl tick-Actives
      (λ l d o. (ground (arith, o), tt))
