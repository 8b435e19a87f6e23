-- ===== src/Tests/Timers.antt =====
-- The local timer with three processes that take turns.
use multi_pand_os.Base.{ℕ, ◌≡◌, refl, some, [], ◌∷◌, arith}
use multi_pand_os.Kernel.{Kernel, State, zero_state}
use multi_pand_os.Machine.{Machine}
use multi_pand_os.Exceptions.Termination.{pass_up_or_die}
use multi_pand_os.Interrupts.RoundRobin.{Charged, run_slices-round}
use multi_pand_os.Interrupts.Turns.{Slice, Turn, run_slices}
use multi_pand_os.Dispatcher.{exception_handler}
use multi_pand_os.Dispatcher.Timer.{exception_handler-mtip}
use multi_pand_os.Tests.Data.{lay, mach, two-Ring}
use multi_pand_os.Tests.Nucleus.{two_ready}

-- The local timer's bit and that of the timers.
abbrev timer : Machine
timer = record mach { cause = 0x240 }

-- The process at 1384 runs, and two are ready.
abbrev three_turns : Kernel
three_turns = record two_ready {
  current_process = λ i. 1384;
  p_s = λ p. record zero_state { pc_epc = p };
}

abbrev numbered : ℕ → State
numbered n = record zero_state { pc_epc = n }

abbrev slice : ℕ → Slice
slice n = record { word = λ a. n; saved_state = numbered n }

three-Turn : Turn lay timer three_turns (1384 ∷ 1000 ∷ 1192 ∷ [])
three-Turn = record {
  state = omega arith;
  current = refl;
  queue = two-Ring;
  distinct = (refl, (refl, (refl, (refl, (refl, tt)))));
}

run_slices-round_example :
    (k' : Kernel) × (run_slices lay timer (slice 1 ∷ slice 2 ∷ slice 3 ∷ []) three_turns
      ≡ some (numbered 1000 ∷ numbered 1192 ∷ numbered 1384 ∷ [], k'))
    × Turn lay timer k' (1384 ∷ 1000 ∷ 1192 ∷ [])
    × (k'.p_s ≡ three_turns.p_s)
    × Charged three_turns k' (1384 ∷ 1000 ∷ 1192 ∷ [])
run_slices-round_example =
    run_slices-round lay timer (slice 1 ∷ slice 2 ∷ slice 3 ∷ []) (1384 ∷ 1000 ∷ 1192 ∷ [])
      three_turns (omega arith) refl three-Turn

exception_handler-mtip_example :
    exception_handler lay timer three_turns ≡ pass_up_or_die lay timer 1 0 three_turns
exception_handler-mtip_example = exception_handler-mtip lay timer three_turns refl
