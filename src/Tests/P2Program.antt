-- ===== src/Tests/P2Program.antt =====
-- Processes of phase2/p2test.c against given answers.
use multi_pand_os.Base.{ℕ, ◌+◌, ◌≡◌, refl, [], ◌∷◌, arith}
use multi_pand_os.Exceptions.Syscalls.{passeren, verhogen}
use multi_pand_os.P2Test.Names.{Image}
use multi_pand_os.P2Test.Print.{print_codes}
use multi_pand_os.P2Test.Timing.{await_tick}
use multi_pand_os.P2Test.Follow.{call, returned, panicked, follow}
use multi_pand_os.P2Test.Printed.{sends, print_codes-calls, print_codes-panics}
use multi_pand_os.P2Test.Waiting.{Tick, await_tick-ends, waited}

abbrev image : Image
image = record { at = λ g. 0x20002000; entry = λ e. 0x20001000; except_state = λ s. 0; reg_sp = 1 }

-- OK, with RECVD for both characters.
print_codes-calls_example :
    follow (print_codes image (0x4f ∷ 0x4b ∷ [])) (0 ∷ 5 ∷ 0x105 ∷ 0 ∷ 7 ∷ []) ≡ (
      call passeren 0x20002000 0 0 ∷ sends 0x4f ∷ sends 0x4b ∷ call verhogen 0x20002000 0 0 ∷ [],
      returned (7 ∷ []),
    )
print_codes-calls_example =
    print_codes-calls image (0x4f ∷ 0x4b ∷ []) (5 ∷ 0x105 ∷ []) (7 ∷ []) 0 0 refl refl

-- The second character fails.
print_codes-panics_example :
    follow (print_codes image (0x4f ∷ 0x4b ∷ 0x0a ∷ [])) (0 ∷ 5 ∷ 4 ∷ [])
    ≡ (call passeren 0x20002000 0 0 ∷ sends 0x4f ∷ sends 0x4b ∷ [], panicked)
print_codes-panics_example =
    print_codes-panics image (0x4f ∷ []) 0x4b (0x0a ∷ []) (5 ∷ []) 4 [] 0 refl refl refl

abbrev tick_of : ℕ → Tick
tick_of t = record { before = 1000; answer = 0; after = 1000 + t }

-- A short tick, and one of a whole clock interval.
await_tick-ends_example :
    follow (await_tick image 3 0 0) (1000 ∷ 0 ∷ 1200 ∷ 1000 ∷ 0 ∷ 101000 ∷ [])
    ≡ (waited 2, returned [])
await_tick-ends_example =
    await_tick-ends image (tick_of 200 ∷ []) (tick_of 100000) [] 3 refl refl (omega arith)
