-- ===== src/Tests/P1Program.antt =====
-- `termprint` of phase1/p1test.c, on a terminal that takes its time.
use multi_pand_os.Base.{ℕ, List, leb, if◌then◌else◌, [], ◌∷◌}
use multi_pand_os.P1Test.Terminal.{Devices, Traffic}

-- READY before the first write, and busy for two reads after each.
abbrev slow_register : List (ℕ × ℕ) → ℕ → ℕ
slow_register [] r = 1
slow_register (x ∷ xs) r = if leb 2 r then 5 else 3

abbrev slow : Devices
slow = record {
  dev_per_int = 8;
  dev_reg_size = 16;
  dev_reg_len = 4;
  tran_status = 2;
  tran_command = 3;
  ready = 1;
  busy = 3;
  register = λ a w r. slow_register w r;
}

abbrev at_rest : Traffic
at_rest = record { written = []; reads = 7 }
