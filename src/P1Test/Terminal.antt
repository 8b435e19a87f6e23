-- ===== src/P1Test/Terminal.antt =====
-- The terminal of phase1/p1test.c: `termstat` and `termprint`.
use Prim.Native.Nat.{bit_and, bit_or}
use multi_pand_os.Base.{
  ℕ, zero, suc, ◌+◌, ◌*◌, ◌%◌, ◌^◌, Bool, true, false, not, ◌||◌, Option, none, some, List, [], ◌∷◌,
  ◌++◌, ltb, ◌==◌, if◌then◌else◌,
}
use multi_pand_os.Kernel.{◌>>=◌}

-- The constants of the machine's headers, and the word that a device register holds after the
-- writes so far and the reads since the last of them.
pub record Devices : Type 0 where
  pub dev_per_int : ℕ
  pub dev_reg_size : ℕ
  pub dev_reg_len : ℕ
  pub tran_status : ℕ
  pub tran_command : ℕ
  pub ready : ℕ
  pub busy : ℕ
  pub register : (address : ℕ) → (written : List (ℕ × ℕ)) → (reads : ℕ) → ℕ

-- The writes to device registers, addresses and values, and the reads since the last write.
pub record Traffic : Type 0 where
  pub written : List (ℕ × ℕ)
  pub reads : ℕ

abbrev pub transmitted : ℕ
transmitted = 5

abbrev pub printchr : ℕ
printchr = 2

abbrev pub charoffset : ℕ
charoffset = 8

abbrev pub statusmask : ℕ
statusmask = 0xff

abbrev pub term0addr : ℕ
term0addr = 0x10000254

-- (*str << CHAROFFSET) | PRINTCHR
abbrev pub cmd_of : ℕ → ℕ
cmd_of c = bit_or (c * 2 ^ charoffset % 2 ^ 32) printchr

abbrev pub write : (address value : ℕ) → Traffic → Traffic
write a v t = record { written = t.written ++ (a, v) ∷ []; reads = 0 }

module _ (d : Devices) where
  unfoldable pub termstat : (stataddr : ℕ) → Traffic → ℕ × Traffic
  termstat a t =
      (bit_and (d.register a t.written t.reads) statusmask, record t { reads = t.reads + 1 })

  -- while (stat == BUSY) stat = termstat(statusp);
  unfoldable pub wait_busy : (rounds statusp stat : ℕ) → Traffic → Option (ℕ × Traffic)
  unfolding termstat
  wait_busy zero a stat t = none
  wait_busy (suc rounds) a stat t =
      let (stat', t') = termstat a t in
      let rest = wait_busy rounds a stat' t' in if stat == d.busy then rest else some (stat, t)

  -- The print cycle; the result is `error`.
  unfoldable pub print_cycle :
      (rounds statusp commandp : ℕ) → List ℕ → Traffic → Option (Bool × Traffic)
  unfolding termstat wait_busy
  print_cycle rounds statusp commandp [] t = some (false, t)
  print_cycle rounds statusp commandp (c ∷ cs) t = do
    (stat, t') ←
        (let (stat, t') = termstat statusp (write commandp (cmd_of c) t) in
          wait_busy rounds statusp stat t')
    let rest = print_cycle rounds statusp commandp cs t'
    if not (stat == transmitted) then some (true, t') else rest

  abbrev pub statusp_of : (term : ℕ) → ℕ
  statusp_of term = term0addr + term * d.dev_reg_size + d.tran_status * d.dev_reg_len

  abbrev pub commandp_of : (term : ℕ) → ℕ
  commandp_of term = term0addr + term * d.dev_reg_size + d.tran_command * d.dev_reg_len

  unfoldable pub termprint : (rounds : ℕ) → List ℕ → (term : ℕ) → Traffic → Option (Bool × Traffic)
  unfolding print_cycle
  termprint rounds str term t =
      let (stat, t') = termstat (statusp_of term) t in
      let available = do
        (error, t'') ← print_cycle rounds (statusp_of term) (commandp_of term) str t'
        some (not error, t'')
      in if ltb term d.dev_per_int
        then (if stat == d.ready || stat == transmitted then available else some (false, t'))
        else some (false, t)
