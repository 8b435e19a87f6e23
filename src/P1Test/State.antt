-- ===== src/P1Test/State.antt =====
-- The globals of phase1/p1test.c, and its buffers: `addokbuf` and `adderrbuf`.
use Prim.Native.String.{String}
use multi_pand_os.Base.{ℕ, ◌+◌, ◌-◌, Bool, Option, none, some, List, [], ◌∷◌, if◌then◌else◌}
use multi_pand_os.Base.Text.{codes}
use multi_pand_os.Listx.{update}
use multi_pand_os.Kernel.{Kernel, Layout}
use multi_pand_os.P1Test.Terminal.{Devices, Traffic, termprint}

-- `mp` is the index in `okbuf` that the pointer of that name points to.
pub record Bench : Type 0 where
  pub kernel : Kernel
  pub okbuf : ℕ → ℕ
  pub errbuf : ℕ → ℕ
  pub mp : ℕ
  pub traffic : Traffic
  pub procp : ℕ → ℕ
  pub p : ℕ
  pub q : ℕ
  pub firstproc : ℕ
  pub midproc : ℕ
  pub lastproc : ℕ

-- The addresses of the local `qa` and of `sem` and `onesem`, and how often a busy terminal is asked.
pub record Setting : Type 0 where
  pub layout : Layout
  pub devices : Devices
  pub qa : ℕ
  pub sem : ℕ
  pub onesem : ℕ
  pub patience : ℕ

pub data Result {ℓ} (A : Type ℓ) : Type ℓ where
  done : A → Bench → Result A
  panic : Bench → Result A
  out_of_rounds : Result A

abbrev pub Test {ℓ} : Type ℓ → Type ℓ
Test A = Bench → Result A

abbrev pub and_then {ℓ κ} : {A : Type ℓ} {B : Type κ} → Result A → (A → Test B) → Result B
and_then (done a b) f = f a b
and_then (panic b) f = panic b
and_then out_of_rounds f = out_of_rounds

infixl 5 ◌>>=◌ ◌>>◌
abbrev pub ◌>>=◌ {ℓ κ} : {A : Type ℓ} {B : Type κ} → Test A → (A → Test B) → Test B
◌>>=◌ m f b = and_then (m b) f

abbrev pub ◌>>◌ {ℓ κ} : {A : Type ℓ} {B : Type κ} → Test A → Test B → Test B
◌>>◌ m n b = and_then (m b) (λ _. n)

abbrev pub look {ℓ} : {A : Type ℓ} → (Bench → A) → Test A
look f b = done (f b) b

abbrev pub change : (Bench → Bench) → Test (Unit {0})
change f b = done tt (f b)

-- Calls of phase1/pcb.c and phase1/asl.c.
abbrev pub call {ℓ} : {A : Type ℓ} → (Kernel → A × Kernel) → Test A
call f b = let (a, k) = f b.kernel in done a (record b { kernel = k })

abbrev pub do_call : (Kernel → Kernel) → Test (Unit {0})
do_call f b = done tt (record b { kernel = f b.kernel })

abbrev pub looped {ℓ} : {A : Type ℓ} → Option (A × Kernel) → Test A
looped none b = out_of_rounds
looped (some (a, k)) b = done a (record b { kernel = k })

abbrev pub call_loop {ℓ} : {A : Type ℓ} → (Kernel → Option (A × Kernel)) → Test A
call_loop f b = looped (f b.kernel) b

abbrev pub asked {ℓ} : {A : Type ℓ} → Option A → Test A
asked none b = out_of_rounds
asked (some a) b = done a b

abbrev pub ask {ℓ} : {A : Type ℓ} → (Kernel → Option A) → Test A
ask f b = asked (f b.kernel) b

-- while ((*to++ = *from++) != '\0'); the result points behind the end mark.
unfoldable pub copy_text : (to : ℕ) → List ℕ → (ℕ → ℕ) → ℕ × (ℕ → ℕ)
copy_text to [] buf = (to + 1, update buf to 0)
copy_text to (c ∷ cs) buf = copy_text (to + 1) cs (update buf to c)

abbrev printed : Option (Bool × Traffic) → Test (Unit {0})
printed none b = out_of_rounds
printed (some (ok, t)) b = done tt (record b { traffic = t })

module _ (x : Setting) where
  -- termprint(str, 0), whose result is dropped.
  unfoldable pub print_text : List ℕ → Test (Unit {0})
  print_text str b = printed (termprint x.devices x.patience str 0 b.traffic) b

  unfoldable pub add_ok_codes : List ℕ → Test (Unit {0})
  unfolding copy_text print_text
  add_ok_codes str b =
      let (end, buf) = copy_text b.mp str b.okbuf in
      print_text str (record b { okbuf = buf; mp = end - 1 })

  abbrev pub addokbuf : String → Test (Unit {0})
  addokbuf msg = add_ok_codes (codes msg)

  abbrev stops : Result (Unit {0}) → Result (Unit {0})
  stops (done a b) = panic b
  stops (panic b) = panic b
  stops out_of_rounds = out_of_rounds

  unfoldable pub add_err_codes : List ℕ → Test (Unit {0})
  unfolding copy_text print_text
  add_err_codes str b = stops (print_text str (record b { errbuf = (copy_text 0 str b.errbuf).1 }))

  abbrev pub adderrbuf : String → Test (Unit {0})
  adderrbuf msg = add_err_codes (codes msg)

  -- if (failed) adderrbuf(msg);
  abbrev pub fails : Bool → String → Test (Unit {0})
  fails failed msg b = if failed then adderrbuf msg b else done tt b
