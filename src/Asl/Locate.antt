-- ===== src/Asl/Locate.antt =====
-- The search for a semaphore by its key, on the list and in memory.
use multi_pand_os.Base.{
  ℕ, ◌≡◌, ◌∙◌, refl, false, none, some, List, [], ◌∷◌, ◌++◌, arith, ◌==◌, ap, ◌⊎◌, inl, inr,
  Bool-cases, Bool,
}
use mathlib.Core.Path.{subst}
use multi_pand_os.Kernel.{Kernel, Layout}
use multi_pand_os.Asl.Active.{NoKey, Actives, Located}
use multi_pand_os.Asl.Spec.{Entry, Sems, locate, behind}
use multi_pand_os.Asl.Stored.{descs, descs-append, Stored, AllEntries, AllEntries-split}

-- None of the entries has the key.
abbrev pub NoEntry : ℕ → List Entry → Type 0
NoEntry sem [] = Unit
NoEntry sem (e ∷ es) = ((e.key == sem) ≡ false) × NoEntry sem es

pub record Found (sem : ℕ) (es : List Entry) (xs : List Entry) (e : Entry) (ys : List Entry)
    : Type 0 where
  pub located : locate sem es ≡ some (xs, e, ys)
  pub split : es ≡ xs ++ e ∷ ys
  pub key : e.key ≡ sem
  pub before : NoEntry sem xs

abbrev Outcome : ℕ → List Entry → Type 0
Outcome sem es =
    ((locate sem es ≡ none) × NoEntry sem es)
    ⊎ ((xs : List Entry) × (e : Entry) × (ys : List Entry) × Found sem es xs e ys)

locate-cons :
    (sem : ℕ) (e : Entry) (es : List Entry)
    → (e.key == sem) ≡ false
    → Outcome sem es
    → Outcome sem (e ∷ es)
locate-cons sem e es n (inl (l, absent)) = inl (rw n (ap (behind e) l), (n, absent))
locate-cons sem e es n (inr (xs, x, ys, f)) = inr (
  e ∷ xs,
  x,
  ys,
  record {
    located = rw n (ap (behind e) f.located);
    split = ap (λ (zs : List Entry). e ∷ zs) f.split;
    key = f.key;
    before = (n, f.before);
  },
)

pub locate-cases : (sem : ℕ) (es : List Entry) → Outcome sem es
locate-cases sem [] = inl (refl, tt)
locate-cases sem (e ∷ es) = elim (Bool-cases (e.key == sem)) [
  | inl i ↦
      inr ([], e, es, record { located = rw i refl; split = refl; key = ground arith; before = tt })
  | inr n ↦ locate-cons sem e es n (locate-cases sem es)
]

pub NoEntry-NoKey :
    (k : Kernel) (sem : ℕ) (es : List Entry)
    → AllEntries k es
    → NoEntry sem es
    → NoKey k sem (descs es)
NoEntry-NoKey k sem [] all absent = tt
NoEntry-NoKey k sem (e ∷ es) (i, all) (n, absent) = (rw i.key n, NoEntry-NoKey k sem es all absent)

pub Stored-Actives :
    {y : Layout} {is_pcb : ℕ → Bool} {k : Kernel} {s : Sems}
    → Stored y is_pcb k s
    → Actives y k (descs s.entries)
Stored-Actives w = record { ring = w.active; few = omega (arith, w.sorted.few_descs) }

pub Stored-Located :
    {y : Layout} {is_pcb : ℕ → Bool} {k : Kernel} (sem : ℕ) (xs : List Entry) (e : Entry)
    (ys : List Entry) {fs : List ℕ} {f : ℕ → ℕ}
    → Stored y is_pcb k (record { entries = xs ++ e ∷ ys; free = fs; sem_of = f })
    → e.key ≡ sem
    → NoEntry sem xs
    → Located y k sem e.desc (descs xs) (descs ys)
Stored-Located {y} {is_pcb} {k} sem xs e ys w key absent =
    let (before, (at, after)) = AllEntries-split k xs (e ∷ ys) w.entries in
    record {
      actives = subst (Actives y k) (descs-append xs (e ∷ ys)) (Stored-Actives w);
      key = at.key ∙ key;
      first = NoEntry-NoKey k sem xs before absent;
    }
