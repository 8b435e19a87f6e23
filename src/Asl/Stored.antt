-- ===== src/Asl/Stored.antt =====
-- Where the semaphores of phase1/asl.c lie in memory.
pub mod Tally
pub mod Moves
use multi_pand_os.Base.{
  ℕ, ◌+◌, ◌<◌, ◌≤◌, ◌≡◌, ◌∙◌, refl, ap, true, false, Bool, List, [], ◌∷◌, ◌++◌, arith, map, has,
  length, length-append, Distinct, Bool-cases, inl, inr, ◌==◌,
}
use multi_pand_os.Base.Tally.{
  tally, one_if, tally-append, tally-out, tally-in, tally-has, Distinct-Once, Once-Distinct,
  Once-Apart,
}
use multi_pand_os.Listx.Ring.{Ring, SameOutside, Ring-frame}
use multi_pand_os.Kernel.{Kernel, Layout, max_proc, s_link, s_procq}
use multi_pand_os.Asl.Spec.{Entry, Sems, queue, waiters}

abbrev pub descs : List Entry → List ℕ
descs [] = []
descs (e ∷ es) = e.desc ∷ descs es

pub descs-append : (xs ys : List Entry) → descs (xs ++ ys) ≡ descs xs ++ descs ys
descs-append [] ys = refl
descs-append (e ∷ xs) ys = ap (λ (ds : List ℕ). e.desc ∷ ds) (descs-append xs ys)

pub map-descs :
    (f : ℕ → ℕ) (xs ys : List Entry)
    → map f (descs (xs ++ ys)) ≡ map f (descs xs) ++ map f (descs ys)
map-descs f [] ys = refl
map-descs f (e ∷ xs) ys = ap (λ (ds : List ℕ). f e.desc ∷ ds) (map-descs f xs ys)

-- The links that the nucleus never moves between processes: the heads of the two lists, and the
-- links and queue heads of all descriptors.
abbrev pub fixed : Layout → List Entry → List ℕ → List ℕ
fixed y es fs =
    (y.semd_h ∷ map s_link (descs es))
    ++ (y.semd_free_h ∷ map s_link fs)
    ++ map s_procq (descs es)
    ++ map s_procq fs

-- A semaphore's queue lies behind its descriptor's head, and the descriptor has the key.
pub record IsEntry (k : Kernel) (e : Entry) : Type 0 where
  pub ring : Ring k.links (s_procq e.desc) (queue e)
  pub key : k.s_key e.desc ≡ e.key

abbrev pub AllEntries : Kernel → List Entry → Type 0
AllEntries k [] = Unit
AllEntries k (e ∷ es) = IsEntry k e × AllEntries k es

-- No two of the addresses are the same, PCBs (`is_pcb`) are none of the fixed ones, and there are no
-- more descriptors and PCBs than MAXPROC.
pub record Sorted (y : Layout) (is_pcb : ℕ → Bool) (es : List Entry) (fs : List ℕ) : Type 0 where
  pub distinct : Distinct (fixed y es fs)
  pub waiting : Distinct (waiters es)
  pub not_pcbs : (a : ℕ) → has a (fixed y es fs) ≡ true → is_pcb a ≡ false
  pub pcbs : (a : ℕ) → has a (waiters es) ≡ true → is_pcb a ≡ true
  pub few_descs : length (descs es) + length fs ≤ max_proc
  pub few_waiters : length (waiters es) ≤ max_proc

-- The memory holds these semaphores.
pub record Stored (y : Layout) (is_pcb : ℕ → Bool) (k : Kernel) (s : Sems) : Type 0 where
  pub active : Ring k.links y.semd_h (map s_link (descs s.entries))
  pub free : Ring k.links y.semd_free_h (map s_link s.free)
  pub entries : AllEntries k s.entries
  pub remembered : k.p_sem_add ≡ s.sem_of
  pub sorted : Sorted y is_pcb s.entries s.free

-- The cells of the queues, their heads included.
abbrev pub cells : List Entry → List ℕ
cells [] = []
cells (e ∷ es) = s_procq e.desc ∷ queue e ++ cells es

-- Writes that spare the cells and the keys.
pub AllEntries-frame :
    (es : List Entry) (ws : List ℕ) (k k' : Kernel)
    → SameOutside ws k.links k'.links
    → ((a : ℕ) → tally a ws + tally a (cells es) ≤ 1)
    → ((d : ℕ) → has d (descs es) ≡ true → k'.s_key d ≡ k.s_key d)
    → AllEntries k es
    → AllEntries k' es
AllEntries-frame [] ws k k' same off keys all = tt
AllEntries-frame (e ∷ es) ws k k' same off keys (i, all) =
    let split = λ (a : ℕ). tally-append a e.others (cells es) in
    (
      record {
        ring =
            Ring-frame (s_procq e.desc) (queue e) ws i.ring same
              (Once-Apart ws (s_procq e.desc ∷ queue e) (λ a. omega (arith, off a, split a)));
        key = keys e.desc (ground arith) ∙ i.key;
      },
      AllEntries-frame es ws k k' same (λ a. omega (arith, off a, split a))
          (λ d h. keys d (ground arith)) all,
    )

pub AllEntries-append :
    (k : Kernel) (xs ys : List Entry) → AllEntries k xs → AllEntries k ys → AllEntries k (xs ++ ys)
AllEntries-append k [] ys a b = b
AllEntries-append k (e ∷ xs) ys (i, a) b = (i, AllEntries-append k xs ys a b)

pub AllEntries-split :
    (k : Kernel) (xs ys : List Entry) → AllEntries k (xs ++ ys) → AllEntries k xs × AllEntries k ys
AllEntries-split k [] ys a = (tt, a)
AllEntries-split k (e ∷ xs) ys (i, a) = let (b, c) = AllEntries-split k xs ys a in ((i, b), c)
