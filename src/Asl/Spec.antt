-- ===== src/Asl/Spec.antt =====
-- What the functions of phase1/asl.c do to the list of active semaphores, without memory: a semaphore
-- is a key and those who wait, in order, at the descriptor that it occupies.
use multi_pand_os.Base.{
  ℕ, ◌<◌, ◌≡◌, false, true, Bool, Option, none, some, List, [], ◌∷◌, ◌++◌, ◌==◌, if◌then◌else◌, has,
  length, erase,
}
use multi_pand_os.Listx.{update}
use multi_pand_os.Kernel.{max_proc}

pub record Entry : Type 0 where
  pub desc : ℕ
  pub key : ℕ
  pub first : ℕ
  pub others : List ℕ

abbrev pub queue : Entry → List ℕ
queue e = e.first ∷ e.others

-- The active semaphores, the free descriptors, and the semaphore that each process remembers.
pub record Sems : Type 0 where
  pub entries : List Entry
  pub free : List ℕ
  pub sem_of : ℕ → ℕ

-- An entry between those before and behind it.
abbrev pub Split : Type 0
Split = List Entry × Entry × List Entry

abbrev pub behind : Entry → Option Split → Option Split
behind e none = none
behind e (some (xs, x, ys)) = some (e ∷ xs, x, ys)

-- The first entry with the key.
abbrev pub locate : ℕ → List Entry → Option Split
locate sem [] = none
locate sem (e ∷ es) = if e.key == sem then some ([], e, es) else behind e (locate sem es)

pub data Op : Type 0 where
  insert : ℕ → ℕ → Op
  remove : ℕ → Op
  out : ℕ → Op
  head : ℕ → Op

-- `insertBlocked` answers a number, the others a process or NULL.
pub data Answer : Type 0 where
  code : ℕ → Answer
  process : Option ℕ → Answer

abbrev pub joined : ℕ → Entry → Entry
joined p e = record e { others = e.others ++ p ∷ [] }

-- The entry with the processes that still wait, if any.
abbrev pub requeued : Entry → List ℕ → List Entry
requeued e [] = []
requeued e (x ∷ xs) = record e { first = x; others = xs } ∷ []

abbrev pub freed : Entry → List ℕ → List ℕ → List ℕ
freed e [] fs = e.desc ∷ fs
freed e (x ∷ xs) fs = fs

abbrev pub activate : ℕ → ℕ → List ℕ → Sems → Answer × Sems
activate sem p [] s = (code 1, s)
activate sem p (d ∷ ds) s = (
  code 0,
  record s {
    entries = s.entries ++ record { desc = d; key = sem; first = p; others = [] } ∷ [];
    free = ds;
    sem_of = update s.sem_of p sem;
  },
)

-- What each operation does with what the search finds.
abbrev pub insert_at : ℕ → ℕ → Sems → Option Split → Answer × Sems
insert_at sem p s none = activate sem p s.free s
insert_at sem p s (some (xs, e, ys)) =
    (code 0, record s { entries = xs ++ joined p e ∷ ys; sem_of = update s.sem_of p sem })

-- The semaphore goes with all that wait.
abbrev pub remove_at : Sems → Option Split → Answer × Sems
remove_at s none = (process none, s)
remove_at s (some (xs, e, ys)) =
    (process (some e.first), record s { entries = xs ++ ys; free = e.desc ∷ s.free })

abbrev pub leave_at : ℕ → Sems → Split → List ℕ → Answer × Sems
leave_at p s (xs, e, ys) left = (
  process (some p),
  record s { entries = xs ++ (requeued e left ++ ys); free = freed e left s.free },
)

abbrev pub out_at : ℕ → Sems → Option Split → Answer × Sems
out_at p s none = (process none, s)
out_at p s (some (xs, e, ys)) =
    if has p (queue e) then leave_at p s (xs, e, ys) (erase p (queue e)) else (process none, s)

abbrev pub head_at : Sems → Option Split → Answer × Sems
head_at s none = (process none, s)
head_at s (some (xs, e, ys)) = (process (some e.first), s)

abbrev pub spec_step : Op → Sems → Answer × Sems
spec_step (insert sem p) s = insert_at sem p s (locate sem s.entries)
spec_step (remove sem) s = remove_at s (locate sem s.entries)
spec_step (out p) s = out_at p s (locate (s.sem_of p) s.entries)
spec_step (head sem) s = head_at s (locate sem s.entries)

abbrev pub spec_run : List Op → Sems → List Answer × Sems
spec_run [] s = ([], s)
spec_run (o ∷ os) s =
    let (a, s') = spec_step o s in let (ys', s'') = spec_run os s' in (a ∷ ys', s'')

-- All that wait, on any semaphore.
abbrev pub waiters : List Entry → List ℕ
waiters [] = []
waiters (e ∷ es) = queue e ++ waiters es

-- An insertion is of a PCB that waits nowhere, and of one that there is room for; `is_pcb` tells the
-- addresses of PCBs.
abbrev pub Allowed : (ℕ → Bool) → Op → Sems → Type 0
Allowed is_pcb (insert sem p) s =
    (is_pcb p ≡ true)
    × (has p (waiters s.entries) ≡ false)
    × (length (waiters s.entries) < max_proc)
Allowed is_pcb (remove sem) s = Unit
Allowed is_pcb (out p) s = Unit
Allowed is_pcb (head sem) s = Unit

abbrev pub AllAllowed : (ℕ → Bool) → List Op → Sems → Type 0
AllAllowed is_pcb [] s = Unit
AllAllowed is_pcb (o ∷ os) s = Allowed is_pcb o s × AllAllowed is_pcb os (spec_step o s).1
