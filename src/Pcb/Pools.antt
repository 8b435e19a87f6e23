-- ===== src/Pcb/Pools.antt =====
-- Where the PCBs of phase1/pcb.c are: free, in a queue, or with the one that allocated them.
pub mod Runs
pub mod Steps
pub mod Taken
use multi_pand_os.Base.{
  ℕ, ◌+◌, ◌≤◌, ◌≡◌, Bool, true, false, Option, none, some, List, [], ◌∷◌, ◌++◌, ◌==◌, has, length,
  erase, if◌then◌else◌, Distinct,
}
use multi_pand_os.Kernel.{Kernel, Layout, null, max_proc, p_child, p_sib, ◌>>=◌}
use multi_pand_os.Pcb.{alloc_pcb, free_pcb, insert_proc_q, remove_proc_q, out_proc_q}
use multi_pand_os.Pcb.Queue.{IsQueue}

pub record Pools : Type 0 where
  pub free : List ℕ
  pub ready : List ℕ
  pub held : List ℕ

abbrev pub pcbs : Pools → List ℕ
pcbs s = s.free ++ (s.ready ++ s.held)

pub data Call : Type 0 where
  alloc : Call
  release : ℕ → Call
  enqueue : ℕ → Call
  dequeue : Call
  drop : ℕ → Call

abbrev pub alloc_from : List ℕ → Pools → Option ℕ × Pools
alloc_from [] s = (none, s)
alloc_from (p ∷ ps) s = (some p, record s { free = ps; held = p ∷ s.held })

abbrev pub dequeue_from : List ℕ → Pools → Option ℕ × Pools
dequeue_from [] s = (none, s)
dequeue_from (p ∷ ps) s = (some p, record s { ready = ps; held = p ∷ s.held })

-- What a call answers, and where the PCBs are then.
abbrev pub move : Call → Pools → Option ℕ × Pools
move alloc s = alloc_from s.free s
move (release p) s = (none, record s { free = s.free ++ p ∷ []; held = erase p s.held })
move (enqueue p) s = (none, record s { ready = s.ready ++ p ∷ []; held = erase p s.held })
move dequeue s = dequeue_from s.ready s
move (drop p) s =
    if has p s.ready
    then (some p, record s { ready = erase p s.ready; held = p ∷ s.held })
    else (none, s)

abbrev pub moves : List Call → Pools → List (Option ℕ) × Pools
moves [] s = ([], s)
moves (c ∷ cs) s = let (a, s') = move c s in let (as', s'') = moves cs s' in (a ∷ as', s'')

-- Only a PCB that was given out is released or put into the queue.
abbrev pub Permitted : Call → Pools → Type 0
Permitted alloc s = Unit
Permitted (release p) s = has p s.held ≡ true
Permitted (enqueue p) s = has p s.held ≡ true
Permitted dequeue s = Unit
Permitted (drop p) s = Unit

abbrev pub AllPermitted : List Call → Pools → Type 0
AllPermitted [] s = Unit
AllPermitted (c ∷ cs) s = Permitted c s × AllPermitted cs (move c s).1

unfoldable pub perform : Layout → (queue : ℕ) → Call → Kernel → Option (Option ℕ × Kernel)
perform y h alloc k = some (alloc_pcb y k)
perform y h (release p) k = some (none, free_pcb y p k)
perform y h (enqueue p) k = some (none, insert_proc_q h p k)
perform y h dequeue k = some (remove_proc_q h k)
perform y h (drop p) k = out_proc_q h p k

-- The calls one behind the other, with their answers.
unfoldable pub perform_all :
    Layout → (queue : ℕ) → List Call → Kernel → Option (List (Option ℕ) × Kernel)
unfolding perform
perform_all y h [] k = some ([], k)
perform_all y h (c ∷ cs) k = do
  (a, k') ← perform y h c k
  (as', k'') ← perform_all y h cs k'
  some (a ∷ as', k'')

-- `node` tells the addresses of list nodes: the two heads and the PCBs, but not the heads inside a
-- PCB. No PCB is at two places, and there are no more than MAXPROC.
pub record Placed (y : Layout) (h : ℕ) (node : ℕ → Bool) (k : Kernel) (s : Pools) : Type 0 where
  pub free : IsQueue k y.pcb_free_h s.free
  pub ready : IsQueue k h s.ready
  pub distinct : Distinct (y.pcb_free_h ∷ h ∷ pcbs s)
  pub few : length (pcbs s) ≤ max_proc
  pub nodes : (a : ℕ) → has a (y.pcb_free_h ∷ h ∷ pcbs s) ≡ true → node a ≡ true
  pub inner :
      (p : ℕ) → has p (pcbs s) ≡ true → (node (p_child p) ≡ false) × (node (p_sib p) ≡ false)
  pub no_null : node null ≡ false
