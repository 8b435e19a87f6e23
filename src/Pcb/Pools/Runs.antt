-- ===== src/Pcb/Pools/Runs.antt =====
-- Runs of allocPcb, freePcb, insertProcQ, removeProcQ and outProcQ of phase1/pcb.c.
use multi_pand_os.Base.{ℕ, ◌≡◌, ◌∙◌, refl, Bool, some, List, [], ◌∷◌}
use multi_pand_os.Base.Tally.{tally}
use multi_pand_os.Kernel.{Kernel, Layout}
use multi_pand_os.Pcb.Pools.{
  Pools, pcbs, Call, alloc, release, enqueue, dequeue, drop, move, moves, Permitted, AllPermitted,
  Placed, perform_all,
}
use multi_pand_os.Pcb.Pools.Steps.{Does, release-Does, enqueue-Does, dequeue-Does, drop-Does}
use multi_pand_os.Pcb.Pools.Taken.{alloc-Does}

perform-Does :
    {y : Layout} {h : ℕ} {node : ℕ → Bool} {k : Kernel} {s : Pools} (c : Call)
    → Placed y h node k s
    → Permitted c s
    → Does y h node c k s (move c s)
perform-Does {s = s} alloc w ok = alloc-Does w s.free refl
perform-Does (release p) w ok = release-Does w p ok
perform-Does (enqueue p) w ok = enqueue-Does w p ok
perform-Does {s = s} dequeue w ok = dequeue-Does w s.ready refl
perform-Does (drop p) w ok = drop-Does w p

-- Every run of allocPcb, freePcb, insertProcQ, removeProcQ and outProcQ on the free list and one
-- queue ends and answers call for call what the lists answer, if only PCBs that are out are released
-- or queued: allocPcb gives the first free PCB away, or NULL when there is none, freePcb puts one
-- behind the others, and the queue is first in, first out. At the end each PCB is at as many places
-- as at the start, which is one: none is lost, and none is both free and in use.
pub perform_all-moves :
    (y : Layout) (h : ℕ) (node : ℕ → Bool) (cs : List Call) (k : Kernel) (s : Pools)
    → Placed y h node k s
    → AllPermitted cs s
    → (k' : Kernel) × (perform_all y h cs k ≡ some ((moves cs s).0, k'))
      × Placed y h node k' (moves cs s).1
      × ((a : ℕ) → tally a (pcbs (moves cs s).1) ≡ tally a (pcbs s))
unfolding perform_all
perform_all-moves y h node [] k s w ok = (k, refl, w, λ a. refl)
perform_all-moves y h node (c ∷ cs) k s w (ok, oks) =
    let (k', e, w', same) = perform-Does c w ok in
    let (k'', e', w'', same') = perform_all-moves y h node cs k' (move c s).1 w' oks in
    (k'', rw (e, e') refl, w'', λ a. same' a ∙ same.tallies a)
