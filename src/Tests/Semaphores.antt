-- ===== src/Tests/Semaphores.antt =====
-- phase1/asl.c at two semaphores.
use multi_pand_os.Base.{◌≡◌, some, [], ◌∷◌}
use multi_pand_os.Listx.Ring.{Ring}
use multi_pand_os.Kernel.{with_links, Kernel}
use multi_pand_os.Asl.{remove_blocked}
use multi_pand_os.Asl.Remove.{remove_blocked_lem}
use multi_pand_os.Tests.Data.{lay, waiting, waiting-Waiting, waiting-Located}

remove_blocked_lem_example :
    (k' : Kernel) × (remove_blocked lay 50000 (waiting 50000) ≡ some (some 1000, k'))
    × Ring k'.links 300 []
    × Ring k'.links 200 (6012 ∷ [])
    × Ring k'.links 1000 (1192 ∷ [])
    × Ring k'.links 6004 []
    × (k' ≡ with_links (λ _. k'.links) (waiting 50000))
remove_blocked_lem_example =
    remove_blocked_lem 50000 6000 [] [] [] 1000 (1192 ∷ []) (waiting-Waiting 50000)
      (waiting-Located 50000)
