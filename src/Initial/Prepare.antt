-- ===== src/Initial/Prepare.antt =====
-- `main` of phase2/initial.c up to the first process: the tables, the lists and the counts.
use mathlib.Core.Path.{subst}
use multi_pand_os.Base.{
  ℕ, zero, suc, ◌+◌, ◌*◌, ◌-◌, ◌≤◌, ◌<◌, ◌≡◌, ◌≢◌, refl, sym, ◌∙◌, true, false, List, [], ◌∷◌, ◌==◌,
  ==_refl, arith, has, has-differs, Bool-cases, inl, inr, Apart,
}
use multi_pand_os.Listx.{Links, list_add, list_add_between, update}
use multi_pand_os.Listx.Ring.{Ring, SameOutside, Ring-frame}
use multi_pand_os.Kernel.{Kernel, Layout, max_proc, null, s_link, with_links}
use multi_pand_os.Machine.{Machine}
use multi_pand_os.Pcb.{init_pcbs, init_pcbs_from, mk_empty_proc_q}
use multi_pand_os.Pcb.Alloc.{entry, entries, heads, init_pcbs_lem}
use multi_pand_os.Asl.{init_asl, init_asl_from}
use multi_pand_os.Listx.Edit.{init_list_head-Ring, init_list_head-SameOutside}
use multi_pand_os.Exceptions.Termination.{ncpu}
use multi_pand_os.Exceptions.Syscalls.{dev_sem, nrsemaphores}
use multi_pand_os.Interrupts.{psecond}
use multi_pand_os.Initial.{
  biosdatapage, prepare, clear_semaphores, clear_currents, first_vector, other_vectors,
}

abbrev pub semd : Layout → ℕ → ℕ
semd y i = s_link (y.semd_table + i * y.sizeof_semd)

-- The nodes of the descriptors `i`, …, `i + rounds - 1` of the table.
abbrev pub semds : Layout → (rounds i : ℕ) → List ℕ
semds y zero i = []
semds y (suc rounds) i = semd y i ∷ semds y rounds (i + 1)

list_add-inside :
    (l : Links) (new h : ℕ) (ws : List ℕ)
    → has new ws ≡ true
    → has h ws ≡ true
    → has (l.next h) ws ≡ true
    → SameOutside ws l (list_add new h l) × (has ((list_add new h l).next h) ws ≡ true)
unfolding list_add list_add_between
list_add-inside l new h ws n i j = (
  λ a o.
      let e = has-differs a new ws o n in
      let e' = has-differs a h ws o i in
      let e'' = has-differs a (l.next h) ws o j in
      (ground (arith, e, e', e''), ground (arith, e, e', e'')),
  ground (arith, n, ==_refl h),
)

-- `initASL` writes to the nodes of the descriptors and to the head of the free ones.
init_asl_from-SameOutside :
    (y : Layout) (rounds i : ℕ) (k : Kernel) (ws : List ℕ)
    → has y.semd_free_h ws ≡ true
    → has (k.links.next y.semd_free_h) ws ≡ true
    → ((a : ℕ) → has a (semds y rounds i) ≡ true → has a ws ≡ true)
    → SameOutside ws k.links (init_asl_from y rounds i k).links
unfolding init_asl_from
init_asl_from-SameOutside y zero i k ws head next new = λ a o. (refl, refl)
init_asl_from-SameOutside y (suc rounds) i k ws head next new =
    let (same, next') =
      list_add-inside k.links (semd y i) y.semd_free_h ws
        (new (semd y i) (ground (arith, ==_refl (semd y i)))) head next in
    let rest =
      init_asl_from-SameOutside y rounds (i + 1) (with_links (list_add (semd y i) y.semd_free_h) k)
        ws head next' (λ a h. new a (ground (arith, h))) in
    λ a o. ((rest a o).0 ∙ (same a o).0, (rest a o).1 ∙ (same a o).1)

-- How the linker places the tables and lists: no two of the nodes share an address.
pub record Placed (y : Layout) : Type 0 where
  pub size : 0 < y.sizeof_pcb
  pub head : (j : ℕ) → j < max_proc → entry y j ≢ y.pcb_free_h
  pub semaphores :
      Apart (y.semd_free_h ∷ semds y max_proc 0) (y.pcb_free_h ∷ entries y max_proc 0 [])
  pub ready : has y.ready_queue (y.pcb_free_h ∷ entries y max_proc 0 []) ≡ false
  pub last_null : entry y 19 ≢ null
  pub last_free : Apart (heads (entry y 19)) (y.pcb_free_h ∷ entries y 19 0 [])
  pub last_ready : Apart (heads (entry y 19)) (y.ready_queue ∷ [])

-- The list heads that are initialised where they are declared.
pub record Declared (y : Layout) (k : Kernel) : Type 0 where
  pub pcb_free : Ring k.links y.pcb_free_h []
  pub semd_free : Ring k.links y.semd_free_h []

-- What `main` has made ready when it calls `allocPcb`.
pub record Prepared (y : Layout) (k : Kernel) : Type 0 where
  pub free : Ring k.links y.pcb_free_h (entries y max_proc 0 [])
  pub ready : Ring k.links y.ready_queue []
  pub processes : k.process_count ≡ 0
  pub waiting : k.waiting_count ≡ 0
  pub lock : k.global_lock ≡ 0

entries-keeps :
    (y : Layout) (rounds i a : ℕ) (ps : List ℕ)
    → has a ps ≡ true
    → has a (entries y rounds i ps) ≡ true
entries-keeps y zero i a ps h = h
entries-keeps y (suc rounds) i a ps h =
    entries-keeps y rounds (i + 1) a (entry y i ∷ ps) (ground (arith, h))

entries-has :
    (y : Layout) (rounds i j : ℕ) (ps : List ℕ)
    → i ≤ j
    → j < i + rounds
    → has (entry y j) (entries y rounds i ps) ≡ true
entries-has y zero i j ps le lt = absurd (omega arith)
entries-has y (suc rounds) i j ps le lt = elim (Bool-cases (i == j)) [
  | inl e ↦
      let same : i ≡ j = ground arith in
      entries-keeps y rounds (i + 1) (entry y j) (entry y i ∷ ps) (
        subst (λ n. has (entry y n) (entry y i ∷ ps) ≡ true) same
          (ground (arith, ==_refl (entry y i))))
  | inr e ↦ entries-has y rounds (i + 1) j (entry y i ∷ ps) (ground arith) (omega arith)
]

-- `initPcbs` writes to the PCBs of the table and to the head of the free ones.
init_pcbs_from-SameOutside :
    (y : Layout) (rounds i : ℕ) (k : Kernel) (ws : List ℕ)
    → has y.pcb_free_h ws ≡ true
    → has (k.links.next y.pcb_free_h) ws ≡ true
    → ((j : ℕ) → i ≤ j → j < i + rounds → has (entry y j) ws ≡ true)
    → SameOutside ws k.links (init_pcbs_from y rounds i k).links
unfolding init_pcbs_from
init_pcbs_from-SameOutside y zero i k ws head next new = λ a o. (refl, refl)
init_pcbs_from-SameOutside y (suc rounds) i k ws head next new =
    let (same, next') =
      list_add-inside k.links (entry y i) y.pcb_free_h ws (new i (omega arith) (omega arith)) head
        next in
    let rest =
      init_pcbs_from-SameOutside y rounds (i + 1) (with_links (list_add (entry y i) y.pcb_free_h) k)
        ws head next' (λ j le lt. new j (omega arith) (omega arith)) in
    λ a o. ((rest a o).0 ∙ (same a o).0, (rest a o).1 ∙ (same a o).1)

-- Both tables: the free PCBs as `initPcbs` leaves them.
tables :
    (y : Layout) (k : Kernel)
    → Placed y
    → Declared y k
    → Ring (init_asl y (init_pcbs y k)).links y.pcb_free_h (entries y max_proc 0 [])
unfolding init_asl init_pcbs
tables y k a d =
    let pcbs = y.pcb_free_h ∷ entries y max_proc 0 [] in
    let semaphores = y.semd_free_h ∷ semds y max_proc 0 in
    let same =
      init_pcbs_from-SameOutside y max_proc 0 k pcbs (ground (arith, ==_refl y.pcb_free_h))
        (ground (arith, d.pcb_free.closed.0, ==_refl y.pcb_free_h))
        (λ j le lt. ground (arith, entries-has y max_proc 0 j [] le lt)) in
    let untouched = same y.semd_free_h a.semaphores.0 in
    Ring-frame y.pcb_free_h (entries y max_proc 0 []) semaphores
      (init_pcbs_lem y k d.pcb_free a.size a.head).0
      (init_asl_from-SameOutside y max_proc 0 (init_pcbs y k) semaphores
        (ground (arith, ==_refl y.semd_free_h))
        (ground (arith, untouched.0, d.semd_free.closed.0, ==_refl y.semd_free_h))
        (λ b i. ground (arith, i)))
      a.semaphores

-- Only the words of the semaphores change.
clear_semaphores_eq :
    (y : Layout) (rounds i : ℕ) (k : Kernel)
    → clear_semaphores y rounds i k ≡ record k { word = (clear_semaphores y rounds i k).word }
unfolding clear_semaphores
clear_semaphores_eq y zero i k = refl
clear_semaphores_eq y (suc rounds) i k =
    clear_semaphores_eq y rounds (i + 1) (record k { word = update k.word (dev_sem y i) 0 })

emptied-Prepared :
    (y : Layout) (k : Kernel) (w : ℕ → ℕ) (timer : ℕ)
    → Placed y
    → Ring k.links y.pcb_free_h (entries y max_proc 0 [])
    → let k3 =
        mk_empty_proc_q y.ready_queue
          (record k { process_count = 0; waiting_count = 0; global_lock = 0 }) in
      Prepared y (record (clear_currents ncpu 0 k3) { word = w; interval_timer = timer })
unfolding mk_empty_proc_q clear_currents
emptied-Prepared y k w timer a r = record {
  free =
      Ring-frame y.pcb_free_h (entries y max_proc 0 []) (y.ready_queue ∷ []) r
        (init_list_head-SameOutside y.ready_queue k.links) (a.ready, tt);
  ready = init_list_head-Ring y.ready_queue k.links;
  processes = refl;
  waiting = refl;
  lock = refl;
}

pub prepare-Prepared :
    (y : Layout) (m : Machine) (k : Kernel)
    → Placed y
    → Declared y k
    → Prepared y (prepare y m k) × ((prepare y m k).interval_timer ≡ m.ldit psecond)
unfolding prepare first_vector other_vectors
prepare-Prepared y m k a d =
    let k1 =
      other_vectors (ncpu - 1) 1 (first_vector y (record k { current_state = biosdatapage })) in
    let k2 = init_asl y (init_pcbs y k1) in
    let k3 =
      mk_empty_proc_q y.ready_queue
        (record k2 { process_count = 0; waiting_count = 0; global_lock = 0 }) in
    let r = tables y k1 a (record { pcb_free = d.pcb_free; semd_free = d.semd_free }) in
    (
      subst (λ (g : Kernel). Prepared y (record g { interval_timer = m.ldit psecond }))
          (sym (clear_semaphores_eq y nrsemaphores 0 (clear_currents ncpu 0 k3)))
          (emptied-Prepared y k2 (clear_semaphores y nrsemaphores 0 (clear_currents ncpu 0 k3)).word
            (m.ldit psecond) a r),
      refl,
    )
