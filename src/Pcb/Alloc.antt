-- ===== src/Pcb/Alloc.antt =====
-- The free PCBs of phase1/pcb.c: allocation, release, and the table that they come from.
use mathlib.Core.Path.{subst}
use multi_pand_os.Base.{
  ℕ, zero, suc, ◌+◌, ◌*◌, ◌<◌, ◌≤◌, ◌≡◌, ◌≢◌, refl, sym, false, none, some, List, [], ◌∷◌, ◌++◌,
  arith, ◌==◌, has, ne→==, Apart, length,
}
use multi_pand_os.Base.Word.{add32}
use multi_pand_os.Listx.{init_list_head, list_del, update}
use multi_pand_os.Listx.Ring.{Ring, SameOutside, Ring-frame}
use multi_pand_os.Listx.Edit.{
  list_add_tail-Ring, list_add-Ring, list_add_tail-SameOutside, list_del-Ring, list_del-spares,
  list_empty-nil, list_empty-cons,
}
use multi_pand_os.Listx.Search.{list_for_each-find, find-has}
use multi_pand_os.Kernel.{
  Kernel, Layout, State, zero_state, null, max_proc, max_rounds, p_child, p_sib, with_links,
}
use multi_pand_os.Pcb.{
  init_pcb, zero_pcb, alloc_pcb, free_pcb, init_pcbs, init_pcbs_from, is_in_pcb_free_h, clear_gpr,
  init_state,
}

-- What `allocPcb` makes of a PCB: no links, no relatives, no semaphore, no support structure, a
-- processor state of zeros that starts at `test`, and the next process number.
pub record IsFresh (y : Layout) (pid : ℕ) (k : Kernel) (p : ℕ) : Type 0 where
  pub list : Ring k.links p []
  pub child : Ring k.links (p_child p) []
  pub sib : Ring k.links (p_sib p) []
  pub parent : k.p_parent p ≡ null
  pub time : k.p_time p ≡ 0
  pub sem : k.p_sem_add p ≡ null
  pub support : k.p_support_struct p ≡ null
  pub number : k.p_pid p ≡ pid
  pub start : (k.p_s p).pc_epc ≡ y.test
  pub status : (k.p_s p).status ≡ 0
  pub cause : (k.p_s p).cause ≡ 0
  pub entry : (k.p_s p).entry_hi ≡ 0
  pub enabled : (k.p_s p).mie ≡ 0
  pub gprs : (i : ℕ) → (k.p_s p).gpr i ≡ 0

clear_gpr-zero :
    (y : Layout) (rounds i : ℕ) (g : ℕ → ℕ)
    → ((j : ℕ) → g j ≡ 0)
    → (j : ℕ) → clear_gpr y rounds i g j ≡ 0
unfolding clear_gpr
clear_gpr-zero y zero i g z j = z j
clear_gpr-zero y (suc rounds) i g z j =
    clear_gpr-zero y rounds (i + 1) (update g i 0) (λ m. ground (arith, z m)) j

-- The two steps of `allocPcb` behind the unlinking.
abbrev made : Layout → ℕ → Kernel → Kernel
made y p k = init_pcb y p (zero_pcb y p k)

module _ (y : Layout) (p : ℕ) (k : Kernel) (ne : p ≢ null) where
  made-state : (made y p k).p_s p ≡ init_state y zero_state
  unfolding init_pcb zero_pcb
  made-state = ground arith

  made-IsFresh : IsFresh y k.next_pid (made y p k) p
  unfolding init_pcb zero_pcb init_list_head
  made-IsFresh = record {
    list = record { chain = tt; closed = (ground arith, ground arith); distinct = (refl, tt) };
    child = record { chain = tt; closed = (ground arith, ground arith); distinct = (refl, tt) };
    sib = record { chain = tt; closed = (ground arith, ground arith); distinct = (refl, tt) };
    parent = ground arith;
    time = ground arith;
    sem = ground arith;
    support = ground arith;
    number = ground arith;
    start = ground arith;
    status = ground arith;
    cause = ground arith;
    entry = ground arith;
    enabled = ground arith;
    gprs = λ i.
        subst (λ (s : State). s.gpr i ≡ 0) (sym made-state)
          (clear_gpr-zero y y.state_gpr_len 0 (λ _. 0) (λ _. refl) i);
  }

  made-SameOutside : SameOutside (p ∷ p_child p ∷ p_sib p ∷ null ∷ []) k.links (made y p k).links
  unfolding init_pcb zero_pcb init_list_head
  made-SameOutside a o = (ground arith, ground arith)

-- With no free PCB `allocPcb` returns NULL and changes nothing.
pub alloc_pcb_nil :
    (y : Layout) (k : Kernel) → Ring k.links y.pcb_free_h [] → alloc_pcb y k ≡ (none, k)
unfolding alloc_pcb
alloc_pcb_nil y k r = rw (list_empty-nil y.pcb_free_h r)

abbrev taken : Layout → ℕ → Kernel → Kernel
taken y p k = made y p (with_links (list_del p) k)

alloc_pcb_eq :
    (y : Layout) (k : Kernel) (p : ℕ) (ps : List ℕ)
    → Ring k.links y.pcb_free_h (p ∷ ps)
    → alloc_pcb y k ≡ (some p, taken y p k)
unfolding alloc_pcb
alloc_pcb_eq y k p ps r = rw (list_empty-cons y.pcb_free_h p ps r, r.chain.0.0)

next_pid-taken : (y : Layout) (k : Kernel) (p : ℕ) → (taken y p k).next_pid ≡ add32 k.next_pid 1
unfolding init_pcb zero_pcb
next_pid-taken y k p = refl

-- The list heads that `allocPcb` writes for `p`: three of its own, and the one at NULL.
abbrev pub heads : ℕ → List ℕ
heads p = p ∷ p_child p ∷ p_sib p ∷ null ∷ []

-- The first free PCB comes back fresh, and the others stay free.
pub alloc_pcb_lem :
    (y : Layout) (k : Kernel) (p : ℕ) (ps : List ℕ)
    → Ring k.links y.pcb_free_h (p ∷ ps)
    → p ≢ null
    → Apart (heads p) (y.pcb_free_h ∷ ps)
    → let k' = (alloc_pcb y k).1 in
      ((alloc_pcb y k).0 ≡ some p)
      × IsFresh y k.next_pid k' p
      × Ring k'.links y.pcb_free_h ps
      × (k'.next_pid ≡ add32 k.next_pid 1)
alloc_pcb_lem y k p ps r ne off = rw (alloc_pcb_eq y k p ps r) (
  refl,
  made-IsFresh y p (with_links (list_del p) k) ne,
  Ring-frame y.pcb_free_h ps (heads p) (list_del-Ring y.pcb_free_h p [] ps r).0
      (made-SameOutside y p (with_links (list_del p) k) ne) off,
  next_pid-taken y k p,
)

-- Any other list keeps its nodes and their order.
pub alloc_pcb-frame :
    (y : Layout) (k : Kernel) (p : ℕ) (ps : List ℕ) (h : ℕ) (xs : List ℕ)
    → Ring k.links y.pcb_free_h (p ∷ ps)
    → p ≢ null
    → Ring k.links h xs
    → Apart (y.pcb_free_h ∷ p ∷ ps) (h ∷ xs)
    → Apart (heads p) (h ∷ xs)
    → Ring (alloc_pcb y k).1.links h xs
alloc_pcb-frame y k p ps h xs r ne other off off' = rw (alloc_pcb_eq y k p ps r) (
    Ring-frame h xs (heads p)
      (Ring-frame h xs (y.pcb_free_h ∷ p ∷ ps) other (list_del-spares y.pcb_free_h p [] ps r) off)
      (made-SameOutside y p (with_links (list_del p) k) ne) off')

-- What `allocPcb` does not write.
pub alloc_pcb-rest :
    (y : Layout) (k : Kernel) (p : ℕ) (ps : List ℕ)
    → Ring k.links y.pcb_free_h (p ∷ ps)
    → ((alloc_pcb y k).1.state_at ≡ k.state_at)
      × ((alloc_pcb y k).1.current_state ≡ k.current_state)
      × ((alloc_pcb y k).1.process_count ≡ k.process_count)
      × ((c : ℕ) → (c == p) ≡ false → (alloc_pcb y k).1.p_parent c ≡ k.p_parent c)
unfolding init_pcb zero_pcb
alloc_pcb-rest y k p ps r = rw (alloc_pcb_eq y k p ps r) (refl, refl, refl, λ c e. ground arith)

pub alloc_pcb-counts :
    (y : Layout) (k : Kernel) (p : ℕ) (ps : List ℕ)
    → Ring k.links y.pcb_free_h (p ∷ ps)
    → ((alloc_pcb y k).1.process_count ≡ k.process_count)
      × ((alloc_pcb y k).1.waiting_count ≡ k.waiting_count)
      × ((alloc_pcb y k).1.global_lock ≡ k.global_lock)
      × ((alloc_pcb y k).1.interval_timer ≡ k.interval_timer)
unfolding init_pcb zero_pcb
alloc_pcb-counts y k p ps r = rw (alloc_pcb_eq y k p ps r) (refl, refl, refl, refl)

-- A released PCB waits behind those that are free already.
pub free_pcb_lem :
    (y : Layout) (k : Kernel) (p : ℕ) (ps : List ℕ)
    → Ring k.links y.pcb_free_h ps
    → has p (y.pcb_free_h ∷ ps) ≡ false
    → Ring (free_pcb y p k).links y.pcb_free_h (ps ++ p ∷ [])
      × SameOutside (p ∷ y.pcb_free_h ∷ ps) k.links (free_pcb y p k).links
unfolding free_pcb
free_pcb_lem y k p ps r out =
    (list_add_tail-Ring p y.pcb_free_h ps r out, list_add_tail-SameOutside p y.pcb_free_h ps r out)

-- The search ends and tells whether the PCB is free.
pub is_in_pcb_free_h_lem :
    (y : Layout) (k : Kernel) (p : ℕ) (ps : List ℕ)
    → Ring k.links y.pcb_free_h ps
    → length ps ≤ max_proc
    → is_in_pcb_free_h y p k ≡ some (has p ps)
unfolding is_in_pcb_free_h
is_in_pcb_free_h_lem y k p ps r few =
    rw
      (
        list_for_each-find max_rounds y.pcb_free_h (λ pos. pos == p) ps r (omega arith),
        find-has p ps,
      )
      (ground arith)

-- `&pcbFree_table[i]`
abbrev pub entry : Layout → ℕ → ℕ
entry y i = y.pcb_free_table + i * y.sizeof_pcb

-- The entries `i`, …, `i + rounds - 1` of the table, the last one first, before `ps`.
abbrev pub entries : Layout → (rounds i : ℕ) → List ℕ → List ℕ
entries y zero i ps = ps
entries y (suc rounds) i ps = entries y rounds (i + 1) (entry y i ∷ ps)

-- All that is pushed is new.
abbrev AllNew : Layout → (rounds i : ℕ) → List ℕ → Type 0
AllNew y zero i ps = Unit
AllNew y (suc rounds) i ps =
    (has (entry y i) (y.pcb_free_h ∷ ps) ≡ false) × AllNew y rounds (i + 1) (entry y i ∷ ps)

init_pcbs_from-Ring :
    (y : Layout) (rounds i : ℕ) (k : Kernel) (ps : List ℕ)
    → Ring k.links y.pcb_free_h ps
    → AllNew y rounds i ps
    → Ring (init_pcbs_from y rounds i k).links y.pcb_free_h (entries y rounds i ps)
unfolding init_pcbs_from
init_pcbs_from-Ring y zero i k ps r new = r
init_pcbs_from-Ring y (suc rounds) i k ps r (out, new) =
    init_pcbs_from-Ring y rounds (i + 1) _ _ (list_add-Ring _ y.pcb_free_h ps r out).0 new

-- Nothing in `ps` reaches up to entry `i`.
abbrev Below : Layout → ℕ → List ℕ → Type 0
Below y i [] = Unit
Below y i (p ∷ ps) = (p < entry y i) × Below y i ps

Below-has : (y : Layout) (i : ℕ) (ps : List ℕ) → Below y i ps → has (entry y i) ps ≡ false
Below-has y i [] b = refl
Below-has y i (p ∷ ps) (lt, b) = ground (arith, Below-has y i ps b)

entry-lt-next : (y : Layout) (i : ℕ) → 0 < y.sizeof_pcb → entry y i < entry y (i + 1)
entry-lt-next y i size = omega arith

Below-next :
    (y : Layout) (i : ℕ) (ps : List ℕ) → 0 < y.sizeof_pcb → Below y i ps → Below y (i + 1) ps
Below-next y i [] size b = tt
Below-next y i (p ∷ ps) size (lt, b) =
    (omega (arith, entry-lt-next y i size), Below-next y i ps size b)

AllNew-table :
    (y : Layout) (rounds i : ℕ) (ps : List ℕ)
    → 0 < y.sizeof_pcb
    → ((j : ℕ) → j < i + rounds → entry y j ≢ y.pcb_free_h)
    → Below y i ps
    → AllNew y rounds i ps
AllNew-table y zero i ps size off b = tt
AllNew-table y (suc rounds) i ps size off b =
    let apart : (entry y i == y.pcb_free_h) ≡ false = ne→== _ _ (off i (omega arith)) in
    (
      ground (arith, Below-has y i ps b),
      AllNew-table y rounds (i + 1) (entry y i ∷ ps) size (λ j lt. off j (omega arith))
          (entry-lt-next y i size, Below-next y i ps size b),
    )

length-entries :
    (y : Layout) (rounds i : ℕ) (ps : List ℕ) → length (entries y rounds i ps) ≡ rounds + length ps
length-entries y zero i ps = omega arith
length-entries y (suc rounds) i ps = omega (arith, length-entries y rounds (i + 1) (entry y i ∷ ps))

-- From the empty list that `pcbFree_h` is declared as, `initPcbs` frees every entry of the table,
-- each once, the last one first.
pub init_pcbs_lem :
    (y : Layout) (k : Kernel)
    → Ring k.links y.pcb_free_h []
    → 0 < y.sizeof_pcb
    → ((j : ℕ) → j < max_proc → entry y j ≢ y.pcb_free_h)
    → Ring (init_pcbs y k).links y.pcb_free_h (entries y max_proc 0 [])
      × (length (entries y max_proc 0 []) ≡ max_proc)
unfolding init_pcbs
init_pcbs_lem y k r size off = (
  init_pcbs_from-Ring y max_proc 0 k [] r
      (AllNew-table y max_proc 0 [] size (λ j lt. off j (omega arith)) tt),
  length-entries y max_proc 0 [],
)
