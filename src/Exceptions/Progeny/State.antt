-- ===== src/Exceptions/Progeny/State.antt =====
-- The processes that `terminateProgeny` of phase2/exceptions.c ends, and what the loop leaves.
use multi_pand_os.Base.{
  ℕ, zero, suc, ◌+◌, ◌≤◌, ◌≡◌, ◌∙◌, refl, ap, true, false, List, [], ◌∷◌, ◌++◌, arith, has,
  has-append, length, erase, has-erase, Distinct, ==_refl, Bool-cases, inl, inr,
}
use multi_pand_os.Base.Word.{sub32}
use multi_pand_os.Listx.{Links}
use multi_pand_os.Listx.Ring.{Ring-spared}
use multi_pand_os.Kernel.{Kernel, Layout, null, max_proc}
use multi_pand_os.Exceptions.Destroy.{Queues}
use multi_pand_os.Exceptions.Forest.{
  Forest, childless, members, Children, Below, Marked, SameFor, Children-same, Below-same,
}

-- `n` times one less.
abbrev pub counted_down : (n w : ℕ) → ℕ
counted_down zero w = w
counted_down (suc n) w = counted_down n (sub32 w 1)

pub counted_down_add : (m n w : ℕ) → counted_down (m + n) w ≡ counted_down n (counted_down m w)
counted_down_add zero n w = let e : zero + n ≡ n = omega arith in ap (λ (i : ℕ). counted_down i w) e
counted_down_add (suc m) n w =
    let e : suc m + n ≡ suc (m + n) = omega arith in
    ap (λ (i : ℕ). counted_down i w) e ∙ counted_down_add m n (sub32 w 1)

abbrev pub erase_all : (ps xs : List ℕ) → List ℕ
erase_all [] xs = xs
erase_all (p ∷ ps) xs = erase_all ps (erase p xs)

pub erase_all-append :
    (ps qs xs : List ℕ) → erase_all (ps ++ qs) xs ≡ erase_all qs (erase_all ps xs)
erase_all-append [] qs xs = refl
erase_all-append (p ∷ ps) qs xs = erase_all-append ps qs (erase p xs)

pub has-erase_all : (a : ℕ) (ps xs : List ℕ) → has a (erase_all ps xs) ≡ true → has a xs ≡ true
has-erase_all a [] xs i = i
has-erase_all a (p ∷ ps) xs i = has-erase a p xs (has-erase_all a ps (erase p xs) i)

-- The process `q` with the processes `f` below it, next to the ready processes `rs` and the free
-- PCBs `fs`: no address is two of these nodes, and there are no more than `max_proc` PCBs.
pub record Doomed (y : Layout) (parent_of : ℕ → ℕ) (k : Kernel) (rs fs : List ℕ) (q : ℕ)
    (f : Forest) : Type 0 where
  pub queues : Queues y k rs fs
  pub children : Children k.links q f
  pub below : Below k.links f
  pub marked : Marked parent_of q f
  pub ready_unmarked : (a : ℕ) → has a (y.ready_queue ∷ rs) ≡ true → parent_of a ≡ null
  pub free_unmarked : (a : ℕ) → has a (y.pcb_free_h ∷ fs ++ members f) ≡ true → parent_of a ≡ null
  pub distinct : Distinct (null ∷ q ∷ members f)
  pub occupied : Distinct (y.ready_queue ∷ y.pcb_free_h ∷ fs ++ members f)
  pub few : length fs + length (members f) ≤ max_proc

-- Only the links of nodes in the lists of children of `ps`, or in none with `null` in `ps`, differ.
abbrev pub SameOff : (parent_of : ℕ → ℕ) → List ℕ → Links → Links → Type 0
SameOff parent_of ps l m =
    (a : ℕ) → has (parent_of a) ps ≡ false → (m.next a ≡ l.next a) × (m.prev a ≡ l.prev a)

-- After the loop: the processes `f` are gone from the ready queue and are the last free PCBs, in the
-- order in which they ended, and `q` has no child.
pub record Cleared (y : Layout) (parent_of : ℕ → ℕ) (k k' : Kernel) (rs fs : List ℕ) (q : ℕ)
    (f : Forest) : Type 0 where
  pub queues : Queues y k' (erase_all (members f) rs) (fs ++ members f)
  pub children : Children k'.links q childless
  pub count : k'.process_count ≡ counted_down (length (members f)) k.process_count
  pub spared : SameOff parent_of (null ∷ q ∷ members f) k.links k'.links

pub unmarked-out :
    (parent_of : ℕ → ℕ) (xs : List ℕ) (a : ℕ)
    → ((b : ℕ) → has b xs ≡ true → parent_of b ≡ null)
    → has (parent_of a) (null ∷ []) ≡ false
    → has a xs ≡ false
unmarked-out parent_of xs a un away = elim (Bool-cases (has a xs)) [
  | inl i ↦ absurd (ground (arith, un a i))
  | inr o ↦ o
]

pub Queues-same :
    (y : Layout) (k k' : Kernel) (rs fs : List ℕ)
    → Queues y k rs fs
    → ((a : ℕ)
        → has a (y.ready_queue ∷ rs) ≡ true
        → (k'.links.next a ≡ k.links.next a) × (k'.links.prev a ≡ k.links.prev a))
    → ((a : ℕ)
        → has a (y.pcb_free_h ∷ fs) ≡ true
        → (k'.links.next a ≡ k.links.next a) × (k'.links.prev a ≡ k.links.prev a))
    → Queues y k' rs fs
Queues-same y k k' rs fs q ready free = record {
  ready = Ring-spared y.ready_queue rs q.ready ready;
  free = Ring-spared y.pcb_free_h fs q.free free;
  apart = q.apart;
  few_ready = q.few_ready;
  few_free = q.few_free;
}

-- The same where none of the nodes is touched.
pub Doomed-same :
    (y : Layout) (parent_of : ℕ → ℕ) (k k' : Kernel) (rs fs : List ℕ) (q : ℕ) (f : Forest)
    → Doomed y parent_of k rs fs q f
    → SameFor parent_of (null ∷ q ∷ members f) k.links k'.links
    → Doomed y parent_of k' rs fs q f
Doomed-same y parent_of k k' rs fs q f d same = record {
  queues =
      Queues-same y k k' rs fs d.queues (λ a i. same a (ground (arith, d.ready_unmarked a i)))
        (λ a i.
          same a (ground (arith, d.free_unmarked a (ground (arith, has-append a fs (members f))))));
  children =
      Children-same parent_of q f (null ∷ q ∷ members f) d.marked same (ground (arith, ==_refl q))
        d.children;
  below =
      Below-same parent_of q f (null ∷ q ∷ members f) d.marked same (λ p i. ground (arith, i))
        d.below;
  marked = d.marked;
  ready_unmarked = d.ready_unmarked;
  free_unmarked = d.free_unmarked;
  distinct = d.distinct;
  occupied = d.occupied;
  few = d.few;
}
