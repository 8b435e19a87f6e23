-- ===== src/Listx/Edit.antt =====
-- The insertions and the removal of headers/listx.h on a ring.
use mathlib.Core.Path.{subst}
use multi_pand_os.Base.{
  ℕ, ◌≡◌, refl, sym, true, false, List, [], ◌∷◌, ◌++◌, arith, ◌==◌, has, last, has-append, has-last,
  last-append, append-nil,
}
use multi_pand_os.Listx.{
  Links, list_add_between, list_add, list_add_tail, list_del, list_empty, init_list_head,
}
use multi_pand_os.Listx.Ring.{Ring, SameOutside, Chain-frame, Ring-rotate}

pub Ring-next : {l : Links} (h x : ℕ) (xs : List ℕ) → Ring l h (x ∷ xs) → l.next h ≡ x
Ring-next h x xs r = r.chain.0.0

pub init_list_head-Ring : (h : ℕ) (l : Links) → Ring (init_list_head h l) h []
unfolding init_list_head
init_list_head-Ring h l = record {
  chain = tt;
  closed = (ground arith, ground arith);
  distinct = (refl, tt);
}

pub init_list_head-SameOutside : (h : ℕ) (l : Links) → SameOutside (h ∷ []) l (init_list_head h l)
unfolding init_list_head
init_list_head-SameOutside h l a i = (ground arith, ground arith)

-- A head is its own successor exactly when nothing is linked behind it.
pub list_empty-nil : {l : Links} (h : ℕ) → Ring l h [] → list_empty h l ≡ true
unfolding list_empty
list_empty-nil h r = ground (arith, r.closed.0)

pub list_empty-cons :
    {l : Links} (h x : ℕ) (xs : List ℕ) → Ring l h (x ∷ xs) → list_empty h l ≡ false
unfolding list_empty
list_empty-cons h x xs r = ground (arith, r.chain.0.0, r.distinct.0)

-- Between the last node and the head: the new node becomes the head of the ring that it closes.
list_add_between-Ring :
    {l : Links} (new n : ℕ) (zs : List ℕ)
    → Ring l n zs
    → has new (n ∷ zs) ≡ false
    → Ring (list_add_between new (last n zs) n l) new (n ∷ zs)
unfolding list_add_between
list_add_between-Ring {l} new n zs r out =
    let apart : (new == last n zs) ≡ false = ground (arith, has-last n zs) in
    record {
      chain = (
        (ground arith, ground arith),
        Chain-frame l _ n zs r.distinct (λ c i e. ground arith)
            (λ c i. ground (arith, r.distinct.0)) r.chain,
      );
      closed = (ground arith, ground arith);
      distinct = (out, r.distinct);
    }

list_add_between-SameOutside :
    (l : Links) (new p n : ℕ) (ws : List ℕ)
    → has new ws ≡ true
    → has p ws ≡ true
    → has n ws ≡ true
    → SameOutside ws l (list_add_between new p n l)
unfolding list_add_between
list_add_between-SameOutside l new p n ws i j k a o = (ground arith, ground arith)

module _ {l : Links} (new h : ℕ) (xs : List ℕ) (r : Ring l h xs)
    (out : has new (h ∷ xs) ≡ false) where
  list_add_tail_eq : list_add_tail new h l ≡ list_add_between new (last h xs) h l
  unfolding list_add_tail
  list_add_tail_eq = rw r.closed.1

  pub list_add_tail-Ring : Ring (list_add_tail new h l) h (xs ++ new ∷ [])
  list_add_tail-Ring =
      rw list_add_tail_eq (Ring-rotate new h [] xs (list_add_between-Ring new h xs r out))

  pub list_add_tail-SameOutside : SameOutside (new ∷ h ∷ xs) l (list_add_tail new h l)
  list_add_tail-SameOutside = rw list_add_tail_eq (
      list_add_between-SameOutside l new (last h xs) h (new ∷ h ∷ xs) (ground arith)
        (ground (arith, has-last h xs)) (ground arith))

pub list_add-Ring :
    {l : Links} (new h : ℕ) (xs : List ℕ)
    → Ring l h xs
    → has new (h ∷ xs) ≡ false
    → Ring (list_add new h l) h (new ∷ xs) × SameOutside (new ∷ h ∷ xs) l (list_add new h l)
unfolding list_add
list_add-Ring {l} new h [] r out = rw r.closed.0 (
  Ring-rotate new h [] [] (list_add_between-Ring new h [] r out),
  list_add_between-SameOutside l new h h (new ∷ h ∷ []) (ground arith) (ground arith)
      (ground arith),
)
list_add-Ring {l} new h (x ∷ xs) r out =
    let turned = Ring-rotate h x [] xs r in
    let off : has new (x ∷ xs ++ h ∷ []) ≡ false = ground (arith, has-append new xs (h ∷ [])) in
    let put = list_add_between-Ring new x (xs ++ h ∷ []) turned off in
    rw r.chain.0.0 (
      Ring-rotate new h (x ∷ xs) [] (rw (last-append x h xs []) at put),
      list_add_between-SameOutside l new h x (new ∷ h ∷ x ∷ xs) (ground arith) (ground arith)
          (ground arith),
    )

-- The head of a ring is taken out: its successor heads what is left, and it links to itself.
pub list_del-head :
    {l : Links} (y z : ℕ) (zs : List ℕ)
    → Ring l y (z ∷ zs)
    → Ring (list_del y l) z zs × Ring (list_del y l) y []
unfolding list_del
list_del-head {l} y z zs r = (
  record {
    chain =
        Chain-frame l _ z zs r.distinct.1
          (λ c i e. ground (arith, r.distinct.0, r.closed.1, r.chain.0.0))
          (λ c i. ground (arith, r.distinct.0, r.distinct.1.0, r.chain.0.0)) r.chain.1;
    closed = (
      ground (arith, r.closed.1, r.chain.0.0, has-last z zs, r.distinct.0),
      ground (arith, r.closed.1, r.chain.0.0, r.distinct.0),
    );
    distinct = r.distinct.1;
  },
  record { chain = tt; closed = (ground arith, ground arith); distinct = (refl, tt) },
)

list_del-SameOutside :
    {l : Links} (y z : ℕ) (zs ws : List ℕ)
    → Ring l y (z ∷ zs)
    → has y ws ≡ true
    → has z ws ≡ true
    → has (last z zs) ws ≡ true
    → SameOutside ws l (list_del y l)
unfolding list_del
list_del-SameOutside {l} y z zs ws r i j k a o =
    (ground (arith, r.closed.1), ground (arith, r.chain.0.0))

has-last-front : (h : ℕ) (xs ys : List ℕ) → has (last h xs) (h ∷ xs ++ ys) ≡ true
has-last-front h xs ys = ground (arith, has-last h xs, has-append (last h xs) xs ys)

-- A node is taken out of the ring, whatever its place, and links to itself.
pub list_del-Ring :
    {l : Links} (h y : ℕ) (xs ys : List ℕ)
    → Ring l h (xs ++ y ∷ ys)
    → Ring (list_del y l) h (xs ++ ys) × Ring (list_del y l) y []
list_del-Ring {l} h y xs [] r =
    let (rest, alone) = list_del-head y h xs (Ring-rotate h y xs [] r) in
    (rw append-nil rest, alone)
list_del-Ring {l} h y xs (z ∷ ys) r =
    let (rest, alone) = list_del-head y z (ys ++ h ∷ xs) (Ring-rotate h y xs (z ∷ ys) r) in
    (Ring-rotate z h ys xs rest, alone)

pub list_del-spares :
    {l : Links} (h y : ℕ) (xs ys : List ℕ)
    → Ring l h (xs ++ y ∷ ys)
    → SameOutside (h ∷ xs ++ y ∷ ys) l (list_del y l)
list_del-spares {l} h y xs [] r =
    list_del-SameOutside y h xs (h ∷ xs ++ y ∷ []) (Ring-rotate h y xs [] r)
      (ground (arith, has-append y xs (y ∷ []))) (ground arith) (has-last-front h xs (y ∷ []))
list_del-spares {l} h y xs (z ∷ ys) r =
    list_del-SameOutside y z (ys ++ h ∷ xs) (h ∷ xs ++ y ∷ z ∷ ys) (Ring-rotate h y xs (z ∷ ys) r)
      (ground (arith, has-append y xs (y ∷ z ∷ ys))) (ground (arith, has-append z xs (y ∷ z ∷ ys)))
      (subst (λ t. has t (h ∷ xs ++ y ∷ z ∷ ys) ≡ true) (sym (last-append z h ys xs))
        (has-last-front h xs (y ∷ z ∷ ys)))

pub list_del-head_spares :
    {l : Links} (y z : ℕ) (zs : List ℕ)
    → Ring l y (z ∷ zs)
    → SameOutside (y ∷ z ∷ zs) l (list_del y l)
list_del-head_spares y z zs r =
    list_del-SameOutside y z zs (y ∷ z ∷ zs) r (ground arith) (ground arith)
      (ground (arith, has-last z zs))
