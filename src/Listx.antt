-- ===== src/Listx.antt =====
-- headers/listx.h: the intrusive circular lists.
pub mod Edit
pub mod Ring
pub mod Search
use multi_pand_os.Base.{ℕ, zero, suc, Bool, Option, none, some, ◌==◌, if◌then◌else◌}

-- The list heads of the memory: the fields `next` and `prev` of the `struct list_head` at each
-- address. 0 is NULL, and it has a cell, since the source writes through it.
pub record Links : Type 0 where
  pub next : ℕ → ℕ
  pub prev : ℕ → ℕ

abbrev pub update {ℓ} : {A : Type ℓ} → (ℕ → A) → ℕ → A → ℕ → A
update f a v b = if b == a then v else f b

abbrev pub set_next : ℕ → ℕ → Links → Links
set_next a v l = record l { next = update l.next a v }

abbrev pub set_prev : ℕ → ℕ → Links → Links
set_prev a v l = record l { prev = update l.prev a v }

unfoldable pub init_list_head : ℕ → Links → Links
init_list_head list l = set_prev list list (set_next list list l)

-- `__list_add`, its four writes in the order of the source.
unfoldable pub list_add_between : (new prev next : ℕ) → Links → Links
list_add_between new p n l = set_next p new (set_prev new p (set_next new n (set_prev n new l)))

unfoldable pub list_add : (new head : ℕ) → Links → Links
list_add new head l = list_add_between new head (l.next head) l

unfoldable pub list_add_tail : (new head : ℕ) → Links → Links
list_add_tail new head l = list_add_between new (l.prev head) head l

-- `__list_del`.
unfoldable pub list_del_between : (prev next : ℕ) → Links → Links
list_del_between p n l = set_next p n (set_prev n p l)

unfoldable pub list_del : (entry : ℕ) → Links → Links
unfolding list_del_between
list_del entry l =
    set_prev entry entry (set_next entry entry (list_del_between (l.prev entry) (l.next entry) l))

unfoldable pub list_is_last : (list head : ℕ) → Links → Bool
list_is_last list head l = l.next list == head

unfoldable pub list_empty : (head : ℕ) → Links → Bool
list_empty head l = l.next head == head

-- `none` is NULL.
unfoldable pub list_next : (current : ℕ) → Links → Option ℕ
unfolding list_empty
list_next current l = if list_empty current l then none else some (l.next current)

unfoldable pub list_prev : (current : ℕ) → Links → Option ℕ
unfolding list_empty
list_prev current l = if list_empty current l then none else some (l.prev current)

-- `list_for_each` from `pos` on, left at the first position that passes `test`. `none` means that
-- the rounds ran out, `some none` that the loop came back to `head`.
unfoldable pub list_search :
    (rounds : ℕ) → (head : ℕ) → (ℕ → Bool) → (pos : ℕ) → Links → Option (Option ℕ)
list_search zero head test pos l = none
list_search (suc rounds) head test pos l =
    let rest = list_search rounds head test (l.next pos) l in
    if pos == head then some none else if test pos then some (some pos) else rest

-- `list_for_each` and `list_for_each_entry`, for a loop whose body does nothing until it leaves.
unfoldable pub list_for_each : (rounds : ℕ) → (head : ℕ) → (ℕ → Bool) → Links → Option (Option ℕ)
unfolding list_search
list_for_each rounds head test l = list_search rounds head test (l.next head) l
