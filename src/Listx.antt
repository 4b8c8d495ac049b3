-- ===== src/Listx.antt =====
-- headers/listx.h: circular lists through `next` and `prev` pointers, node by node.
pub mod Segment
pub mod Splice
pub mod Sequence
pub mod Frame
mod Tests
use pand_ossh.Common.{
  ==_iff, ==_self, Bool, Bool-cases, List, Option, Option-cases, [], add32, ap, append-nil,
  append_assoc, arith, biased, bind_some, bit_and, bit_or, contains, contains-copies, copies,
  copies-append, copies-remove, false, if◌then◌else◌, inl, inr, is_neg, is_pos, is_some, leb,
  length, length-append, ltb, neg32, none, not, not_contains-copies, refl, remove, remove_absent,
  sdiv32, slt32, some, srem32, sub32, subst, suc, sym, true, update, zero, ℕ, ◌%◌, ◌&&◌, ◌*◌, ◌++◌,
  ◌+◌, ◌-◌, ◌/◌, ◌<◌, ◌==◌, ◌>>=◌, ◌^◌, ◌||◌, ◌↔◌, ◌∙◌, ◌∷◌, ◌≡◌, ◌≢◌, ◌≤◌, ◌⊎◌,
}

-- The fields of every `struct list_head`, by its address.
pub record Links : Type 0 where
  pub next : ℕ → ℕ
  pub prev : ℕ → ℕ

-- `INIT_LIST_HEAD`
unfoldable pub init_list_head : ℕ → Links → Links
init_list_head l h = record { next = update h.next l l; prev = update h.prev l l }

-- `__list_add`; the four writes in their order
unfoldable pub add_between : (new prev next : ℕ) → Links → Links
add_between new prev next h = record {
  prev = update (update h.prev next new) new prev;
  next = update (update h.next new next) prev new;
}

-- `list_add`
unfoldable pub list_add : ℕ → ℕ → Links → Links
list_add new head h = add_between new head (h.next head) h

-- `list_add_tail`
unfoldable pub list_add_tail : ℕ → ℕ → Links → Links
list_add_tail new head h = add_between new (h.prev head) head h

-- `__list_del`
unfoldable pub del_between : (prev next : ℕ) → Links → Links
del_between prev next h = record { prev = update h.prev next prev; next = update h.next prev next }

-- `list_del`
unfoldable pub list_del : ℕ → Links → Links
list_del entry h = init_list_head entry (del_between (h.prev entry) (h.next entry) h)

-- `list_is_last`
unfoldable pub list_is_last : ℕ → ℕ → Links → Bool
list_is_last list head h = h.next list == head

-- `list_empty`
unfoldable pub list_empty : ℕ → Links → Bool
list_empty head h = h.next head == head

-- `list_next`
unfoldable pub list_next : ℕ → Links → Option ℕ
list_next current h = if list_empty current h then none else some (h.next current)

-- `list_prev`
unfoldable pub list_prev : ℕ → Links → Option ℕ
list_prev current h = if list_empty current h then none else some (h.prev current)
