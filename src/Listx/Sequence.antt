-- ===== src/Listx/Sequence.antt =====
-- The operations of headers/listx.h on the sequence of the nodes that a list holds.
use pand_ossh.Listx.Splice.{add-Segment, del-Segment}
use pand_ossh.Listx.Segment.{last, ends-Segment, Segment, next-Segment, IsSimple}
use pand_ossh.Listx.{
  list_add_tail, list_prev, add_between, list_next, list_add, list_del, Links, list_empty,
  init_list_head,
}
use pand_ossh.Common.{
  List, [], append-nil, arith, copies, copies-append, false, none, some, subst, sym, true, ℕ, ◌++◌,
  ◌∷◌, ◌≡◌, ◌≤◌,
}

-- The list with head l holds the nodes xs, each once, and not its head.
pub record Holds (h : Links) (l : ℕ) (xs : List ℕ) : Type 0 where
  pub linked : Segment h l xs l
  pub once : (c : ℕ) → copies c (l ∷ xs) ≤ 1

pub Holds-IsSimple : (h : Links) (l : ℕ) (xs : List ℕ) → Holds h l xs → IsSimple l xs l
Holds-IsSimple h l xs s = record { once_next = s.once; once_prev = λ c. omega (arith, s.once c) }

pub add_last :
    (h : Links) (l : ℕ) (xs : List ℕ) (x : ℕ)
    → IsSimple l xs l
    → copies x (l ∷ xs) ≡ 0
    → Segment h l xs l
    → Segment (add_between x (last l xs) l h) l (xs ++ x ∷ []) l
add_last h l xs x simple new s =
    add-Segment h l xs [] l x (subst (λ zs. IsSimple l zs l) (sym (append-nil xs)) simple)
      (omega (arith, new, copies-append x xs []))
      (subst (λ zs. Segment h l zs l) (sym (append-nil xs)) s)

-- A node after `INIT_LIST_HEAD`.
pub alone : (x : ℕ) (h : Links) → Segment (init_list_head x h) x [] x
unfolding init_list_head
alone x h = (ground arith, ground arith)

-- `INIT_LIST_HEAD` makes an empty list; `list_add` on a list puts a new node before all others,
-- `list_add_tail` behind all others, and the nodes in between keep their order.
pub list_add-Holds :
    (h : Links) (l : ℕ) (xs : List ℕ) (x : ℕ)
    → Holds h l xs
    → copies x (l ∷ xs) ≡ 0
    → Holds (init_list_head x h) x []
      × Holds (list_add x l h) l (x ∷ xs)
      × Holds (list_add_tail x l h) l (xs ++ x ∷ [])
unfolding init_list_head list_add list_add_tail
list_add-Holds h l xs x s new =
    let ends = ends-Segment h l xs l s.linked in
    let simple = Holds-IsSimple h l xs s in
    (
      record { linked = (ground arith, ground arith); once = λ c. ground arith },
      record {
        linked =
            subst (λ n. Segment (add_between x l n h) l (x ∷ xs) l) (sym ends.1)
              (add-Segment h l [] xs l x simple (omega (arith, new)) s.linked);
        once = λ c. ground (arith, s.once c);
      },
      record {
        linked =
            subst (λ p. Segment (add_between x p l h) l (xs ++ x ∷ []) l) (sym ends.0)
              (add_last h l xs x simple new s.linked);
        once = λ c. ground (arith, s.once c, copies-append c xs (x ∷ []));
      },
    )

-- `list_del` takes a node out of the list that it is on, wherever it stands, without knowing the
-- list: the others keep their order, and the node is an empty list of its own.
pub list_del-Holds :
    (h : Links) (l : ℕ) (xs : List ℕ) (x : ℕ) (ys : List ℕ)
    → Holds h l (xs ++ x ∷ ys)
    → Holds (list_del x h) l (xs ++ ys) × Holds (list_del x h) x []
unfolding list_del
list_del-Holds h l xs x ys s =
    let neighbours = next-Segment h l xs x ys l s.linked in
    (
      record {
        linked =
            rw (neighbours.0, neighbours.1)
              (del-Segment h l xs x ys l (Holds-IsSimple h l (xs ++ x ∷ ys) s) s.linked);
        once = λ c. ground (arith, s.once c, copies-append c xs (x ∷ ys), copies-append c xs ys);
      },
      record { linked = alone x _; once = λ c. ground arith },
    )

-- What the head of a list tells of its sequence.
pub data Reads (h : Links) (l : ℕ) : List ℕ → Type 0 where
  nothing : list_empty l h ≡ true → list_next l h ≡ none → list_prev l h ≡ none → Reads h l []
  both :
      {x : ℕ} {xs : List ℕ}
      → list_empty l h ≡ false
      → list_next l h ≡ some x
      → list_prev l h ≡ some (last x xs)
      → Reads h l (x ∷ xs)

-- `list_empty` tells whether the sequence is empty, and `list_next` and `list_prev` of the head give
-- its first and its last node, or NULL if there is none.
pub list_next-Reads : (h : Links) (l : ℕ) (xs : List ℕ) → Holds h l xs → Reads h l xs
unfolding list_empty list_next list_prev
list_next-Reads h l [] s =
    nothing (ground (arith, s.linked.0)) (ground (arith, s.linked.0)) (ground (arith, s.linked.0))
list_next-Reads h l (x ∷ xs) s =
    let ends = ends-Segment h x xs l s.linked.2 in
    both (ground (arith, s.once l, s.linked.0)) (ground (arith, s.once l, s.linked.0))
      (ground (arith, s.once l, s.linked.0, ends.0))
