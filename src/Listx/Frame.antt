-- ===== src/Listx/Frame.antt =====
-- What the operations of headers/listx.h leave of the nodes that they do not concern.
use pand_ossh.Common.{List, [], arith, copies, copies-append, subst, sym, ℕ, ◌++◌, ◌<◌, ◌∷◌, ◌≡◌}
use pand_ossh.Listx.Segment.{
  ends-Segment, next-Segment, Segment, last, first, Segment-frame, copies-last, copies-first,
}
use pand_ossh.Listx.Splice.{add-Segment}
use pand_ossh.Listx.Sequence.{list_add-Holds, list_del-Holds, Holds, Holds-IsSimple}
use pand_ossh.Listx.{del_between, init_list_head, list_del, Links, list_add, add_between}

-- The neighbours across a place in a segment.
middle-Segment :
    (h : Links) (a : ℕ) (xs ys : List ℕ) (b : ℕ)
    → Segment h a (xs ++ ys) b
    → (h.prev (first ys b) ≡ last a xs) × (h.next (last a xs) ≡ first ys b)
middle-Segment h a [] [] b (e, f) = (f, e)
middle-Segment h a [] (y ∷ ys) b (e, f, s) = (f, e)
middle-Segment h a (x ∷ xs) ys b (e, f, s) = middle-Segment h x xs ys b s

-- What a change of the list l leaves of the nodes that neither are on it nor came to it.
pub record Untouched (h h' : Links) (cells : List ℕ) : Type 0 where
  pub next : (c : ℕ) → copies c cells ≡ 0 → h'.next c ≡ h.next c
  pub prev : (c : ℕ) → copies c cells ≡ 0 → h'.prev c ≡ h.prev c

-- Any list apart from these nodes is held as before.
pub Untouched-Holds :
    (h h' : Links) (cells : List ℕ) (m : ℕ) (zs : List ℕ)
    → Untouched h h' cells
    → ((c : ℕ) → 0 < copies c (m ∷ zs) → copies c cells ≡ 0)
    → Holds h m zs
    → Holds h' m zs
Untouched-Holds h h' cells m zs u apart s = record {
  linked =
      Segment-frame h h' m zs m (λ c w. u.next c (apart c w))
        (λ c w. u.prev c (apart c (ground (arith, w)))) s.linked;
  once = s.once;
}

add-Untouched :
    (h : Links) (l x : ℕ) (xs ys : List ℕ)
    → Untouched h (add_between x (last l xs) (first ys l) h) (x ∷ l ∷ xs ++ ys)
unfolding add_between
add-Untouched h l x xs ys = record {
  next = λ c w. ground (arith, w, copies-last l xs, copies-append (last l xs) xs ys);
  prev = λ c w. ground (arith, w, copies-first ys l, copies-append (first ys l) xs ys);
}

-- `list_add` behind any node of a list.
pub add_behind-Holds :
    (h : Links) (l x : ℕ) (xs ys : List ℕ)
    → Holds h l (xs ++ ys)
    → copies x (l ∷ xs ++ ys) ≡ 0
    → Holds (list_add x (h.prev (first ys l)) h) l (xs ++ x ∷ ys)
      × Untouched h (list_add x (h.prev (first ys l)) h) (x ∷ l ∷ xs ++ ys)
unfolding list_add
add_behind-Holds h l x xs ys s new =
    let m = middle-Segment h l xs ys l s.linked in
    rw (m.0, m.1)
      (
        record {
          linked =
              add-Segment h l xs ys l x (Holds-IsSimple h l (xs ++ ys) s) (ground (arith, new))
                s.linked;
          once = λ c.
              ground (arith, s.once c, copies-append c xs ys, copies-append c xs (x ∷ ys), new);
        },
        add-Untouched h l x xs ys,
      )

-- `list_del` of a node of a list.
pub del_here-Holds :
    (h : Links) (l x : ℕ) (xs ys : List ℕ)
    → Holds h l (xs ++ x ∷ ys)
    → Holds (list_del x h) l (xs ++ ys)
      × Holds (list_del x h) x []
      × Untouched h (list_del x h) (l ∷ xs ++ x ∷ ys)
unfolding list_del init_list_head del_between
del_here-Holds h l x xs ys s =
    let two = list_del-Holds h l xs x ys s in
    let near = next-Segment h l xs x ys l s.linked in
    (
      two.0,
      two.1,
      record {
        next = λ c w.
            rw (near.0, near.1)
              (ground (
                arith,
                w,
                copies-last l xs,
                copies-append (last l xs) xs (x ∷ ys),
                copies-append x xs (x ∷ ys),
              ));
        prev = λ c w.
            rw (near.0, near.1)
              (ground (
                arith,
                w,
                copies-first ys l,
                copies-append (first ys l) xs (x ∷ ys),
                copies-append x xs (x ∷ ys),
              ));
      },
    )

-- `list_add` at the head.
pub add_first-Holds :
    (h : Links) (l x : ℕ) (ys : List ℕ)
    → Holds h l ys
    → copies x (l ∷ ys) ≡ 0
    → Holds (list_add x l h) l (x ∷ ys) × Untouched h (list_add x l h) (x ∷ l ∷ ys)
unfolding list_add
add_first-Holds h l x ys s new =
    let next = (ends-Segment h l ys l s.linked).1 in
    (
      (list_add-Holds h l ys x s new).1,
      subst (λ n. Untouched h (add_between x l n h) (x ∷ l ∷ ys)) (sym next)
          (add-Untouched h l x [] ys),
    )
