-- ===== src/Listx/Splice.antt =====
-- Insertion of a node into a segment and removal from it.
use pand_ossh.Common.{List, [], arith, copies, copies-append, ℕ, ◌++◌, ◌+◌, ◌∷◌, ◌≡◌}
use pand_ossh.Listx.Segment.{
  copies-first, copies-last, first, IsSimple-tail, Segment-frame, last, at, Segment, IsSimple,
}
use pand_ossh.Listx.{del_between, add_between, Links, init_list_head}

-- A new node between two neighbours.
add_here :
    (h : Links) (a : ℕ) (ys : List ℕ) (b x : ℕ)
    → IsSimple a ys b
    → copies x (a ∷ ys) + at b x ≡ 0
    → Segment h a ys b
    → Segment (add_between x a (first ys b) h) a (x ∷ ys) b
unfolding add_between
add_here h a [] b x d new s = (ground arith, ground arith, (ground arith, ground arith))
add_here h a (y ∷ ys) b x d new (e, f, s) = (
  ground arith,
  ground arith,
  (
    ground arith,
    ground arith,
    Segment-frame h _ y ys b (λ c w. ground (arith, d.once_next c))
        (λ c w. ground (arith, d.once_prev c)) s,
  ),
)

pub add-Segment :
    (h : Links) (a : ℕ) (xs ys : List ℕ) (b x : ℕ)
    → IsSimple a (xs ++ ys) b
    → copies x (a ∷ xs ++ ys) + at b x ≡ 0
    → Segment h a (xs ++ ys) b
    → Segment (add_between x (last a xs) (first ys b) h) a (xs ++ x ∷ ys) b
unfolding add_between
add-Segment h a [] ys b x d new s = add_here h a ys b x d new s
add-Segment h a (w ∷ xs) ys b x d new (e, f, s) = (
  ground (arith, d.once_next (last w xs), copies-last w xs, copies-append (last w xs) xs ys),
  ground (arith, d.once_prev (first ys b), copies-first ys b, copies-append (first ys b) xs ys),
  add-Segment h w xs ys b x (IsSimple-tail a w (xs ++ ys) b d) (omega (arith, new)) s,
)

-- A node out of a segment.
del_here :
    (h : Links) (a x : ℕ) (ys : List ℕ) (b : ℕ)
    → IsSimple a (x ∷ ys) b
    → Segment h a (x ∷ ys) b
    → Segment (init_list_head x (del_between a (first ys b) h)) a ys b
unfolding init_list_head del_between
del_here h a x [] b d (e, f, (g, i)) =
    (ground (arith, d.once_next x), ground (arith, d.once_prev x))
del_here h a x (y ∷ ys) b d (e, f, (g, i, s)) = (
  ground (arith, d.once_next x),
  ground (arith, d.once_prev x),
  Segment-frame h _ y ys b (λ c w. ground (arith, d.once_next c))
      (λ c w. ground (arith, d.once_prev c)) s,
)

pub del-Segment :
    (h : Links) (a : ℕ) (xs : List ℕ) (x : ℕ) (ys : List ℕ) (b : ℕ)
    → IsSimple a (xs ++ x ∷ ys) b
    → Segment h a (xs ++ x ∷ ys) b
    → Segment (init_list_head x (del_between (last a xs) (first ys b) h)) a (xs ++ ys) b
unfolding init_list_head del_between
del-Segment h a [] x ys b d s = del_here h a x ys b d s
del-Segment h a (w ∷ xs) x ys b d (e, f, s) = (
  ground (
    arith,
    d.once_next (last w xs),
    d.once_next x,
    copies-last w xs,
    copies-append (last w xs) xs (x ∷ ys),
    copies-append x xs (x ∷ ys),
  ),
  ground (
    arith,
    d.once_prev (first ys b),
    d.once_prev x,
    copies-first ys b,
    copies-append (first ys b) xs (x ∷ ys),
    copies-append x xs (x ∷ ys),
  ),
  del-Segment h w xs x ys b (IsSimple-tail a w (xs ++ x ∷ ys) b d) s,
)
