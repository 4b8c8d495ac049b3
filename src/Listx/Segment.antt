-- ===== src/Listx/Segment.antt =====
-- A stretch of a list: the nodes strictly between two nodes, linked both ways.
use pand_ossh.Listx.{Links}
use pand_ossh.Common.{
  List, [], arith, copies, if◌then◌else◌, ℕ, ◌++◌, ◌+◌, ◌<◌, ◌==◌, ◌∙◌, ◌∷◌, ◌≡◌, ◌≤◌,
}

abbrev pub Segment : Links → ℕ → List ℕ → ℕ → Type 0
Segment h a [] b = (h.next a ≡ b) × (h.prev b ≡ a)
Segment h a (x ∷ xs) b = (h.next a ≡ x) × (h.prev x ≡ a) × Segment h x xs b

-- The last of a ∷ xs, and the first of xs ++ b ∷ [].
abbrev pub last : ℕ → List ℕ → ℕ
last a [] = a
last a (x ∷ xs) = last x xs

abbrev pub first : List ℕ → ℕ → ℕ
first [] b = b
first (x ∷ xs) b = x

-- 1 at the node itself.
abbrev pub at : ℕ → ℕ → ℕ
at b c = if b == c then 1 else 0

pub copies-last : (a : ℕ) (xs : List ℕ) → 0 < copies (last a xs) (a ∷ xs)
copies-last a [] = ground arith
copies-last a (x ∷ xs) = ground (arith, copies-last x xs)

pub copies-first : (ys : List ℕ) (b : ℕ) → 0 < copies (first ys b) ys + at b (first ys b)
copies-first [] b = ground arith
copies-first (y ∷ ys) b = ground arith

-- A segment reads the `next` of a and of xs, and the `prev` of xs and of b.
pub Segment-frame :
    (h j : Links) (a : ℕ) (xs : List ℕ) (b : ℕ)
    → ((c : ℕ) → 0 < copies c (a ∷ xs) → j.next c ≡ h.next c)
    → ((c : ℕ) → 0 < copies c xs + at b c → j.prev c ≡ h.prev c)
    → Segment h a xs b
    → Segment j a xs b
Segment-frame h j a [] b n p (e, f) = (n a (ground arith) ∙ e, p b (ground arith) ∙ f)
Segment-frame h j a (x ∷ xs) b n p (e, f, s) = (
  n a (ground arith) ∙ e,
  p x (ground arith) ∙ f,
  Segment-frame h j x xs b (λ c w. n c (ground arith)) (λ c w. p c (ground arith)) s,
)

-- No node of a segment stands in it twice; its ends may be the same node.
pub record IsSimple (a : ℕ) (xs : List ℕ) (b : ℕ) : Type 0 where
  pub once_next : (c : ℕ) → copies c (a ∷ xs) ≤ 1
  pub once_prev : (c : ℕ) → copies c xs + at b c ≤ 1

pub IsSimple-tail : (a x : ℕ) (xs : List ℕ) (b : ℕ) → IsSimple a (x ∷ xs) b → IsSimple x xs b
IsSimple-tail a x xs b s = record {
  once_next = λ c. omega (arith, s.once_next c);
  once_prev = λ c. omega (arith, s.once_prev c);
}

pub next-Segment :
    (h : Links) (a : ℕ) (xs : List ℕ) (x : ℕ) (ys : List ℕ) (b : ℕ)
    → Segment h a (xs ++ x ∷ ys) b
    → (h.prev x ≡ last a xs) × (h.next x ≡ first ys b)
next-Segment h a [] x [] b (e, f, (g, i)) = (f, g)
next-Segment h a [] x (y ∷ ys) b (e, f, (g, i, s)) = (f, g)
next-Segment h a (w ∷ xs) x ys b (e, f, s) = next-Segment h w xs x ys b s

pub ends-Segment :
    (h : Links) (a : ℕ) (xs : List ℕ) (b : ℕ)
    → Segment h a xs b
    → (h.prev b ≡ last a xs) × (h.next a ≡ first xs b)
ends-Segment h a [] b (e, f) = (f, e)
ends-Segment h a (x ∷ xs) b (e, f, s) = ((ends-Segment h x xs b s).0, e)
