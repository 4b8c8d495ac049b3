-- ===== src/Testers/Text.antt =====
-- Character arrays, and the texts that they hold.
use pand_ossh.Common.{
  Bool, List, [], ap, arith, false, length, not, reverse, subst, suc, true, update, ℕ, ◌&&◌, ◌++◌,
  ◌+◌, ◌<◌, ◌==◌, ◌∙◌, ◌∷◌, ◌≡◌, ◌≢◌,
}

-- The array has these characters from i on.
abbrev pub Holds : (ℕ → ℕ) → ℕ → List ℕ → Type 0
Holds s i [] = Unit {0}
Holds s i (c ∷ cs) = (s i ≡ c) × Holds s (suc i) cs

-- Without its spaces.
unfoldable pub squeeze : List ℕ → List ℕ
squeeze [] = []
squeeze (c ∷ cs) = elim (c == b' ') [ true ↦ squeeze cs | false ↦ c ∷ squeeze cs ]

-- The array has this text from i on, and a NUL behind it.
abbrev pub IsText : (ℕ → ℕ) → ℕ → List ℕ → Type 0
IsText s i [] = s i ≡ 0
IsText s i (c ∷ cs) = (s i ≡ c) × ((c ≢ 0) × IsText s (suc i) cs)

-- A store before the text.
pub IsText-update :
    (s : ℕ → ℕ) (j c i : ℕ) (l : List ℕ) → j < i → IsText s i l → IsText (update s j c) i l
IsText-update s j c i [] w h = ground (arith, w, h)
IsText-update s j c i (d ∷ ds) w (e, (ne, h)) =
    (ground (arith, w, e), (ne, IsText-update s j c (suc i) ds (omega (arith, w)) h))

-- Without the spaces in front.
unfoldable pub drop_spaces : List ℕ → List ℕ
drop_spaces [] = []
drop_spaces (c ∷ cs) = elim (c == b' ') [ true ↦ drop_spaces cs | false ↦ c ∷ cs ]

-- Without the spaces in front and at the end.
unfoldable pub trim : List ℕ → List ℕ
trim l = reverse (drop_spaces (reverse (drop_spaces l)))

-- No NUL inside.
abbrev pub IsName : List ℕ → Type 0
IsName [] = Unit {0}
IsName (c ∷ cs) = (c ≢ 0) × IsName cs

pub Holds-last : (s : ℕ → ℕ) (i c : ℕ) (l : List ℕ) → Holds s i (l ++ c ∷ []) → s (i + length l) ≡ c
Holds-last s i c [] h = ground (arith, h.0)
Holds-last s i c (d ∷ ds) (e, h) = ap s (omega arith) ∙ Holds-last s (suc i) c ds h

pub Holds-front : (s : ℕ → ℕ) (i : ℕ) (l m : List ℕ) → Holds s i (l ++ m) → Holds s i l
Holds-front s i [] m h = tt
Holds-front s i (c ∷ cs) m (e, h) = (e, Holds-front s (suc i) cs m h)

-- A NUL behind the characters.
pub Holds-end :
    (s : ℕ → ℕ) (i : ℕ) (l : List ℕ)
    → Holds s i l
    → IsName l
    → IsText (update s (i + length l) 0) i l
Holds-end s i [] h n = ground arith
Holds-end s i (d ∷ ds) (e, h) (ne, n) = (
  ground (arith, e),
  (ne, subst (λ j. IsText (update s j 0) (suc i) ds) (omega arith) (Holds-end s (suc i) ds h n)),
)

pub IsText-Holds : (s : ℕ → ℕ) (i : ℕ) (l : List ℕ) → IsText s i l → Holds s i l
IsText-Holds s i [] h = tt
IsText-Holds s i (c ∷ cs) (e, (ne, h)) = (e, IsText-Holds s (suc i) cs h)

pub IsText-IsName : (s : ℕ → ℕ) (i : ℕ) (l m : List ℕ) → IsText s i (l ++ m) → IsName l
IsText-IsName s i [] m h = tt
IsText-IsName s i (c ∷ cs) m (e, (ne, h)) = (ne, IsText-IsName s (suc i) cs m h)

abbrev pub is_name : List ℕ → Bool
is_name [] = true
is_name (c ∷ cs) = not (c == 0) && is_name cs

pub is_name-IsName : (l : List ℕ) → is_name l ≡ true → IsName l
is_name-IsName [] e = tt
is_name-IsName (c ∷ cs) e = (ground (arith, e), is_name-IsName cs (ground (arith, e)))
