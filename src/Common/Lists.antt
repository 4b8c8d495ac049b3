-- ===== src/Common/Lists.antt =====
-- Lists of numbers: length, multiplicity, removal of the first occurrence.
use Prim.Native.Nat.{ℕ, suc, ◌+◌, ◌<◌}
use mathlib.Core.Path.{◌≡◌, refl}
use mathlib.Core.Bool.{Bool, true, false, ◌||◌}
use mathlib.Core.List.{List, [], ◌∷◌, ◌++◌}
use native.Mathlib.Omega.{arith}
use pand_ossh.Common.Tests.{◌==◌, if◌then◌else◌}

module _ {ℓ} {A : Type ℓ} where
  abbrev pub length : List A → ℕ
  length [] = 0
  length (x ∷ xs) = suc (length xs)

  pub length-append : (xs ys : List A) → length (xs ++ ys) ≡ length xs + length ys
  length-append [] ys = omega arith
  length-append (x ∷ xs) ys = omega (arith, length-append xs ys)

-- How often a number stands in a list.
abbrev pub copies : ℕ → List ℕ → ℕ
copies a [] = 0
copies a (x ∷ xs) = (if x == a then 1 else 0) + copies a xs

pub copies-append : (a : ℕ) (xs ys : List ℕ) → copies a (xs ++ ys) ≡ copies a xs + copies a ys
copies-append a [] ys = omega arith
copies-append a (x ∷ xs) ys = omega (arith, copies-append a xs ys)

abbrev pub contains : ℕ → List ℕ → Bool
contains a [] = false
contains a (x ∷ xs) = (x == a) || contains a xs

pub contains-copies : (a : ℕ) (xs : List ℕ) → contains a xs ≡ true → 0 < copies a xs
contains-copies a [] h = ground arith
contains-copies a (x ∷ xs) h = ground (arith, contains-copies a xs)

pub not_contains-copies : (a : ℕ) (xs : List ℕ) → contains a xs ≡ false → copies a xs ≡ 0
not_contains-copies a [] h = refl
not_contains-copies a (x ∷ xs) h = ground (arith, not_contains-copies a xs)

-- The list without the first occurrence of a number.
abbrev pub remove : ℕ → List ℕ → List ℕ
remove a [] = []
remove a (x ∷ xs) = if x == a then xs else x ∷ remove a xs

pub copies-remove :
    (a b : ℕ) (xs : List ℕ)
    → copies b (remove a xs) + (if contains a xs then (if a == b then 1 else 0) else 0)
      ≡ copies b xs
copies-remove a b [] = refl
copies-remove a b (x ∷ xs) = ground (arith, copies-remove a b xs)

pub remove_absent : (a : ℕ) (xs : List ℕ) → contains a xs ≡ false → remove a xs ≡ xs
remove_absent a [] h = refl
remove_absent a (x ∷ xs) h = ground (arith, remove_absent a xs)

-- A function changed at one argument.
abbrev pub update {ℓ} : {A : Type ℓ} → (ℕ → A) → ℕ → A → ℕ → A
update f i v j = if j == i then v else f j
