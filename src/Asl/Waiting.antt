-- ===== src/Asl/Waiting.antt =====
-- What an active semaphore list stands for: for each semaphore, the queue of the PCBs that wait on it.
use pand_ossh.Common.{
  ℕ, ◌+◌, ◌≡◌, ◌≢◌, refl, ap, inl, inr, Bool, false, ◌||◌, Option, none, some, List, [], ◌∷◌, ◌++◌,
  arith, if◌then◌else◌, ◌==◌, copies, Bool-cases, copies-append,
}
use pand_ossh.Machine.{Semd}
use pand_ossh.Asl.{find_semd}

-- The queue of the semaphore `a`, empty if there is no descriptor for it.
abbrev pub waiting : ℕ → List Semd → List ℕ
waiting a [] = []
waiting a (s ∷ ss) = if s.s_key == a then s.s_procq else waiting a ss

-- All the PCBs that wait on some semaphore.
abbrev pub blocked : List Semd → List ℕ
blocked [] = []
blocked (s ∷ ss) = s.s_procq ++ blocked ss

abbrev pub has_key : ℕ → List Semd → Bool
has_key a [] = false
has_key a (s ∷ ss) = (s.s_key == a) || has_key a ss

-- Each semaphore has one descriptor, and no descriptor has an empty queue.
abbrev pub DistinctKeys : List Semd → Type 0
DistinctKeys [] = Unit {0}
DistinctKeys (s ∷ ss) = (has_key s.s_key ss ≡ false) × DistinctKeys ss

abbrev pub NonEmpty : List Semd → Type 0
NonEmpty [] = Unit {0}
NonEmpty (s ∷ ss) = (s.s_procq ≢ []) × NonEmpty ss

module _ (a : ℕ) where
  pub waiting_absent : (ss : List Semd) → has_key a ss ≡ false → waiting a ss ≡ []
  waiting_absent [] h = refl
  waiting_absent (s ∷ ss) h = ground (arith, waiting_absent ss)

  pub has_key-append : (l r : List Semd) → has_key a (l ++ r) ≡ (has_key a l || has_key a r)
  has_key-append [] r = refl
  has_key-append (s ∷ l) r = ground (arith, has_key-append l r)

  pub waiting-append :
      (l r : List Semd) → waiting a (l ++ r) ≡ (if has_key a l then waiting a l else waiting a r)
  waiting-append [] r = refl
  waiting-append (s ∷ l) r = ground (arith, waiting-append l r)

  pub copies-blocked_append :
      (l r : List Semd) → copies a (blocked (l ++ r)) ≡ copies a (blocked l) + copies a (blocked r)
  copies-blocked_append [] r = omega arith
  copies-blocked_append (s ∷ l) r = omega (
    arith,
    copies-append a s.s_procq (blocked (l ++ r)),
    copies-append a s.s_procq (blocked l),
    copies-blocked_append l r,
  )

pub DistinctKeys-drop :
    (l : List Semd) (s : Semd) (r : List Semd)
    → DistinctKeys (l ++ s ∷ r)
    → DistinctKeys (l ++ r) × (has_key s.s_key r ≡ false) × (has_key s.s_key l ≡ false)
DistinctKeys-drop [] s r d = (d.1, d.0, refl)
DistinctKeys-drop (t ∷ l) s r d =
    let rest = DistinctKeys-drop l s r d.1 in
    let e = has_key-append t.s_key l (s ∷ r) in
    let f = has_key-append t.s_key l r in ((ground arith, rest.0), rest.1, ground arith)

pub DistinctKeys-replace :
    (l : List Semd) (s t : Semd) (r : List Semd)
    → s.s_key ≡ t.s_key
    → DistinctKeys (l ++ s ∷ r)
    → DistinctKeys (l ++ t ∷ r)
DistinctKeys-replace [] s t r e d = (ground arith, d.1)
DistinctKeys-replace (u ∷ l) s t r e d =
    let f = has_key-append u.s_key l (s ∷ r) in
    let g = has_key-append u.s_key l (t ∷ r) in (ground arith, DistinctKeys-replace l s t r e d.1)

pub NonEmpty-split :
    (l : List Semd) (s : Semd) (r : List Semd)
    → NonEmpty (l ++ s ∷ r)
    → (s.s_procq ≢ []) × NonEmpty (l ++ r)
NonEmpty-split [] s r n = n
NonEmpty-split (t ∷ l) s r n = let rest = NonEmpty-split l s r n.1 in (rest.0, (n.0, rest.1))

pub NonEmpty-put :
    (l : List Semd) (s : Semd) (r : List Semd)
    → NonEmpty (l ++ r)
    → s.s_procq ≢ []
    → NonEmpty (l ++ s ∷ r)
NonEmpty-put [] s r n h = (h, n)
NonEmpty-put (t ∷ l) s r n h = (n.0, NonEmpty-put l s r n.1 h)

-- What a search for the descriptor of `a` says of the list.
abbrev pub Finds : ℕ → List Semd → Option (List Semd × Semd × List Semd) → Type 0
Finds a ss none = has_key a ss ≡ false
Finds a ss (some (l, s, r)) = (ss ≡ l ++ s ∷ r) × (s.s_key ≡ a) × (has_key a l ≡ false)

module _ (a : ℕ) where
  Finds-cons :
      (s : Semd) (ss : List Semd) (o : Option (List Semd × Semd × List Semd))
      → (s.s_key == a) ≡ false
      → Finds a ss o
      → Finds a (s ∷ ss) (elim o [ none ↦ none | some (l, t, r) ↦ some (s ∷ l, t, r) ])
  Finds-cons s ss none miss f = rw (miss, f)
  Finds-cons s ss (some (l, t, r)) miss f = (ap (◌∷◌ s) f.0, f.1, rw (miss, f.2))

  pub find_semd-Finds : (ss : List Semd) → Finds a ss (find_semd a ss)
  unfolding find_semd
  find_semd-Finds [] = refl
  find_semd-Finds (s ∷ ss) = elim (Bool-cases (s.s_key == a)) [
    | inl hit ↦ rw hit (refl, ground arith, refl)
    | inr miss ↦ rw miss (Finds-cons s ss (find_semd a ss) miss (find_semd-Finds ss))
  ]
