-- ===== src/Testers/Squeeze.antt =====
-- `deleteSpaces` of testers/calc.c.
use pand_ossh.Common.{
  ◌<◌, ◌<◌, ◌<◌, ◌<◌, ◌<◌, ◌<◌, ◌<◌, ◌<◌, ◌<◌, ◌<◌, ◌<◌, ◌<◌, ◌<◌, ◌<◌, ◌<◌, ◌<◌, ◌<◌, ◌<◌, ◌<◌,
  ◌<◌, ◌<◌, ◌<◌, ◌<◌, ◌<◌, ==_self, Bool, Bool-cases, List, Option, [], arith, false, inl, inr,
  length, ltb, none, refl, some, suc, true, update, zero, ℕ, ◌+◌, ◌<◌, ◌==◌, ◌>>=◌, ◌∙◌, ◌∷◌, ◌≡◌,
}
use pand_ossh.Testers.Text.{Holds, squeeze}
use pand_ossh.Testers.{characters, put}
use pand_ossh.Testers.Calc.{delete_spaces, expr_size}

-- `deleteSpaces` ended with the characters l from index on, and left those before alone.
pub record Deleted (index : ℕ) (l : List ℕ) (new : ℕ → ℕ) (new' : ℕ → ℕ) : Type 0 where
  pub holds : Holds new' index l
  pub before : (j : ℕ) → j < index → new' j ≡ new j

abbrev pub Deletes : ℕ → List ℕ → (ℕ → ℕ) → Option (ℕ → ℕ) → Type 0
Deletes index l new none = ⊥
Deletes index l new (some t) = Deleted index l new t

Deletes-put :
    (index : ℕ) (new : ℕ → ℕ) → index < expr_size → Deletes index [] new (put expr_size index 0 new)
Deletes-put index new small = elim (Bool-cases (ltb index expr_size)) [
  | inl e ↦ rw e (record { holds = tt; before = λ j w. ground arith })
  | inr e ↦ absurd (ground arith)
]

Deleted-cons :
    (index c : ℕ) (l : List ℕ) (new : ℕ → ℕ) (r : Option (ℕ → ℕ))
    → Deletes (suc index) l (update new index c) r
    → Deletes index (c ∷ l) new r
Deleted-cons index c l new none h = h
Deleted-cons index c l new (some t) h = record {
  holds = (h.before index (omega arith) ∙ rw (==_self index) refl, h.holds);
  before = λ j w. h.before j (omega (arith, w)) ∙ ground arith;
}

-- One character, a space or not.
Deletes-step :
    (b : Bool) (c index : ℕ) (l : List ℕ) (new : ℕ → ℕ) (f : ℕ → (ℕ → ℕ) → Option (ℕ → ℕ))
    → ((j : ℕ) (t : ℕ → ℕ) → j + length l < expr_size → Deletes j l t (f j t))
    → index + length (elim b [ true ↦ l | false ↦ c ∷ l ]) < expr_size
    → Deletes index
        (elim b [ true ↦ l | false ↦ c ∷ l ])
        new
        (elim b [ true ↦ f index new | false ↦ put expr_size index c new >>= λ t. f (suc index) t ])
Deletes-step true c index l new f h w = h index new w
Deletes-step false c index l new f h w =
    let inside : ltb index expr_size ≡ true = ground (arith, w) in
    rw inside (Deleted-cons index c l new _ (h (suc index) _ (omega (arith, w))))

pub Deletes-more :
    (expr : ℕ → ℕ) (i left index : ℕ) (new : ℕ → ℕ)
    → index + length (squeeze (characters expr i left)) < expr_size
    → Deletes index (squeeze (characters expr i left)) new (delete_spaces expr i left index new)
unfolding delete_spaces squeeze
Deletes-more expr i zero index new w = Deletes-put index new (omega (arith, w))
Deletes-more expr i (suc left) index new w =
    Deletes-step (expr i == b' ') (expr i) index (squeeze (characters expr (suc i) left)) new
      (λ j t. delete_spaces expr (suc i) left j t) (λ j t z. Deletes-more expr (suc i) left j t z) w
