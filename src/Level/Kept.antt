-- ===== src/Level/Kept.antt =====
-- One character of `readTerminal` of phase3/src/syscalls.c.
use pand_ossh.Common.{
  ==_self, Bool-cases, List, Option, [], add32, ap, arith, bit_and, false, if◌then◌else◌, inl, inr,
  ltb, none, refl, some, suc, true, zero, ℕ, ◌+◌, ◌/◌, ◌<◌, ◌==◌, ◌^◌, ◌∙◌, ◌∷◌, ◌≡◌, ◌≢◌, ◌≤◌,
}
use pand_ossh.Level.Calls.{keep_char, char_done, char_command}
use pand_ossh.Level.{Level, Services, Call, do_io, verhogen, maxstrleng}

-- How often a character was asked for.
abbrev pub receipts : ℕ → List Call → ℕ
receipts a [] = 0
receipts a (do_io b v ∷ cs) = (if b == a then 1 else 0) + receipts a cs
receipts a (c ∷ cs) = receipts a cs

-- The terminal answers the receive commands with the characters of the text in order, and calls
-- leave the caller's characters and the trace.
pub record Delivers (E : Services) (text : ℕ → ℕ) : Type 0 where
  pub trace : (c : Call) (l : Level) → (E.syscall c l).1.trace ≡ l.trace
  pub chars : (c : Call) (l : Level) → (E.syscall c l).1.chars ≡ l.chars
  pub done :
      (l : Level) → bit_and (E.syscall (do_io (E.terminal + 4) char_command) l).0 0xFF ≡ char_done
  pub char :
      (l : Level)
      → bit_and ((E.syscall (do_io (E.terminal + 4) char_command) l).0 / 2 ^ 8) 0xFF
        ≡ text (receipts (E.terminal + 4) l.trace)

-- So many receive commands in front of a trace.
abbrev pub asked : Services → ℕ → List Call → List Call
asked E zero tr = tr
asked E (suc n) tr = asked E n (do_io (E.terminal + 4) char_command ∷ tr)

-- The characters of the text from m on, d of them and the newline, are read when `received` already
-- stand in the buffer: the first that find room are stored, and nothing else changes.
pub record Read (E : Services) (text : ℕ → ℕ) (buf m d received : ℕ) (l : Level) (r : ℕ × Level)
    : Type 0 where
  pub count : r.0 ≡ (if ltb (received + d) maxstrleng then suc (received + d) else maxstrleng)
  pub stored :
      (j : ℕ)
      → j ≤ d
      → received + j < maxstrleng
      → r.1.chars (add32 buf (received + j)) ≡ text (m + j)
  pub others :
      (a : ℕ)
      → ((j : ℕ) → j ≤ d → received + j < maxstrleng → a ≢ add32 buf (received + j))
      → r.1.chars a ≡ l.chars a
  pub trace : r.1.trace ≡ verhogen E.term_read_semaphore ∷ asked E (suc d) l.trace

abbrev pub Reads : Services → (ℕ → ℕ) → ℕ → ℕ → ℕ → ℕ → Level → Option (ℕ × Level) → Type 0
Reads E text buf m d received l none = ⊥
Reads E text buf m d received l (some r) = Read E text buf m d received l r

-- A receive command came back.
pub record Received (E : Services) (l l1 : Level) : Type 0 where
  pub chars : l1.chars ≡ l.chars
  pub trace : l1.trace ≡ do_io (E.terminal + 4) char_command ∷ l.trace

module _ (E : Services) (text : ℕ → ℕ) (buf m received : ℕ) (l l1 : Level) (came : Received E l l1)
    (small : received ≤ maxstrleng) where
  -- What `keep_char` leaves.
  kept_count :
      (keep_char buf received (text m) l1).0
      ≡ (if ltb received maxstrleng then suc received else maxstrleng)
  unfolding keep_char
  kept_count = ground (arith, small)

  pub kept_small_enough : (keep_char buf received (text m) l1).0 ≤ maxstrleng
  kept_small_enough = ground (arith, kept_count, small)

  kept_new :
      received < maxstrleng
      → (keep_char buf received (text m) l1).1.chars (add32 buf received) ≡ text m
  unfolding keep_char
  kept_new w =
      let inside : ltb received maxstrleng ≡ true = ground (arith, w) in
      rw (inside, ==_self (add32 buf received)) refl

  kept_others :
      (a : ℕ)
      → (received < maxstrleng → a ≢ add32 buf received)
      → (keep_char buf received (text m) l1).1.chars a ≡ l.chars a
  unfolding keep_char
  kept_others a far = elim (Bool-cases (ltb received maxstrleng)) [
    | inl inside ↦
        let other : (a == add32 buf received) ≡ false =
          ground (arith, far (ground (arith, inside))) in
        rw (inside, other) (ap (λ (f : ℕ → ℕ). f a) came.chars)
    | inr full ↦ rw full (ap (λ (f : ℕ → ℕ). f a) came.chars)
  ]

  pub kept_trace :
      (keep_char buf received (text m) l1).1.trace ≡ do_io (E.terminal + 4) char_command ∷ l.trace
  unfolding keep_char
  kept_trace = elim (Bool-cases (ltb received maxstrleng)) [
    | inl inside ↦ rw inside came.trace
    | inr full ↦ rw full came.trace
  ]

  -- The newline.
  pub last-Read :
      (l2 : Level)
      → l2.chars ≡ (keep_char buf received (text m) l1).1.chars
      → l2.trace ≡ verhogen E.term_read_semaphore ∷ (keep_char buf received (text m) l1).1.trace
      → Read E text buf m 0 received l ((keep_char buf received (text m) l1).0, l2)
  last-Read l2 c t = record {
    count = kept_count ∙ ground (arith, small);
    stored = λ j z w.
        ap (λ i. l2.chars (add32 buf i)) (omega (arith, z))
        ∙ ap (λ (f : ℕ → ℕ). f (add32 buf received)) c
        ∙ kept_new (omega (arith, w))
        ∙ ap text (omega (arith, z));
    others = λ a far.
        ap (λ (f : ℕ → ℕ). f a) c
        ∙ kept_others a (λ w e.
          far 0 (omega arith) (omega (arith, w)) (e ∙ ap (λ i. add32 buf i) (omega arith)));
    trace = t ∙ ap (λ tr. verhogen E.term_read_semaphore ∷ tr) kept_trace;
  }

  kept_inside : received < maxstrleng → (keep_char buf received (text m) l1).0 ≡ suc received
  kept_inside w = ground (arith, kept_count, w)

  kept_small :
      (j : ℕ) → (keep_char buf received (text m) l1).0 + j < maxstrleng → received < maxstrleng
  kept_small j w = ground (arith, kept_count, small, w)

  apart :
      (j : ℕ)
      → (keep_char buf received (text m) l1).0 + j < maxstrleng
      → add32 buf received ≢ add32 buf ((keep_char buf received (text m) l1).0 + j)
  apart j w e = omega (arith, kept_inside (kept_small j w), w, e)

  stored_more :
      (d : ℕ) (r : ℕ × Level)
      → Read E text buf
          (suc m)
          d
          (keep_char buf received (text m) l1).0
          (keep_char buf received (text m) l1).1
          r
      → (j : ℕ) → j ≤ suc d
      → received + j < maxstrleng
      → r.1.chars (add32 buf (received + j)) ≡ text (m + j)
  stored_more d r h zero z w =
      ap (λ i. r.1.chars (add32 buf i)) (omega arith)
      ∙ h.others (add32 buf received) (λ j y v. apart j v)
      ∙ kept_new (omega (arith, w))
      ∙ ap text (omega arith)
  stored_more d r h (suc j) z w =
      let inside : received < maxstrleng = omega (arith, w) in
      ap (λ i. r.1.chars (add32 buf i)) (omega (arith, kept_inside inside))
      ∙ h.stored j (omega (arith, z)) (omega (arith, kept_inside inside, w))
      ∙ ap text (omega arith)

  -- Another character.
  pub more-Read :
      (d : ℕ) (r : ℕ × Level)
      → Read E text buf
          (suc m)
          d
          (keep_char buf received (text m) l1).0
          (keep_char buf received (text m) l1).1
          r
      → Read E text buf m (suc d) received l r
  more-Read d r h = record {
    count = h.count ∙ ground (arith, kept_count, small);
    stored = stored_more d r h;
    others = λ a far.
        h.others a (λ j z w e.
          let inside : received < maxstrleng = kept_small j w in
          far (suc j) (omega (arith, z)) (omega (arith, kept_inside inside, w))
            (e ∙ ap (λ i. add32 buf i) (omega (arith, kept_inside inside))))
        ∙ kept_others a (λ w e.
          far 0 (omega arith) (omega (arith, w)) (e ∙ ap (λ i. add32 buf i) (omega arith)));
    trace = h.trace ∙ ap (λ tr. verhogen E.term_read_semaphore ∷ asked E (suc d) tr) kept_trace;
  }
