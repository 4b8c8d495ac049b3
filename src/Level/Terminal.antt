-- ===== src/Level/Terminal.antt =====
-- The terminal of phase3/src/syscalls.c: what `writeTerminal` sends, and what `sys4` lets through.
use pand_ossh.Common.{
  Bool-cases, List, add32, ap, arith, bit_and, bit_or, false, inl, inr, leb, refl, suc, zero, ℕ,
  ◌%◌, ◌*◌, ◌+◌, ◌-◌, ◌<◌, ◌^◌, ◌∙◌, ◌∷◌, ◌≡◌, ◌≤◌, ◌⊎◌,
}
use pand_ossh.Level.Calls.{
  loop_count, give_back, too_long, sys2, exc_of, sys4, write_terminal, outside, char_done,
  char_command, write_chars,
}
use pand_ossh.Level.{
  userstacktop, maxstrleng, kuseg, call_effect, passeren, End, verhogen, Level, do_io, Call, call,
  Services,
}

-- The commands for n characters from str + i on, the last first, put in front of a trace.
abbrev pub sent : Services → (ℕ → ℕ) → (str i n : ℕ) → List Call → List Call
sent E chars str i zero tr = tr
sent E chars str i (suc n) tr =
    sent E chars str (suc i) n
      (do_io (E.terminal + 12) (bit_or (chars (add32 str i) % 2 ^ 8 * 2 ^ 8) char_command) ∷ tr)

-- A terminal that transmits every character, and calls that leave the string and the trace.
pub record Transmits (E : Services) : Type 0 where
  pub trace : (c : Call) (l : Level) → (E.syscall c l).1.trace ≡ l.trace
  pub chars : (c : Call) (l : Level) → (E.syscall c l).1.chars ≡ l.chars
  pub done : (a v : ℕ) (l : Level) → bit_and (E.syscall (do_io a v) l).0 0xFF ≡ char_done

write_chars-sends :
    (E : Services) (str i t n : ℕ) (l : Level)
    → Transmits E
    → ((write_chars E str i t n l).0 ≡ t + n)
      × ((write_chars E str i t n l).1.trace
          ≡ verhogen E.term_write_semaphore ∷ sent E l.chars str i n l.trace)
unfolding write_chars call
write_chars-sends E str i t zero l h = (omega arith, h.trace _ _)
write_chars-sends E str i t (suc n) l h =
    let c = do_io (E.terminal + 12) (bit_or (l.chars (add32 str i) % 2 ^ 8 * 2 ^ 8) char_command) in
    let l1 = (call E c l).1 in
    let rest = write_chars-sends E str (suc i) (suc t) n l1 h in
    let ok : bit_and (call E c l).0 0xFF ≡ char_done = h.done _ _ _ in
    rw ok (
      omega (arith, rest.0),
      rest.1
          ∙ ap (λ s. verhogen E.term_write_semaphore ∷ sent E s str (suc i) n l1.trace)
              (h.chars c _)
          ∙ ap (λ tr. verhogen E.term_write_semaphore ∷ sent E l.chars str (suc i) n tr)
              (h.trace c _),
    )

-- Over a terminal that transmits every character, `writeTerminal` returns the length, or 0 for a
-- negative one, and its calls are the P on the terminal's mutex, one transmit command for each
-- character of the string in order, and the V.
pub write_terminal-Sends :
    (E : Services) (str len : ℕ) (l : Level)
    → Transmits E
    → ((write_terminal E str len l).0 ≡ loop_count len)
      × ((write_terminal E str len l).1.trace
          ≡ verhogen E.term_write_semaphore
            ∷ sent E l.chars str 0 (loop_count len) (passeren E.term_write_semaphore ∷ l.trace))
unfolding write_terminal call
write_terminal-Sends E str len l h =
    let l1 = call_effect E (passeren E.term_write_semaphore) l in
    let rest = write_chars-sends E str 0 0 (loop_count len) l1 h in
    (
      omega (arith, rest.0),
      rest.1
          ∙ ap (λ s. verhogen E.term_write_semaphore ∷ sent E s str 0 (loop_count len) l1.trace)
              (h.chars _ _)
          ∙ ap (λ tr. verhogen E.term_write_semaphore ∷ sent E l.chars str 0 (loop_count len) tr)
              (h.trace _ _),
    )

-- The addresses that `sys4` lets through.
pub data Checked (E : Services) (sup : ℕ) (l : Level) (str len : ℕ) : End → Type 0 where
  refused : {e : End} → e ≡ sys2 E sup l → Checked E sup l str len e
  written :
      {e : End}
      → kuseg ≤ str
      → len ≤ maxstrleng
      → (str + len ≤ userstacktop) ⊎ (2 ^ 32 ≤ str + len)
      → e ≡ give_back E sup (write_terminal E str len l).0 (write_terminal E str len l).1
      → Checked E sup l str len e

accept :
    (str len : ℕ)
    → str < 2 ^ 32
    → outside str len ≡ false
    → too_long len ≡ false
    → (kuseg ≤ str) × (len ≤ maxstrleng) × ((str + len ≤ userstacktop) ⊎ (2 ^ 32 ≤ str + len))
unfolding outside too_long
accept str len w a b = (
  ground arith,
  ground arith,
  elim (Bool-cases (leb (str + len) userstacktop)) [
    | inl below ↦ inl (ground arith)
    | inr above ↦ inr (ground arith)
  ],
)

-- `sys4` ends the process, or writes a string of at most 128 characters whose address is not below
-- KUSEG, and whose end is not above USERSTACKTOP unless the sum of address and length leaves the 32
-- bits.
pub sys4-Checked :
    (E : Services) (sup str len : ℕ) (l : Level)
    → (exc_of sup l).gpr E.platform.reg_a1 ≡ str
    → (exc_of sup l).gpr E.platform.reg_a2 ≡ len
    → str < 2 ^ 32
    → Checked E sup l str len (sys4 E sup l)
unfolding sys4
sys4-Checked E sup str len l a b w =
    rw (a, b)
      (elim (Bool-cases (outside str len)) [
        | inl out ↦ rw out (refused refl)
        | inr inside ↦ rw inside (elim (Bool-cases (too_long len)) [
          | inl long ↦ rw long (refused refl)
          | inr short ↦
              let ok = accept str len w inside short in rw short (written ok.0 ok.1 ok.2 refl)
        ])
      ])

-- A string whose last address is the last of the address space loop_count the tests of `sys4`, though it
-- lies above the segment of U-procs: the sum wraps to 0.
pub sys4_wraps :
    (E : Services) (sup d : ℕ) (l : Level)
    → 0 < d
    → d ≤ 128
    → (exc_of sup l).gpr E.platform.reg_a1 ≡ 2 ^ 32 - d
    → (exc_of sup l).gpr E.platform.reg_a2 ≡ d
    → sys4 E sup l
      ≡ give_back E sup (write_terminal E (2 ^ 32 - d) d l).0 (write_terminal E (2 ^ 32 - d) d l).1
unfolding sys4 outside too_long
sys4_wraps E sup d l low high a b =
    let inside : outside (2 ^ 32 - d) d ≡ false = ground arith in
    let short : too_long d ≡ false = ground arith in rw (a, b, inside, short) refl
