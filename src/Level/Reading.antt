-- ===== src/Level/Reading.antt =====
-- `readTerminal` of phase3/src/syscalls.c, over a terminal on which a line is typed.
use pand_ossh.Level.Kept.{
  Reads, Received, Delivers, asked, receipts, kept_small_enough, kept_trace, last-Read, more-Read,
}
use pand_ossh.Common.{
  ==_self, List, Option, ap, arith, bit_and, false, none, some, suc, sym, true, zero, ℕ, ◌+◌, ◌/◌,
  ◌<◌, ◌==◌, ◌^◌, ◌∙◌, ◌∷◌, ◌≡◌, ◌≢◌, ◌≤◌,
}
use pand_ossh.Level.Calls.{read_chars, read_terminal, keep_char, char_command}
use pand_ossh.Level.{Level, Services, Call, call, do_io, passeren, verhogen, maxstrleng}

more-Reads :
    (E : Services) (text : ℕ → ℕ) (buf m received : ℕ) (l l1 : Level) (d : ℕ)
    (o : Option (ℕ × Level))
    → Received E l l1
    → received ≤ maxstrleng
    → Reads E text buf
        (suc m)
        d
        (keep_char buf received (text m) l1).0
        (keep_char buf received (text m) l1).1
        o
    → Reads E text buf m (suc d) received l o
more-Reads E text buf m received l l1 d none came small h = h
more-Reads E text buf m received l l1 d (some r) came small h =
    more-Read E text buf m received l l1 came small d r h

one_more :
    (a m : ℕ) (tr : List Call)
    → 1 + receipts a tr ≡ m
    → 1 + receipts a (do_io a char_command ∷ tr) ≡ suc m
one_more a m tr e = rw (==_self a) (omega (arith, e))

pub plus_zero : (m : ℕ) → m + 0 ≡ m
plus_zero m = omega arith

pub plus_suc : (m j : ℕ) → m + suc j ≡ suc m + j
plus_suc m j = omega arith

line_starts : (text : ℕ → ℕ) (m d : ℕ) → ((j : ℕ) → j < suc d → text (m + j) ≢ 10) → text m ≢ 10
line_starts text m d line z = line 0 (omega arith) (ap text (plus_zero m) ∙ z)

first_char :
    (E : Services) (text : ℕ → ℕ) (m : ℕ) (l : Level)
    → Delivers E text
    → 1 + receipts (E.terminal + 4) l.trace ≡ m
    → bit_and ((call E (do_io (E.terminal + 4) char_command) l).0 / 2 ^ 8) 0xFF ≡ text m
unfolding call
first_char E text m l h e = h.char _ ∙ ap text (rw (==_self (E.terminal + 4)) e)

came_back :
    (E : Services) (text : ℕ → ℕ) (l : Level)
    → Delivers E text
    → Received E l (call E (do_io (E.terminal + 4) char_command) l).1
unfolding call
came_back E text l h = record { chars = h.chars _ _; trace = h.trace _ _ }

read_chars-Reads :
    (E : Services) (text : ℕ → ℕ) (buf m d fuel received : ℕ) (l : Level)
    → Delivers E text
    → 1 + receipts (E.terminal + 4) l.trace ≡ m
    → received ≤ maxstrleng
    → d < fuel
    → ((j : ℕ) → j < d → text (m + j) ≢ 10)
    → text (m + d) ≡ 10
    → Reads E text buf m d received l (read_chars E fuel buf received l)
unfolding read_chars call
read_chars-Reads E text buf m d zero received l h e w f line stop = absurd (omega (arith, f))
read_chars-Reads E text buf m zero (suc fuel) received l h e w f line stop =
    let a = E.terminal + 4 in
    let first = first_char E text m l h e in
    let newline : (text m == 10) ≡ true = ground (arith, ap text (sym (plus_zero m)) ∙ stop) in
    rw (read_chars, h.done _, first, newline)
      (last-Read E text buf m received l (call E (do_io a char_command) l).1 (came_back E text l h)
        w _ (h.chars _ _) (h.trace _ _))
read_chars-Reads E text buf m (suc d) (suc fuel) received l h e w f line stop =
    let a = E.terminal + 4 in
    let first = first_char E text m l h e in
    let other : (text m == 10) ≡ false = ground (arith, line_starts text m d line) in
    let came = came_back E text l h in
    let l1 = (call E (do_io a char_command) l).1 in
    rw (read_chars, h.done _, first, other)
      (more-Reads E text buf m received l l1 d _ came w (
        read_chars-Reads E text buf (suc m) d fuel _ _ h
          (ap (λ tr. 1 + receipts a tr) (kept_trace E text buf m received l l1 came w)
            ∙ one_more a m l.trace e)
          (kept_small_enough E text buf m received l l1 came w) (omega (arith, f))
          (λ j z y. line (suc j) (omega (arith, z)) (ap text (plus_suc m j) ∙ y))
          (ap text (sym (plus_suc m d)) ∙ stop)))

Read-same :
    (E : Services) (text : ℕ → ℕ) (buf m d received : ℕ) (l l1 : Level) (o : Option (ℕ × Level))
    → l1.chars ≡ l.chars
    → l1.trace ≡ l.trace
    → Reads E text buf m d received l1 o
    → Reads E text buf m d received l o
Read-same E text buf m d received l l1 none c t h = h
Read-same E text buf m d received l l1 (some r) c t h = record {
  count = h.count;
  stored = h.stored;
  others = λ a far. h.others a far ∙ ap (λ (f : ℕ → ℕ). f a) c;
  trace = h.trace ∙ ap (λ tr. verhogen E.term_read_semaphore ∷ asked E (suc d) tr) t;
}

-- A line of d characters and the newline is typed, the fuel is above d, and calls leave the caller's
-- characters. Then `readTerminal` ends and answers d + 1, or 128 if that is more: it stored so many
-- characters of the line in order, the newline among them if there is room, and changed no other. Its
-- calls are the P on the terminal's mutex, a receive command for each character of the whole line, and
-- the V.
pub read_terminal-Reads :
    (E : Services) (text : ℕ → ℕ) (fuel buf d : ℕ) (l : Level)
    → Delivers E text
    → d < fuel
    → ((j : ℕ) → j < d → text (1 + receipts (E.terminal + 4) l.trace + j) ≢ 10)
    → text (1 + receipts (E.terminal + 4) l.trace + d) ≡ 10
    → Reads E text buf
        (1 + receipts (E.terminal + 4) l.trace)
        d
        0
        (record l { trace = passeren E.term_read_semaphore ∷ l.trace })
        (read_terminal E fuel buf l)
unfolding read_terminal call
read_terminal-Reads E text fuel buf d l h f line stop =
    let l1 = (call E (passeren E.term_read_semaphore) l).1 in
    Read-same E text buf _ d 0 _ l1 _ (h.chars _ _) (h.trace _ _) (
      read_chars-Reads E text buf _ d fuel 0 l1 h
        (ap (λ tr. 1 + receipts (E.terminal + 4) tr) (h.trace _ _)) (omega arith) f line stop)
