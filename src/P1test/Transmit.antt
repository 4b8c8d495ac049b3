-- ===== src/P1test/Transmit.antt =====
-- `termprint` of phase1/p1test.c: what it sends to the terminal, what it answers, and when it does not
-- end.
use pand_ossh.Common.{
  ℕ, zero, suc, List, [], ◌∷◌, ◌++◌, ◌+◌, ◌<◌, ◌≡◌, ◌==◌, ◌||◌, ◌&&◌, refl, arith, Bool, true,
  false, if◌then◌else◌, length, ltb, ==_iff, ap, sym, append-nil, ◌∙◌, inl, inr, Bool-cases, subst,
  append_assoc, Option, none, some, bit_and,
}
use pand_ossh.P1test.{
  Transmitter, Sent, termstat, busy_wait, print_command, print_cycle, termprint, transmitted, send,
  read_status, wait_end,
}

-- The status byte at the i-th reading after the n-th command.
abbrev pub status_at : Transmitter → ℕ → ℕ → ℕ
status_at D n i = bit_and (D.status n i) 0xFF

-- After each command the transmitter is BUSY for some readings, fewer than the fuel, and then shows
-- an answer that is not BUSY.
pub record Answers (D : Transmitter) : Type 0 where
  pub busy_for : ℕ → ℕ
  pub answer : ℕ → ℕ
  pub in_time : (n : ℕ) → busy_for n < D.readings
  pub stays_busy : (n i : ℕ) → i < busy_for n → status_at D n i ≡ D.busy_code
  pub answers : (n : ℕ) → status_at D n (busy_for n) ≡ answer n
  pub ends : (n : ℕ) → (answer n == D.busy_code) ≡ false

-- The n-th command was carried out.
abbrev pub Accepted : (D : Transmitter) → Answers D → ℕ → Type 0
Accepted D h n = h.answer n ≡ transmitted

-- The commands for these characters.
abbrev pub commands_of : List ℕ → List ℕ
commands_of [] = []
commands_of (c ∷ cs) = print_command c ∷ commands_of cs

-- An answer, after just the commands for these characters.
pub record Ends (answer : Bool) (cs : List ℕ) (s : Sent) (r : Bool × Sent) : Type 0 where
  pub result : r.0 ≡ answer
  pub commands : r.1.commands ≡ s.commands ++ commands_of cs
  pub count : r.1.count ≡ s.count + length cs

-- The characters were all accepted, or all up to one that was not, which is the last that is sent.
pub data Prints (D : Transmitter) (h : Answers D) (str : List ℕ) (s : Sent) (r : Bool × Sent)
    : Type 0 where
  whole :
      ((i : ℕ) → i < length str → Accepted D h (s.count + suc i))
      → Ends true str s r
      → Prints D h str s r
  cut :
      (front rest : List ℕ) (c : ℕ)
      → str ≡ front ++ c ∷ rest
      → ((i : ℕ) → i < length front → Accepted D h (s.count + suc i))
      → ¬ Accepted D h (s.count + suc (length front))
      → Ends false (front ++ c ∷ []) s r
      → Prints D h str s r

-- A wait that ends with this status, after no further command.
abbrev Waited : ℕ → Sent → Option (ℕ × Sent) → Type 0
Waited v s none = ⊥
Waited v s (some (stat, s1)) = (stat ≡ v) × (s1.commands ≡ s.commands) × (s1.count ≡ s.count)

busy_wait-Waited :
    (D : Transmitter) (h : Answers D) (fuel left : ℕ) (s : Sent)
    → s.reads + left ≡ h.busy_for s.count
    → left < fuel
    → Waited (h.answer s.count) s (busy_wait D fuel s)
unfolding busy_wait
busy_wait-Waited D h zero left s e w = absurd (omega (arith, w))
busy_wait-Waited D h (suc fuel) zero s e w =
    let now : termstat D s ≡ h.answer s.count =
      ap (status_at D s.count) (omega (arith, e)) ∙ h.answers s.count in
    let over : (termstat D s == D.busy_code) ≡ false =
      ap (λ a. a == D.busy_code) now ∙ h.ends s.count in
    rw over (now, refl, refl)
busy_wait-Waited D h (suc fuel) (suc left) s e w =
    let busy : (termstat D s == D.busy_code) ≡ true =
      (==_iff _ _).1 (h.stays_busy s.count s.reads (omega (arith, e))) in
    rw busy (busy_wait-Waited D h fuel left (read_status s) (omega (arith, e)) (omega (arith, w)))

-- One acceptance more.
next-Accepted :
    (D : Transmitter) (h : Answers D) (n m : ℕ)
    → Accepted D h (n + 1)
    → ((i : ℕ) → i < m → Accepted D h (n + 1 + suc i))
    → (i : ℕ) → i < suc m
    → Accepted D h (n + suc i)
next-Accepted D h n m a all zero w = a
next-Accepted D h n m a all (suc i) w =
    subst (Accepted D h) (omega arith) (all i (omega (arith, w)))

-- One command more, in front.
Ends-cons :
    (b : Bool) (c : ℕ) (cs : List ℕ) (s s1 : Sent) (r : Bool × Sent)
    → s1.commands ≡ s.commands ++ print_command c ∷ []
    → s1.count ≡ s.count + 1
    → Ends b cs s1 r
    → Ends b (c ∷ cs) s r
Ends-cons b c cs s s1 r e n h = record {
  result = h.result;
  commands =
      h.commands
      ∙ ap (λ l. l ++ commands_of cs) e
      ∙ append_assoc s.commands (print_command c ∷ []) (commands_of cs);
  count = h.count ∙ omega (arith, n);
}

-- A character that is accepted, in front of a string.
Prints-cons :
    (D : Transmitter) (h : Answers D) (c : ℕ) (cs : List ℕ) (s s1 : Sent) (r : Bool × Sent)
    → s1.commands ≡ s.commands ++ print_command c ∷ []
    → s1.count ≡ s.count + 1
    → Accepted D h (s.count + 1)
    → Prints D h cs s1 r
    → Prints D h (c ∷ cs) s r
Prints-cons D h c cs s s1 r e n a (whole all ends) =
    whole
      (next-Accepted D h s.count (length cs) a
        (λ i w. subst (λ m. Accepted D h (m + suc i)) n (all i w)))
      (Ends-cons true c cs s s1 r e n ends)
Prints-cons D h c cs s s1 r e n a (cut front rest d split all refused ends) =
    cut (c ∷ front) rest d (ap (λ l. c ∷ l) split)
      (next-Accepted D h s.count (length front) a
        (λ i w. subst (λ m. Accepted D h (m + suc i)) n (all i w)))
      (λ x. refused (subst (Accepted D h) (omega (arith, n)) x))
      (Ends-cons false c (front ++ d ∷ []) s s1 r e n ends)

-- The end of a run of `termprint`.
abbrev pub PrintEnds : (D : Transmitter) → Answers D → List ℕ → Sent → Option (Bool × Sent) → Type 0
PrintEnds D h str s none = ⊥
PrintEnds D h str s (some r) = Prints D h str s r

PrintEnds-cons :
    (D : Transmitter) (h : Answers D) (c : ℕ) (cs : List ℕ) (s s1 : Sent) (o : Option (Bool × Sent))
    → s1.commands ≡ s.commands ++ print_command c ∷ []
    → s1.count ≡ s.count + 1
    → Accepted D h (s.count + 1)
    → PrintEnds D h cs s1 o
    → PrintEnds D h (c ∷ cs) s o
PrintEnds-cons D h c cs s s1 none e n a p = p
PrintEnds-cons D h c cs s s1 (some r) e n a p = Prints-cons D h c cs s s1 r e n a p

-- The first character is sent, and its wait has ended.
first-PrintEnds :
    (D : Transmitter) (h : Answers D) (c : ℕ) (cs : List ℕ) (s : Sent)
    (f : Sent → Option (Bool × Sent)) (o : Option (ℕ × Sent))
    → ((s1 : Sent) → PrintEnds D h cs s1 (f s1))
    → Waited (h.answer (s.count + 1)) (send (print_command c) s) o
    → PrintEnds D h (c ∷ cs) s (elim o [ none ↦ none | some r ↦ wait_end f r ])
first-PrintEnds D h c cs s f none rest w = w
first-PrintEnds D h c cs s f (some (stat, s1)) rest (e, commands, count) =
    elim (Bool-cases (stat == transmitted)) [
      | inl accepted ↦ rw accepted (
          PrintEnds-cons D h c cs s s1 (f s1) commands count (sym e ∙ (==_iff _ _).0 accepted)
            (rest s1))
      | inr refused ↦ rw refused (
          cut [] cs c refl (λ i w. absurd (omega (arith, w)))
            (λ x. cc ((==_iff stat transmitted).1 (e ∙ x), refused))
            (record { result = refl; commands = commands; count = count }))
    ]

print_cycle-PrintEnds :
    (D : Transmitter) (h : Answers D) (str : List ℕ) (s : Sent)
    → PrintEnds D h str s (print_cycle D str s)
unfolding print_cycle
print_cycle-PrintEnds D h [] s =
    whole (λ i w. absurd (omega (arith, w)))
      (record { result = refl; commands = sym (append-nil s.commands); count = omega arith })
print_cycle-PrintEnds D h (c ∷ cs) s =
    first-PrintEnds D h c cs s (print_cycle D cs)
      (busy_wait D D.readings (send (print_command c) s)) (print_cycle-PrintEnds D h cs)
      (busy_wait-Waited D h D.readings (h.busy_for (s.count + 1)) (send (print_command c) s)
        (omega arith) (h.in_time (s.count + 1)))

-- The terminal exists and is available.
abbrev pub available : Transmitter → ℕ → Sent → Bool
available D term s =
    ltb term D.devperint && ((termstat D s == D.ready_code) || (termstat D s == transmitted))

-- What `termprint` answers, and sends, in each case.
abbrev pub Printed :
    (D : Transmitter) → Answers D → List ℕ → ℕ → Sent → Option (Bool × Sent) → Type 0
Printed D h str term s none = ⊥
Printed D h str term s (some r) =
    if available D term s then Prints D h str s r else Ends false [] s r

Prints-read :
    (D : Transmitter) (h : Answers D) (str : List ℕ) (term : ℕ) (s : Sent)
    (o : Option (Bool × Sent))
    → available D term s ≡ true
    → PrintEnds D h str (read_status s) o
    → Printed D h str term s o
Prints-read D h str term s none e p = p
Prints-read D h str term s (some r) e (whole all ends) =
    rw e (whole all (record { result = ends.result; commands = ends.commands; count = ends.count }))
Prints-read D h str term s (some r) e (cut front rest c split all refused ends) = rw e (
    cut front rest c split all refused
      (record { result = ends.result; commands = ends.commands; count = ends.count }))

unavailable :
    (D : Transmitter) (h : Answers D) (str : List ℕ) (term : ℕ) (s s1 : Sent)
    → available D term s ≡ false
    → s1.commands ≡ s.commands
    → s1.count ≡ s.count
    → Printed D h str term s (some (false, s1))
unavailable D h str term s s1 e commands count = rw e (record {
  result = refl;
  commands = commands ∙ sym (append-nil s.commands);
  count = omega (arith, count);
})

-- After each command the transmitter is BUSY for some readings, fewer than the fuel, and then shows
-- another status. Then `termprint` ends. For a terminal that does not exist, or one that is not
-- available, it sends nothing and answers FALSE; otherwise it sends the characters in order, answers TRUE
-- if all were transmitted, and FALSE if one was not, which is then the last that it sends.
pub termprint-Printed :
    (D : Transmitter) (h : Answers D) (str : List ℕ) (term : ℕ) (s : Sent)
    → Printed D h str term s (termprint D str term s)
unfolding termprint
termprint-Printed D h str term s = elim (Bool-cases (ltb term D.devperint)) [
  | inl there ↦
      elim (Bool-cases ((termstat D s == D.ready_code) || (termstat D s == transmitted))) [
        | inl ready ↦
            rw (there, ready)
              (Prints-read D h str term s (print_cycle D str (read_status s))
                (rw (there, ready) refl) (print_cycle-PrintEnds D h str (read_status s)))
        | inr unready ↦
            rw (there, unready)
              (unavailable D h str term s (read_status s) (rw (there, unready) refl) refl refl)
      ]
  | inr absent ↦ rw absent (unavailable D h str term s s (rw absent refl) refl refl)
]

busy_wait-none :
    (D : Transmitter) (fuel : ℕ) (s : Sent)
    → ((i : ℕ) → status_at D s.count i ≡ D.busy_code)
    → busy_wait D fuel s ≡ none
unfolding busy_wait
busy_wait-none D zero s h = refl
busy_wait-none D (suc fuel) s h =
    let busy : (termstat D s == D.busy_code) ≡ true = (==_iff _ _).1 (h s.reads) in
    rw busy (busy_wait-none D fuel (read_status s) h)

-- The terminal is available, and its transmitter stays BUSY after the first command for a string that
-- is not empty. Then no fuel is enough: `termprint` does not end.
pub termprint_hangs :
    (D : Transmitter) (fuel : ℕ) (c : ℕ) (cs : List ℕ) (term : ℕ) (s : Sent)
    → available D term s ≡ true
    → ((i : ℕ) → status_at D (s.count + 1) i ≡ D.busy_code)
    → termprint (record D { readings = fuel }) (c ∷ cs) term s ≡ none
unfolding termprint print_cycle
termprint_hangs D fuel c cs term s e h =
    let waits =
      busy_wait-none (record D { readings = fuel }) fuel (send (print_command c) (read_status s))
        h in
    ground (arith, e, waits)
