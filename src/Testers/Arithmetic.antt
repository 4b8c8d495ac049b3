-- ===== src/Testers/Arithmetic.antt =====
-- What testers/calc.c answers.
use pand_ossh.Common.{
  ◌<◌, ◌<◌, ◌<◌, ◌<◌, ◌<◌, ◌<◌, ◌<◌, ◌<◌, ◌<◌, ◌<◌, ◌<◌, ◌<◌, ◌<◌, ◌<◌, ◌<◌, ◌<◌, ◌<◌, ◌<◌, ◌<◌,
  ◌<◌, ◌<◌, ◌<◌, ◌<◌, ◌<◌, Bool, List, Option, [], add32, ap, arith, false, if◌then◌else◌, is_neg,
  length, ltb, none, refl, sdiv32, slt32, some, sub32, subst, true, ℕ, ◌%◌, ◌*◌, ◌+◌, ◌-◌, ◌/◌, ◌<◌,
  ◌==◌, ◌>>=◌, ◌^◌, ◌∷◌, ◌≡◌, ◌≤◌,
}
use native.Mathlib.Nat.{mul-le-mul, div-le_self}
use pand_ossh.Testers.Squeeze.{Deletes, Deletes-more}
use pand_ossh.Testers.Text.{squeeze}
use pand_ossh.Testers.{Call, characters, codes, exit, read, write}
use pand_ossh.Testers.Calc.{
  evaluate, not_digit, is_operator, finish, result_text, calc, delete_spaces, parse, ascii_to_int,
  calculate, expr_size,
}

-- The operators, and what the calculator should print.
pub data Operator : Type 0 where
  plus minus times divide : Operator

abbrev pub symbol : Operator → ℕ
symbol plus = b'+'
symbol minus = b'-'
symbol times = b'*'
symbol divide = b'/'

abbrev two_digits : ℕ → List ℕ
two_digits m = (48 + m / 10) ∷ (48 + m % 10) ∷ b'\n' ∷ []

-- The value in decimal, a negative one with its sign.
abbrev value : Operator → ℕ → ℕ → List ℕ
value plus a b = two_digits (a + b)
value minus a b = if ltb a b then b'-' ∷ (48 + (b - a)) ∷ b'\n' ∷ [] else two_digits (a - b)
value times a b = two_digits (a * b)
value divide a b = two_digits (a / b)

abbrev is_undefined : Operator → ℕ → Bool
is_undefined divide b = b == 0
is_undefined _ b = false

-- The calls that answer `a o b`.
abbrev pub answer : Operator → ℕ → ℕ → List Call
answer o a b =
    if is_undefined o b
    then write (codes "division by 0 not allowed\n") ∷ exit ∷ []
    else write (value o a b) ∷ exit ∷ []

result_text-two_digits : (m : ℕ) → m < 100 → result_text m ≡ two_digits m
unfolding result_text
result_text-two_digits m w = ground (arith, w)

digit_back : (a : ℕ) → a < 10 → sub32 (48 + a) 48 ≡ a
digit_back a w = omega (arith, w)

not_digit-digit : (a : ℕ) → a < 10 → not_digit a ≡ false
not_digit-digit a w = ground (arith, w)

is_operator-symbol : (o : Operator) → is_operator (symbol o) ≡ true
is_operator-symbol plus = refl
is_operator-symbol minus = refl
is_operator-symbol times = refl
is_operator-symbol divide = refl

-- The text of a value is printed, then the process ends.
prints :
    (m : ℕ) (l : List ℕ)
    → result_text m ≡ l
    → write (result_text m) ∷ exit ∷ [] ≡ write l ∷ exit ∷ []
prints m l e = ap (λ t. write t ∷ exit ∷ []) e

parse-digits :
    (new : ℕ → ℕ) (o : Operator) (a b : ℕ)
    → a < 10
    → b < 10
    → new 0 ≡ 48 + a
    → new 1 ≡ symbol o
    → new 2 ≡ 48 + b
    → parse new ≡ ([], some (a, (symbol o, b)))
unfolding parse
parse-digits new o a b wa wb e0 e1 e2 =
    rw
      (
        e0,
        e1,
        e2,
        digit_back a wa,
        digit_back b wb,
        not_digit-digit a wa,
        not_digit-digit b wb,
        is_operator-symbol o,
      )
      refl

plus32 : (a b : ℕ) → a < 10 → b < 10 → add32 a b ≡ a + b
plus32 a b wa wb = omega (arith, wa, wb)

below : (a : ℕ) → a < 10 → a ≤ 9
below a w = omega (arith, w)

product : (a b : ℕ) → a < 10 → b < 10 → a * b < 100
product a b wa wb = omega (arith, mul-le-mul (below a wa) (below b wb))

times32 : (a b : ℕ) → a < 10 → b < 10 → (a * b) % 2 ^ 32 ≡ a * b
times32 a b wa wb = omega (arith, product a b wa wb)

minus-text :
    (a b : ℕ)
    → a < 10
    → b < 10
    → result_text (sub32 a b)
      ≡ (if ltb a b then b'-' ∷ (48 + (b - a)) ∷ b'\n' ∷ [] else two_digits (a - b))
unfolding result_text
minus-text a b wa wb = ground (arith, wa, wb)

not_negative : (a : ℕ) → a < 10 → is_neg a ≡ false
not_negative a w = ground (arith, w)

quotient-answer :
    (undefined : Bool) (a b : ℕ)
    → a < 10
    → finish (
        if undefined
        then (write (codes "division by 0 not allowed\n") ∷ exit ∷ [], none)
        else ([], some (sdiv32 a b)))
      ≡ (if undefined
          then write (codes "division by 0 not allowed\n") ∷ exit ∷ []
          else write (two_digits (a / b)) ∷ exit ∷ [])
unfolding finish
quotient-answer true a b w = refl
quotient-answer false a b w =
    rw (not_negative a w)
      (prints _ _ (result_text-two_digits (a / b) (omega (arith, w, div-le_self a b))))

calculate-answer :
    (o : Operator) (a b : ℕ) → a < 10 → b < 10 → finish (calculate a (symbol o) b) ≡ answer o a b
unfolding calculate finish
calculate-answer plus a b wa wb =
    prints _ _ (rw (plus32 a b wa wb) (result_text-two_digits (a + b) (omega (arith, wa, wb))))
calculate-answer minus a b wa wb = prints _ _ (minus-text a b wa wb)
calculate-answer times a b wa wb =
    prints _ _ (rw (times32 a b wa wb) (result_text-two_digits (a * b) (product a b wa wb)))
calculate-answer divide a b wa wb = quotient-answer (b == 0) a b wa

abbrev pub session : Operator → ℕ → ℕ → List Call
session o a b = write (codes "insert expression\n") ∷ read ∷ answer o a b

answered :
    (r : Option (ℕ → ℕ)) (junk : ℕ → ℕ) (o : Operator) (a b : ℕ) (rest : List ℕ)
    → a < 10
    → b < 10
    → Deletes 0 ((48 + a) ∷ symbol o ∷ (48 + b) ∷ rest) junk r
    → ((r >>= λ new. some (parse new)) >>= λ p.
        some (write (codes "insert expression\n") ∷ read ∷ evaluate p))
      ≡ some (session o a b)
unfolding evaluate
answered none junk o a b rest wa wb h = absurd h
answered (some new) junk o a b rest wa wb h =
    rw (parse-digits new o a b wa wb h.holds.0 h.holds.1.0 h.holds.1.1.0) (
      ap (λ l. some (write (codes "insert expression\n") ∷ read ∷ l))
        (calculate-answer o a b wa wb))

-- READTERMINAL leaves at most 10 characters, which are but for spaces a digit, an operator, a digit
-- and at most 6 others. Then the calculator stays within its arrays, whatever they held before, and
-- asks, reads, prints the value in decimal, with its sign, and ends; a division by 0 it refuses.
pub calc-Answers :
    (junk buffer : ℕ → ℕ) (n a b : ℕ) (o : Operator) (rest : List ℕ)
    → n ≤ 10
    → a < 10
    → b < 10
    → length rest ≤ 6
    → squeeze (characters buffer 0 n) ≡ (48 + a) ∷ symbol o ∷ (48 + b) ∷ rest
    → calc junk buffer n ≡ some (session o a b)
unfolding calc ascii_to_int
calc-Answers junk buffer n a b o rest wn wa wb wr e =
    let deleted : Deletes 0 ((48 + a) ∷ symbol o ∷ (48 + b) ∷ rest) junk
        (delete_spaces buffer 0 n 0 junk) =
      subst (λ l. Deletes 0 l junk (delete_spaces buffer 0 n 0 junk)) e
        (Deletes-more buffer 0 n 0 junk (rw e (omega (arith, wr)))) in
    let fits : slt32 expr_size n ≡ false = ground (arith, wn) in
    let counted : is_neg n ≡ false = ground (arith, wn) in
    rw (fits, counted) (answered _ junk o a b rest wa wb deleted)
