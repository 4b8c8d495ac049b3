-- ===== src/Testers/Calc.antt =====
-- testers/calc.c: the calculator.
use pand_ossh.Common.{
  Bool, List, Option, [], add32, false, if◌then◌else◌, is_neg, neg32, none, not, sdiv32, slt32,
  some, srem32, sub32, suc, true, zero, ℕ, ◌%◌, ◌*◌, ◌++◌, ◌==◌, ◌>>=◌, ◌^◌, ◌||◌, ◌∷◌,
}
use pand_ossh.Testers.{Call, char_of, codes, put, write, read, exit}

-- `newExpr` and `buffer` have 10 characters.
abbrev pub expr_size : ℕ
expr_size = 10

-- `deleteSpaces` from `expr[i]` on, with `left` characters to go.
unfoldable pub delete_spaces : (ℕ → ℕ) → (i left index : ℕ) → (ℕ → ℕ) → Option (ℕ → ℕ)
delete_spaces expr i zero index new = put expr_size index 0 new
delete_spaces expr i (suc left) index new = elim (expr i == b' ') [
  | true ↦ delete_spaces expr (suc i) left index new
  | false ↦ put expr_size index (expr i) new >>= λ n. delete_spaces expr (suc i) left (suc index) n
]

abbrev pub Parsed : Type 0
Parsed = List Call × Option (ℕ × (ℕ × ℕ))

abbrev pub is_operator : ℕ → Bool
is_operator c = c == b'+' || (c == b'-' || (c == b'*' || c == b'/'))

abbrev pub not_digit : ℕ → Bool
not_digit d = is_neg d || slt32 9 d

-- `asciiToInt` on the expression without its spaces: the messages, and the two numbers and the
-- operator between them, or -1.
unfoldable pub parse : (ℕ → ℕ) → Parsed
parse new =
    if not_digit (sub32 (new 0) 48)
    then (write (codes "first input not a number\n") ∷ [], none)
    else if not (is_operator (new 1))
    then (write (codes "not an allowed operatio") ∷ [], none)
    else if not_digit (sub32 (new 2) 48)
    then (write (codes "second input not a number\n") ∷ [], none)
    else ([], some (sub32 (new 0) 48, (new 1, sub32 (new 2) 48)))

-- `asciiToInt`; the first argument is what `newExpr` holds before.
unfoldable pub ascii_to_int : (ℕ → ℕ) → (ℕ → ℕ) → ℕ → Option Parsed
ascii_to_int junk expr len =
    delete_spaces expr 0 (if is_neg len then 0 else len) 0 junk >>= λ new. some (parse new)

-- `calculate`; `none` is the end of the process.
unfoldable pub calculate : ℕ → ℕ → ℕ → List Call × Option ℕ
calculate num1 opr num2 =
    if opr == b'+'
    then ([], some (add32 num1 num2))
    else if opr == b'-'
    then ([], some (sub32 num1 num2))
    else if opr == b'*'
    then ([], some ((num1 * num2) % 2 ^ 32))
    else if opr == b'/'
    then if num2 == 0
      then (write (codes "division by 0 not allowed\n") ∷ exit ∷ [], none)
      else ([], some (sdiv32 num1 num2))
    else (exit ∷ [], none)

-- `res_buffer`
unfoldable pub result_text : ℕ → List ℕ
result_text result =
    if is_neg result
    then b'-' ∷ char_of (add32 (neg32 result) 48) ∷ b'\n' ∷ []
    else char_of (add32 (sdiv32 result 10) 48) ∷ char_of (add32 (srem32 result 10) 48) ∷ b'\n' ∷ []

unfoldable pub finish : List Call × Option ℕ → List Call
finish (calls, none) = calls
finish (calls, some result) = calls ++ write (result_text result) ∷ exit ∷ []

unfoldable pub evaluate : Parsed → List Call
evaluate (calls, none) = calls ++ exit ∷ []
evaluate (calls, some (first, (operand, second))) = calls ++ finish (calculate first operand second)

-- `main`. READTERMINAL answers n and leaves its characters in the buffer; more than the buffer has
-- are outside of it.
unfoldable pub calc : (junk buffer : ℕ → ℕ) → ℕ → Option (List Call)
calc junk buffer n =
    if slt32 expr_size n
    then none
    else ascii_to_int junk buffer n >>= λ r.
        some (write (codes "insert expression\n") ∷ read ∷ evaluate r)
