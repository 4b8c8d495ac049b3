-- ===== src/Testers/Programs.antt =====
-- testers/print.c, and the programs that only print: echo.c, fibEight.c, fibEleven.c, date.c, uname.c
-- and sl.c.
use pand_ossh.Common.{
  Bool, List, Option, [], add32, false, if◌then◌else◌, is_neg, length, none, some, sub32, suc, true,
  zero, ℕ, ◌++◌, ◌==◌, ◌>>=◌, ◌||◌, ◌∷◌,
}
use pand_ossh.Testers.{Call, characters, codes, exit, put, read, write}

-- The characters of a string constant.
abbrev pub literal : List ℕ → ℕ → ℕ
literal [] i = 0
literal (c ∷ cs) zero = c
literal (c ∷ cs) (suc i) = literal cs i

-- The loop of `print` over an array with so many characters left.
unfoldable pub str_length : (ℕ → ℕ) → (left leng : ℕ) → Option ℕ
str_length s zero leng = none
str_length s (suc left) leng = elim (s leng == 0) [
  | true ↦ some leng
  | false ↦ str_length s left (suc leng)
]

-- The terminal: what WRITETERMINAL answers, by the calls so far, and the character that stands
-- behind the NUL of the error message, which is passed with it.
pub record Terminal : Type 0 where
  pub status : List Call → ℕ
  pub behind : ℕ

-- A run so far: its calls, and whether it goes on.
abbrev pub Progress : Type 0
Progress = Option (List Call × Bool)

-- What follows the first call of `print`.
unfoldable pub check_status : Terminal → List Call → List Call × Bool
check_status T calls =
    if is_neg (T.status calls)
    then (
      calls ++ write (codes "Bad device write status\n" ++ 0 ∷ T.behind ∷ []) ∷ exit ∷ [],
      false,
    )
    else (calls, true)

-- `print` of an array of the given size.
unfoldable pub print : Terminal → (ℕ → ℕ) → ℕ → List Call → Progress
print T s size calls = str_length s size 0 >>= λ leng.
    some (check_status T (calls ++ write (characters s 0 leng) ∷ []))

-- Several calls of `print`, with strings, and the end of the process.
unfoldable pub print_all : Terminal → List (List ℕ) → List Call × Bool → Option (List Call)
print_all T l (calls, false) = some calls
print_all T [] (calls, true) = some (calls ++ exit ∷ [])
print_all T (text ∷ texts) (calls, true) =
    print T (literal text) (suc (length text)) calls >>= λ r. print_all T texts r

abbrev pub date : Terminal → Option (List Call)
date T = print_all T (codes "Sat  5 Nov 06:15:00 PST 1955\n" ∷ []) ([], true)

abbrev pub uname : Terminal → Option (List Call)
uname T = print_all T (codes "PandOSsh\n" ∷ []) ([], true)

abbrev pub sl : Terminal → Option (List Call)
sl T =
    print_all T
      (codes "     ++      +------ \n"
        ∷ codes "     ||      |+-+ |  \n"
        ∷ codes "   /---------|| | |  \n"
        ∷ codes "  + ========  +-+ |  \n"
        ∷ codes " _|--O========O~\\-+ \n"
        ∷ codes "//// \\_/      \\_/  \n"
        ∷ [])
      ([], true)

-- `fib`, on fuel for its depth.
unfoldable pub fib : ℕ → ℕ → Option ℕ
fib zero i = none
fib (suc f) i = elim (i == 1 || i == 2) [
  | true ↦ some 1
  | false ↦ fib f (sub32 i 1) >>= λ a. fib f (sub32 i 2) >>= λ b. some (add32 a b)
]

-- The texts of fibEight.c and fibEleven.c around their only difference.
abbrev concluded : ℕ → ℕ → List (List ℕ)
concluded expected i =
    codes "Recursion Concluded\n"
    ∷ (if i == expected
        then codes "Recursion Concluded Successfully\n"
        else codes "ERROR: Recursion problems\n")
    ∷ []

abbrev pub fib_eight : Terminal → Option (List Call)
fib_eight T = fib 8 8 >>= λ i.
    print_all T (codes "Recursive Fibanaci (8) Test starts\n" ∷ concluded 21 i) ([], true)

abbrev pub fib_eleven : Terminal → Option (List Call)
fib_eleven T = fib 11 11 >>= λ i.
    print_all T (codes "Recursive Fibanaci (11) Test starts\n" ∷ concluded 89 i) ([], true)

-- `buf` of echo.c.
abbrev pub buf_size : ℕ
buf_size = 15

-- echo.c behind READTERMINAL, which left its characters in `buf`.
unfoldable pub echo_back : Terminal → (ℕ → ℕ) → List Call → Option (List Call)
echo_back T buf calls = print T (literal (codes "\n")) 2 calls >>= λ r. elim r.1 [
  | false ↦ some r.0
  | true ↦ print T buf buf_size r.0 >>= λ q. print_all T (codes "\n" ∷ []) q
]

-- `main` of echo.c; READTERMINAL answers n.
unfoldable pub echo : Terminal → (buf : ℕ → ℕ) → ℕ → Option (List Call)
echo T buf n = print T (literal (codes "Enter a string: ")) 17 [] >>= λ r. elim r.1 [
  | false ↦ some r.0
  | true ↦ put buf_size n 0 buf >>= λ b. echo_back T b (r.0 ++ read ∷ [])
]
