-- ===== src/Testers/Tests.antt =====
-- The programs of the users at typed lines.
use pand_ossh.Common.{List, [], arith, length, refl, some, suc, ℕ, ◌%◌, ◌++◌, ◌^◌, ◌∷◌, ◌≡◌}
use pand_ossh.Testers.Text.{is_name-IsName, squeeze}
use pand_ossh.Testers.Calc.{calc}
use pand_ossh.Testers.Arithmetic.{calc-Answers, session, plus}
use pand_ossh.Testers.Shell.{Line, shell}
use pand_ossh.Testers.Session.{shell-Replies, replies}
use pand_ossh.Testers.Programs.{Terminal, echo, fib, literal}
use pand_ossh.Testers.Print.{echo-Echoes, fib-fibonacci, fibonacci}
use pand_ossh.Testers.{characters, codes, exit, read, write}

squeezed : squeeze (characters (literal (codes "7 + 8\n")) 0 6) ≡ b'7' ∷ b'+' ∷ b'8' ∷ b'\n' ∷ []
unfolding squeeze
squeezed = refl

calc-Answers_example : calc (λ i. 7) (literal (codes "7 + 8\n")) 6 ≡ some (session plus 7 8)
calc-Answers_example =
    calc-Answers (λ i. 7) (literal (codes "7 + 8\n")) 6 7 8 plus (b'\n' ∷ []) (omega arith)
      (omega arith) (omega arith) (omega arith) squeezed

abbrev typed_line : List ℕ → Line
typed_line l = record { buffer = literal (l ++ b'\n' ∷ []); count = suc (length l) }

abbrev lines : List (List ℕ)
lines = codes "  date " ∷ codes "" ∷ codes "dates" ∷ codes "exit" ∷ []

-- One program, one empty line, one that is no name, and the end.
shell-Replies_example :
    shell (
      typed_line (codes "  date ")
      ∷ typed_line (codes "")
      ∷ typed_line (codes "dates")
      ∷ typed_line (codes "exit")
      ∷ [])
    ≡ some (replies lines)
shell-Replies_example = shell-Replies lines _ (
  record {
    count = refl;
    text = (refl, (refl, (refl, (refl, (refl, (refl, (refl, (refl, tt))))))));
    name = is_name-IsName (codes "  date ") refl;
    short = omega arith;
  },
  (
    record { count = refl; text = (refl, tt); name = tt; short = omega arith },
    (
      record {
        count = refl;
        text = (refl, (refl, (refl, (refl, (refl, (refl, tt))))));
        name = is_name-IsName (codes "dates") refl;
        short = omega arith;
      },
      (
        record {
          count = refl;
          text = (refl, (refl, (refl, (refl, (refl, tt)))));
          name = is_name-IsName (codes "exit") refl;
          short = omega arith;
        },
        tt,
      ),
    ),
  ),
)

abbrev terminal : Terminal
terminal = record { status = λ calls. 5; behind = 0 }

echo-Echoes_example :
    echo terminal (literal (codes "hello\n")) 6
    ≡ some (
        write (codes "Enter a string: ")
        ∷ read
        ∷ write (codes "\n")
        ∷ write (codes "hello\n")
        ∷ write (codes "\n")
        ∷ exit
        ∷ [])
echo-Echoes_example =
    echo-Echoes terminal (literal (codes "hello\n")) (codes "hello\n") (λ calls. refl)
      (is_name-IsName (codes "hello\n") refl) (refl, (refl, (refl, (refl, (refl, (refl, tt))))))
      (omega arith)

fib-fibonacci_example : fib 8 8 ≡ some (fibonacci 8 % 2 ^ 32)
fib-fibonacci_example = fib-fibonacci 8 8 (omega arith) (omega arith) (omega arith)
