-- ===== src/Testers/Print.antt =====
-- What testers/print.c and testers/echo.c write, and what `fib` computes.
use pand_ossh.Common.{
  List, [], ap, append_assoc, arith, false, is_neg, length, ltb, refl, some, sub32, subst, suc,
  true, update, zero, ℕ, ◌%◌, ◌++◌, ◌+◌, ◌<◌, ◌==◌, ◌^◌, ◌||◌, ◌∙◌, ◌∷◌, ◌≡◌, ◌≤◌,
}
use pand_ossh.Testers.Text.{Holds-end, Holds, is_name-IsName, IsText, IsName}
use pand_ossh.Testers.Programs.{
  echo, Terminal, literal, str_length, check_status, print, print_all, fib, echo_back, buf_size,
}
use pand_ossh.Testers.{read, Call, characters, codes, exit, write}

str_length-length :
    (s : ℕ → ℕ) (left from : ℕ) (l : List ℕ)
    → length l < left
    → IsText s from l
    → str_length s left from ≡ some (from + length l)
unfolding str_length
str_length-length s zero from l w h = absurd (omega (arith, w))
str_length-length s (suc left) from [] w h = rw (h, str_length) (ap some (omega arith))
str_length-length s (suc left) from (c ∷ cs) w (e, (ne, h)) =
    let more : (c == 0) ≡ false = ground (arith, ne) in
    rw (e, str_length, more)
      (str_length-length s left (suc from) cs (omega (arith, w)) h ∙ ap some (omega arith))

IsText-characters : (s : ℕ → ℕ) (i : ℕ) (l : List ℕ) → IsText s i l → characters s i (length l) ≡ l
IsText-characters s i [] h = refl
IsText-characters s i (c ∷ cs) (e, (ne, h)) = rw (e, IsText-characters s (suc i) cs h) refl

IsText-tail : (s : ℕ → ℕ) (i : ℕ) (l : List ℕ) → IsText (λ j. s (suc j)) i l → IsText s (suc i) l
IsText-tail s i [] h = h
IsText-tail s i (c ∷ cs) (e, (ne, h)) = (e, (ne, IsText-tail s (suc i) cs h))

literal-IsText : (l : List ℕ) → IsName l → IsText (literal l) 0 l
literal-IsText [] n = refl
literal-IsText (c ∷ cs) (ne, n) =
    (refl, (ne, IsText-tail (literal (c ∷ cs)) 0 cs (literal-IsText cs n)))

-- `print` passes the string, whatever its length, and looks at the answer.
print-check_status :
    (T : Terminal) (s : ℕ → ℕ) (size : ℕ) (l : List ℕ) (calls : List Call)
    → length l < size
    → IsText s 0 l
    → print T s size calls ≡ some (check_status T (calls ++ write l ∷ []))
unfolding print
print-check_status T s size l calls w h = rw (str_length-length s size 0 l w h) (
    ap (λ t. some (check_status T (calls ++ write t ∷ [])))
      (ap (characters s 0) (omega arith) ∙ IsText-characters s 0 l h))

accepted :
    (T : Terminal) (calls : List Call)
    → is_neg (T.status calls) ≡ false
    → check_status T calls ≡ (calls, true)
unfolding check_status
accepted T calls e = rw e refl

abbrev AllNames : List (List ℕ) → Type 0
AllNames [] = Unit {0}
AllNames (l ∷ ls) = IsName l × AllNames ls

abbrev writes : List (List ℕ) → List Call
writes [] = exit ∷ []
writes (l ∷ ls) = write l ∷ writes ls

newline-IsName : IsName (codes "\n")
newline-IsName = is_name-IsName (codes "\n") refl

newline-IsText : IsText (literal (codes "\n")) 0 (codes "\n")
newline-IsText = literal-IsText (codes "\n") newline-IsName

-- A terminal that reports no error.
module _ (T : Terminal) (ok : (calls : List Call) → is_neg (T.status calls) ≡ false) where
  print-accepted :
      (s : ℕ → ℕ) (size : ℕ) (l : List ℕ) (calls : List Call)
      → length l < size
      → IsText s 0 l
      → print T s size calls ≡ some (calls ++ write l ∷ [], true)
  print-accepted s size l calls w h =
      print-check_status T s size l calls w h ∙ ap some (accepted T _ (ok _))

  print_all-writes :
      (texts : List (List ℕ)) (calls : List Call)
      → AllNames texts
      → print_all T texts (calls, true) ≡ some (calls ++ writes texts)
  unfolding print_all
  print_all-writes [] calls n = refl
  print_all-writes (l ∷ ls) calls (n, ns) =
      rw
        (
          print_all,
          print-accepted (literal l) (suc (length l)) l calls (omega arith) (literal-IsText l n),
        )
        (print_all-writes ls _ ns ∙ ap some (append_assoc calls (write l ∷ []) (writes ls)))

  echo_back-writes :
      (buf : ℕ → ℕ) (l : List ℕ) (calls : List Call)
      → length l < buf_size
      → IsText buf 0 l
      → echo_back T buf calls
        ≡ some ((calls ++ write (codes "\n") ∷ []) ++ write l ∷ writes (codes "\n" ∷ []))
  unfolding echo_back
  echo_back-writes buf l calls w h =
      rw
        (
          echo_back,
          print-accepted (literal (codes "\n")) 2 (codes "\n") calls (omega arith) newline-IsText,
          print-accepted buf buf_size l (calls ++ write (codes "\n") ∷ []) w h,
        )
        (print_all-writes (codes "\n" ∷ []) _ (newline-IsName, tt)
          ∙ ap some (
              append_assoc (calls ++ write (codes "\n") ∷ []) (write l ∷ [])
                (writes (codes "\n" ∷ []))))

prompt-IsText : IsText (literal (codes "Enter a string: ")) 0 (codes "Enter a string: ")
prompt-IsText =
    literal-IsText (codes "Enter a string: ") (is_name-IsName (codes "Enter a string: ") refl)

-- The line that READTERMINAL leaves is shorter than `buf` and has no NUL, and the terminal reports no
-- error. Then echo.c stays within `buf` and writes the line that was typed, between its own texts.
pub echo-Echoes :
    (T : Terminal) (buf : ℕ → ℕ) (l : List ℕ)
    → ((calls : List Call) → is_neg (T.status calls) ≡ false)
    → IsName l
    → Holds buf 0 l
    → length l < buf_size
    → echo T buf (length l)
      ≡ some (
          write (codes "Enter a string: ")
          ∷ read
          ∷ write (codes "\n")
          ∷ write l
          ∷ write (codes "\n")
          ∷ exit
          ∷ [])
unfolding echo
echo-Echoes T buf l ok n h w =
    let inside : ltb (length l) buf_size ≡ true = ground (arith, w) in
    let text : IsText (update buf (length l) 0) 0 l =
      subst (λ j. IsText (update buf j 0) 0 l) (omega arith) (Holds-end buf 0 l h n) in
    rw
      (
        echo,
        print-accepted T ok (literal (codes "Enter a string: ")) 17 (codes "Enter a string: ") []
            (omega arith) prompt-IsText,
        inside,
      )
      (echo_back-writes T ok (update buf (length l) 0) l _ w text)

-- The Fibonacci numbers.
abbrev pub fibonacci : ℕ → ℕ
fibonacci zero = 0
fibonacci (suc zero) = 1
fibonacci (suc (suc n)) = fibonacci (suc n) + fibonacci n

-- `fib` of a positive number ends and gives the Fibonacci number, modulo 2 ^ 32.
pub fib-fibonacci : (f i : ℕ) → 0 < i → i ≤ f → i < 2 ^ 31 → fib f i ≡ some (fibonacci i % 2 ^ 32)
unfolding fib
fib-fibonacci zero i p w b = absurd (omega (arith, p, w))
fib-fibonacci (suc f) zero p w b = absurd (omega (arith, p))
fib-fibonacci (suc f) (suc zero) p w b = refl
fib-fibonacci (suc f) (suc (suc zero)) p w b = refl
fib-fibonacci (suc f) (suc (suc (suc m))) p w b =
    let larger : (suc (suc (suc m)) == 1 || suc (suc (suc m)) == 2) ≡ false = ground arith in
    let one : sub32 (suc (suc (suc m))) 1 ≡ suc (suc m) = omega (arith, b) in
    let two : sub32 (suc (suc (suc m))) 2 ≡ suc m = omega (arith, b) in
    let first = fib-fibonacci f (suc (suc m)) (omega arith) (omega (arith, w)) (omega (arith, b)) in
    let second = fib-fibonacci f (suc m) (omega arith) (omega (arith, w)) (omega (arith, b)) in
    rw (fib, larger, one, two, first, second) (ap some (omega arith))
