-- ===== src/Testers/Session.antt =====
-- What testers/shell.c answers.
use pand_ossh.Common.{
  Bool, List, Option, [], ap, arith, bind_some, false, if◌then◌else◌, length, ltb, none, refl, some,
  subst, suc, true, update, ℕ, ◌&&◌, ◌++◌, ◌<◌, ◌==◌, ◌>>=◌, ◌∙◌, ◌∷◌, ◌≡◌,
}
use pand_ossh.Testers.Text.{
  Holds-front, IsText, IsName, is_name, is_name-IsName, Holds-end, Holds-last, Holds, trim,
}
use pand_ossh.Testers.Trim.{TrimsTo, trim_spaces-TrimsTo}
use pand_ossh.Testers.{Call, codes, exit, read, write, execute}
use pand_ossh.Testers.Shell.{
  drop_newline, Line, shell, pass, command, look_up, same_name, is_exit, programs, buffer_size,
}

-- Equality of texts.
abbrev same : List ℕ → List ℕ → Bool
same [] [] = true
same [] (d ∷ ds) = false
same (c ∷ cs) [] = false
same (c ∷ cs) (d ∷ ds) = c == d && same cs ds

-- The comparison with the buffer is that with its text.
same_name-same :
    (name : List ℕ) (s : ℕ → ℕ) (i : ℕ) (l : List ℕ)
    → IsName name
    → IsText s i l
    → same_name name s i ≡ same name l
unfolding same_name
same_name-same [] s i [] n h = rw h refl
same_name-same [] s i (d ∷ ds) n (e, (ne, h)) = ground (arith, e, ne)
same_name-same (c ∷ cs) s i [] (nz, n) h = ground (arith, h, nz)
same_name-same (c ∷ cs) s i (d ∷ ds) (nz, n) (e, (ne, h)) =
    ground (arith, e, same_name-same cs s (suc i) ds n h)

-- What a command is answered, besides the prompt.
abbrev reply_from : List (List ℕ × ℕ) → List ℕ → Call
reply_from [] l = write (codes "command not found :<\n")
reply_from ((name, asid) ∷ rest) l = if same name l then execute asid else reply_from rest l

abbrev AllNames : List (List ℕ × ℕ) → Type 0
AllNames [] = Unit {0}
AllNames (p ∷ ps) = (is_name p.0 ≡ true) × AllNames ps

choose : (b : Bool) (x y z : Call) → y ≡ z → elim b [ true ↦ x | false ↦ y ] ≡ (if b then x else z)
choose true x y z e = refl
choose false x y z e = e

look_up-reply :
    (ps : List (List ℕ × ℕ)) (s : ℕ → ℕ) (l : List ℕ)
    → AllNames ps
    → IsText s 0 l
    → look_up ps s ≡ reply_from ps l
unfolding look_up
look_up-reply [] s l n h = refl
look_up-reply ((name, asid) ∷ rest) s l (n, ns) h =
    rw (look_up, same_name-same name s 0 l (is_name-IsName name n) h)
      (choose (same name l) (execute asid) (look_up rest s) (reply_from rest l)
        (look_up-reply rest s l ns h))

is_exit-same_name : (s : ℕ → ℕ) → is_exit s ≡ same_name (codes "exit") s 0
unfolding is_exit same_name
is_exit-same_name s = ground arith

is_exit-same : (s : ℕ → ℕ) (l : List ℕ) → IsText s 0 l → is_exit s ≡ same (codes "exit") l
unfolding is_exit
is_exit-same s l h =
    is_exit-same_name s ∙ same_name-same (codes "exit") s 0 l (is_name-IsName (codes "exit") refl) h

-- The commands that are answered, up to `exit`.
abbrev pub replies : List (List ℕ) → List Call
replies [] = write (codes "> ") ∷ read ∷ []
replies (l ∷ ls) =
    write (codes "> ")
    ∷ read
    ∷ (if same (codes "exit") (trim l)
        then exit ∷ []
        else elim (trim l) [ [] ↦ replies ls | c ∷ cs ↦ reply_from programs (c ∷ cs) ∷ replies ls ])

-- READTERMINAL left the text and the newline, and answered with their number.
pub record Types (l : List ℕ) (t : Line) : Type 0 where
  pub count : t.count ≡ suc (length l)
  pub text : Holds t.buffer 0 (l ++ b'\n' ∷ [])
  pub name : IsName l
  pub short : length l < buffer_size

abbrev AllType : List (List ℕ) → List Line → Type 0
AllType [] [] = Unit {0}
AllType [] (t ∷ ts) = ⊥
AllType (l ∷ ls) [] = ⊥
AllType (l ∷ ls) (t ∷ ts) = Types l t × AllType ls ts

programs-AllNames : AllNames programs
programs-AllNames = (refl, (refl, (refl, (refl, (refl, (refl, (refl, tt)))))))

-- What `command` does on the trimmed text.
abbrev commanded : List ℕ → List Call × Bool
commanded m =
    if same (codes "exit") m
    then (exit ∷ [], false)
    else elim m [ [] ↦ ([], true) | c ∷ cs ↦ (reply_from programs (c ∷ cs) ∷ [], true) ]

command-commanded : (s : ℕ → ℕ) (m : List ℕ) → IsText s 0 m → command s ≡ commanded m
unfolding command
command-commanded s [] h = rw (is_exit-same s [] h, h) refl
command-commanded s (c ∷ cs) (e, (ne, h)) =
    let h1 : IsText s 0 (c ∷ cs) = (e, (ne, h)) in
    let more : (c == 0) ≡ false = ground (arith, ne) in
    rw (is_exit-same s (c ∷ cs) h1, e, more, look_up-reply programs s (c ∷ cs) programs-AllNames h1)
      refl

drop_newline-text :
    (l : List ℕ) (t : Line) → Types l t → drop_newline t ≡ some (update t.buffer (length l) 0)
unfolding drop_newline
drop_newline-text l t h =
    let newline : (t.buffer (length l) == b'\n') ≡ true =
      ap (λ c. c == b'\n') (ap t.buffer (omega arith) ∙ Holds-last t.buffer 0 b'\n' l h.text) in
    let inside : ltb (length l) buffer_size ≡ true = ground (arith, h.short) in
    ap (λ n. drop_newline (record t { count = n })) h.count
    ∙ rw (drop_newline, inside, newline) refl

trimmed :
    (l : List ℕ) (r : Option (ℕ → ℕ))
    → TrimsTo l r
    → (r >>= λ t. some (command t)) ≡ some (commanded l)
trimmed l none h = absurd h
trimmed l (some t) h = ap some (command-commanded t l h)

-- One pass of the loop.
pass-commanded : (l : List ℕ) (t : Line) → Types l t → pass t ≡ some (commanded (trim l))
unfolding pass
pass-commanded l t h =
    let cut : IsText (update t.buffer (length l) 0) 0 l =
      subst (λ n. IsText (update t.buffer n 0) 0 l) (omega arith)
        (Holds-end t.buffer 0 l (Holds-front t.buffer 0 l (b'\n' ∷ []) h.text) h.name) in
    rw (drop_newline-text l t h)
      (trimmed (trim l) _ (trim_spaces-TrimsTo (update t.buffer (length l) 0) l h.short cut))

abbrev prompted : List Call → List Call
prompted calls = write (codes "> ") ∷ read ∷ calls

abbrev answered : Option (List Call) → List Call × Bool → Option (List Call)
answered rest r = elim r.1 [
  | false ↦ some (prompted r.0)
  | true ↦ rest >>= λ more. some (prompted (r.0 ++ more))
]

-- A pass that ends the shell, that finds an empty line, or that answers.
continued :
    (done : Bool) (m : List ℕ) (rest : Option (List Call)) (more : List Call)
    → rest ≡ some more
    → answered rest (
        if done
        then (exit ∷ [], false)
        else elim m [ [] ↦ ([], true) | c ∷ cs ↦ (reply_from programs (c ∷ cs) ∷ [], true) ])
      ≡ some (
          prompted (
            if done
            then exit ∷ []
            else elim m [ [] ↦ more | c ∷ cs ↦ reply_from programs (c ∷ cs) ∷ more ]))
continued true m rest more e = refl
continued false [] rest more e = bind_some _ e
continued false (c ∷ cs) rest more e = bind_some _ e

-- Lines of text are typed, each shorter than the buffer. Then the shell stays within the buffer,
-- and answers each: it starts the program that the line names, between spaces, or says that there is
-- none; after an empty line it asks again, after `exit` it ends.
pub shell-Replies :
    (ls : List (List ℕ)) (ts : List Line) → AllType ls ts → shell ts ≡ some (replies ls)
unfolding shell
shell-Replies [] [] h = refl
shell-Replies [] (t ∷ ts) h = absurd h
shell-Replies (l ∷ ls) [] h = absurd h
shell-Replies (l ∷ ls) (t ∷ ts) (h, hs) =
    rw (shell, pass-commanded l t h)
      (continued (same (codes "exit") (trim l)) (trim l) (shell ts) (replies ls)
        (shell-Replies ls ts hs))
