-- ===== src/Testers/Shell.antt =====
-- testers/shell.c: the shell.
use pand_ossh.Common.{
  Bool, List, Option, [], false, if◌then◌else◌, ltb, none, some, suc, true, update, zero, ℕ, ◌&&◌,
  ◌++◌, ◌-◌, ◌==◌, ◌>>=◌, ◌∷◌,
}
use pand_ossh.Testers.{Call, codes, write, read, execute, exit}

-- The size of the buffer, MAXSTRLENG.
abbrev pub buffer_size : ℕ
buffer_size = 128

-- The loops of `trimSpaces`, each with the characters that the buffer has left; `none` is an access
-- behind it. The first finds the first character that is no space.
unfoldable pub skip_spaces : (ℕ → ℕ) → (left start : ℕ) → Option ℕ
skip_spaces s zero start = none
skip_spaces s (suc left) start = elim (s start == b' ') [
  | true ↦ skip_spaces s left (suc start)
  | false ↦ some start
]

-- The second moves the text to the front.
unfoldable pub shift : (ℕ → ℕ) → (left start place : ℕ) → Option (ℕ → ℕ)
shift s zero start place = none
shift s (suc left) start place = elim (s start == 0) [
  | true ↦ some (update s place 0)
  | false ↦ shift (update s place (s start)) left (suc start) (suc place)
]

-- The third finds its end.
unfoldable pub find_end : (ℕ → ℕ) → (left end : ℕ) → Option ℕ
find_end s zero end = none
find_end s (suc left) end = elim (s end == 0) [
  | true ↦ some end
  | false ↦ find_end s left (suc end)
]

-- The fourth takes the spaces before it away.
unfoldable pub cut_spaces : (ℕ → ℕ) → ℕ → ℕ → ℕ
cut_spaces s zero = s
cut_spaces s (suc end) = elim (s end == b' ') [ true ↦ cut_spaces (update s end 0) end | false ↦ s ]

-- `trimSpaces`
unfoldable pub trim_spaces : (ℕ → ℕ) → Option (ℕ → ℕ)
trim_spaces s = do
  start ← skip_spaces s buffer_size 0
  t ← shift s (buffer_size - start) start 0
  end ← find_end t buffer_size 0
  some (cut_spaces t end)

-- The test of `chkExitAndTerminate`
unfoldable pub is_exit : (ℕ → ℕ) → Bool
is_exit s = s 0 == b'e' && (s 1 == b'x' && (s 2 == b'i' && (s 3 == b't' && s 4 == 0)))

-- `arr`
abbrev pub programs : List (List ℕ × ℕ)
programs =
    (codes "fibEight", 2)
    ∷ (codes "echo", 3)
    ∷ (codes "fibEleven", 4)
    ∷ (codes "uname", 5)
    ∷ (codes "date", 6)
    ∷ (codes "sl", 7)
    ∷ (codes "calc", 8)
    ∷ []

-- The comparison of a name with the buffer, up to the NUL of the name.
unfoldable pub same_name : List ℕ → (ℕ → ℕ) → ℕ → Bool
same_name [] s index = 0 == s index
same_name (c ∷ cs) s index = elim (c == s index) [
  | true ↦ same_name cs s (suc index)
  | false ↦ false
]

-- The search in `arr`.
unfoldable pub look_up : List (List ℕ × ℕ) → (ℕ → ℕ) → Call
look_up [] s = write (codes "command not found :<\n")
look_up ((name, asid) ∷ rest) s = elim (same_name name s 0) [
  | true ↦ execute asid
  | false ↦ look_up rest s
]

-- What follows `trimSpaces` in a pass of the loop, with whether another pass comes.
unfoldable pub command : (ℕ → ℕ) → List Call × Bool
command s =
    if is_exit s
    then (exit ∷ [], false)
    else if s 0 == 0
    then ([], true)
    else (look_up programs s ∷ [], true)

-- READTERMINAL left these characters in the buffer and answered `count`.
pub record Line : Type 0 where
  pub buffer : ℕ → ℕ
  pub count : ℕ

-- `buffer[n - 1]` is looked at and changed.
unfoldable pub drop_newline : Line → Option (ℕ → ℕ)
drop_newline l = elim l.count [
  | zero ↦ none
  | suc m ↦
      if ltb m buffer_size
      then if l.buffer m == b'\n' then some (update l.buffer m 0) else some l.buffer
      else none
]

-- A pass of the loop of `main`.
unfoldable pub pass : Line → Option (List Call × Bool)
pass l = drop_newline l >>= λ s. trim_spaces s >>= λ t. some (command t)

-- `main`, for the lines that are typed until somebody waits for the next.
unfoldable pub shell : List Line → Option (List Call)
shell [] = some (write (codes "> ") ∷ read ∷ [])
shell (l ∷ ls) = pass l >>= λ r. elim r.1 [
  | false ↦ some (write (codes "> ") ∷ read ∷ r.0)
  | true ↦ shell ls >>= λ more. some (write (codes "> ") ∷ read ∷ r.0 ++ more)
]
