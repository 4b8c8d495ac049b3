-- ===== src/Testers.antt =====
-- testers/: the programs of the users, as the system calls that they make.
pub mod Calc
pub mod Text
pub mod Squeeze
pub mod Arithmetic
pub mod Trim
pub mod Session
pub mod Programs
pub mod Print
mod Tests
pub mod Shell
use pand_ossh.Common.{
  ==_iff, ==_self, Bool, Bool-cases, List, Option, Option-cases, [], add32, ap, append-nil,
  append_assoc, arith, biased, bind_some, bit_and, bit_or, contains, contains-copies, copies,
  copies-append, copies-remove, false, if◌then◌else◌, inl, inr, is_neg, is_pos, is_some, leb,
  length, length-append, ltb, neg32, none, not, not_contains-copies, refl, remove, remove_absent,
  reverse, reverse-append, sdiv32, slt32, some, srem32, sub32, subst, suc, sym, true, update, zero,
  ℕ, ◌%◌, ◌&&◌, ◌*◌, ◌++◌, ◌+◌, ◌-◌, ◌/◌, ◌<◌, ◌==◌, ◌>>=◌, ◌^◌, ◌||◌, ◌↔◌, ◌∙◌, ◌∷◌, ◌≡◌, ◌≢◌, ◌≤◌,
  ◌⊎◌,
}
use Prim.Native.Char.{code}
use Prim.Native.String.{String}
use Prim.Native.String

-- The characters of a C string, without the final NUL.
abbrev pub codes : String → List ℕ
codes String.[] = []
codes (String.◌∷◌ c s) = code c ∷ codes s

-- WRITETERMINAL with the characters that it passes, READTERMINAL, EXECUTE and TERMINATE.
pub data Call : Type 0 where
  write : List ℕ → Call
  read : Call
  execute : ℕ → Call
  exit : Call

-- The characters of an array from i on.
abbrev pub characters : (ℕ → ℕ) → ℕ → ℕ → List ℕ
characters s i zero = []
characters s i (suc n) = s i ∷ characters s (suc i) n

-- A store into an array of the given size; `none` is one outside.
abbrev pub put : ℕ → ℕ → ℕ → (ℕ → ℕ) → Option (ℕ → ℕ)
put size i c s = if ltb i size then some (update s i c) else none

-- A character is an unsigned byte.
abbrev pub char_of : ℕ → ℕ
char_of c = c % 256
