-- ===== src/Klog.antt =====
-- klog.c: the circular log buffer, with the writers of strings and numbers.
pub mod Bounds
mod Tests
use pand_ossh.Common.{
  ==_iff, ==_self, Bool, Bool-cases, List, Option, Option-cases, [], add32, ap, append-nil,
  append_assoc, arith, biased, bind_some, bit_and, bit_or, contains, contains-copies, copies,
  copies-append, copies-remove, false, if◌then◌else◌, inl, inr, is_neg, is_pos, is_some, leb,
  length, length-append, ltb, neg32, none, not, not_contains-copies, refl, remove, remove_absent,
  sdiv32, slt32, some, srem32, sub32, subst, suc, sym, true, update, zero, ℕ, ◌%◌, ◌&&◌, ◌*◌, ◌++◌,
  ◌+◌, ◌-◌, ◌/◌, ◌<◌, ◌==◌, ◌>>=◌, ◌^◌, ◌||◌, ◌↔◌, ◌∙◌, ◌∷◌, ◌≡◌, ◌≢◌, ◌≤◌, ◌⊎◌,
}

abbrev pub klog_lines : ℕ
klog_lines = 64

abbrev pub klog_line_size : ℕ
klog_line_size = 42

pub record Klog : Type 0 where
  pub line_index : ℕ
  pub char_index : ℕ
  pub buffer : ℕ → ℕ → ℕ

-- The loop of `next_line` up to the n-th character.
unfoldable pub blank_line : ℕ → (ℕ → ℕ) → ℕ → ℕ
blank_line zero l = l
blank_line (suc n) l = update (blank_line n l) n 32

-- `next_line`
unfoldable pub next_line : Klog → Klog
next_line k =
    let i = (k.line_index + 1) % klog_lines in
    record {
      line_index = i;
      char_index = 0;
      buffer = update k.buffer i (blank_line klog_line_size (k.buffer i));
    }

-- `next_char`
unfoldable pub next_char : Klog → Klog
next_char k =
    if leb klog_line_size (k.char_index + 1)
    then next_line (record k { char_index = 0 })
    else record k { char_index = k.char_index + 1 }

-- A character into the buffer, and `next_char`.
unfoldable pub put_char : ℕ → Klog → Klog
put_char c k = next_char (record k {
  buffer = update k.buffer k.line_index (update (k.buffer k.line_index) k.char_index c);
})

-- `klog_print` on the characters before the final 0.
unfoldable pub klog_print : List ℕ → Klog → Klog
klog_print [] k = k
klog_print (c ∷ cs) k = klog_print cs (if c == 10 then next_line k else put_char c k)

-- `digits[d]`
abbrev pub digit : ℕ → ℕ
digit d = if ltb d 10 then 48 + d else 55 + d

-- The loop over the digits of a number, on fuel.
unfoldable pub print_digits : (base fuel num : ℕ) → Klog → Option Klog
print_digits base zero num k = none
print_digits base (suc fuel) num k =
    let k1 = put_char (digit (num % base)) k in
    let rest = print_digits base fuel (num / base) k1 in
    if ltb 0 (num / base) then rest else some k1

-- `klog_print_dec`
unfoldable pub klog_print_dec : ℕ → Klog → Option Klog
klog_print_dec num k =
    if leb 10 num
    then print_digits 10 (suc num) num k
    else some (put_char (digit (num % 10)) (put_char (digit (num / 10 % 10)) k))

-- `klog_print_hex`
unfoldable pub klog_print_hex : ℕ → Klog → Option Klog
klog_print_hex num k = print_digits 16 (suc num) num k
