-- ===== src/Klog/Bounds.antt =====
-- The indices of the log stay inside the buffer, and the number writers end.
use pand_ossh.Common.{
  ==_iff, Bool-cases, List, Option, [], ap, arith, false, if◌then◌else◌, inl, inr, leb, ltb, none,
  refl, some, suc, sym, update, zero, ℕ, ◌%◌, ◌+◌, ◌/◌, ◌<◌, ◌==◌, ◌∙◌, ◌∷◌, ◌≡◌, ◌≤◌,
}
use pand_ossh.Klog.{
  blank_line, klog_print_dec, klog_print_hex, klog_line_size, next_char, klog_lines, put_char,
  digit, klog_print, print_digits, Klog, next_line,
}

pub record IsLog (k : Klog) : Type 0 where
  pub line : k.line_index < klog_lines
  pub char : k.char_index < klog_line_size

next_line-IsLog : (k : Klog) → IsLog (next_line k)
unfolding next_line
next_line-IsLog k = record { line = omega arith; char = omega arith }

put_char-IsLog : (c : ℕ) (k : Klog) → IsLog k → IsLog (put_char c k)
unfolding put_char next_char next_line
put_char-IsLog c k v = elim (Bool-cases (leb klog_line_size (k.char_index + 1))) [
  | inl full ↦ rw full (record { line = omega arith; char = omega arith })
  | inr room ↦ rw room (record { line = v.line; char = ground arith })
]

-- Nothing outside the 64 lines of 42 characters is written.
pub record Inside (k k' : Klog) : Type 0 where
  pub lines : (i j : ℕ) → klog_lines ≤ i → k'.buffer i j ≡ k.buffer i j
  pub chars : (i j : ℕ) → klog_line_size ≤ j → k'.buffer i j ≡ k.buffer i j

Inside-refl : (k : Klog) → Inside k k
Inside-refl k = record { lines = λ i j w. refl; chars = λ i j w. refl }

Inside-trans : (k k1 k2 : Klog) → Inside k k1 → Inside k1 k2 → Inside k k2
Inside-trans k k1 k2 a b = record {
  lines = λ i j w. b.lines i j w ∙ a.lines i j w;
  chars = λ i j w. b.chars i j w ∙ a.chars i j w;
}

blank_line-far : (n j : ℕ) (l : ℕ → ℕ) → n ≤ j → blank_line n l j ≡ l j
unfolding blank_line
blank_line-far zero j l w = refl
blank_line-far (suc n) j l w = ground (arith, w, blank_line-far n j l (omega (arith, w)))

-- One entry of a buffer replaced, by a row that agrees with it there.
update-row : (f : ℕ → ℕ → ℕ) (a i j : ℕ) (l : ℕ → ℕ) → l j ≡ f a j → update f a l i j ≡ f i j
update-row f a i j l e = elim (Bool-cases (i == a)) [
  | inl here ↦ rw here (e ∙ ap (λ n. f n j) (sym ((==_iff i a).0 here)))
  | inr other ↦ rw other refl
]

update-other : (f : ℕ → ℕ → ℕ) (a i j : ℕ) (l : ℕ → ℕ) → (i == a) ≡ false → update f a l i j ≡ f i j
update-other f a i j l other = rw other refl

update-kept : (f : ℕ → ℕ) (a i c : ℕ) → (i == a) ≡ false → update f a c i ≡ f i
update-kept f a i c other = rw other refl

next_line-Inside : (k : Klog) → Inside k (next_line k)
unfolding next_line
next_line-Inside k =
    let n = (k.line_index + 1) % klog_lines in
    record {
      lines = λ i j w. update-other k.buffer n i j _ (ground (arith, w));
      chars = λ i j w. update-row k.buffer n i j _ (blank_line-far klog_line_size j (k.buffer n) w);
    }

put_char-Inside : (c : ℕ) (k : Klog) → IsLog k → Inside k (put_char c k)
unfolding put_char next_char
put_char-Inside c k v =
    let row = update (k.buffer k.line_index) k.char_index c in
    let k1 : Klog = record k { buffer = update k.buffer k.line_index row } in
    let stored : Inside k k1 = record {
      lines = λ i j w. update-other k.buffer k.line_index i j row (ground (arith, w, v.line));
      chars = λ i j w.
          update-row k.buffer k.line_index i j row
            (update-kept (k.buffer k.line_index) k.char_index j c (ground (arith, w, v.char)));
    } in
    elim (Bool-cases (leb klog_line_size (k.char_index + 1))) [
      | inl full ↦
          let n = next_line-Inside (record k1 { char_index = 0 }) in
          rw full (record {
            lines = λ i j w. n.lines i j w ∙ stored.lines i j w;
            chars = λ i j w. n.chars i j w ∙ stored.chars i j w;
          })
      | inr room ↦ rw room (record { lines = stored.lines; chars = stored.chars })
    ]

-- The next place to write at is inside the log buffer. Then a string, whatever its length and its
-- newlines, is written inside it: nothing outside its 64 lines of 42 characters changes, and the next
-- place to write at is inside again.
pub klog_print-Inside :
    (cs : List ℕ) (k : Klog) → IsLog k → IsLog (klog_print cs k) × Inside k (klog_print cs k)
unfolding klog_print
klog_print-Inside [] k v = (v, Inside-refl k)
klog_print-Inside (c ∷ cs) k v = elim (Bool-cases (c == 10)) [
  | inl newline ↦
      let rest = klog_print-Inside cs (next_line k) (next_line-IsLog k) in
      rw newline (rest.0, Inside-trans k (next_line k) _ (next_line-Inside k) rest.1)
  | inr other ↦
      let rest = klog_print-Inside cs (put_char c k) (put_char-IsLog c k v) in
      rw other (rest.0, Inside-trans k (put_char c k) _ (put_char-Inside c k v) rest.1)
]

-- A writer that ends inside the buffer, with the characters written as `klog_print` writes them.
abbrev pub Written : Klog → List ℕ → Option Klog → Type 0
Written k cs none = ⊥
Written k cs (some k') = (k' ≡ klog_print cs k) × IsLog k'

-- The digits of a number in a base from the last to the first, as far as the fuel goes.
abbrev pub backwards : (base fuel num : ℕ) → List ℕ
backwards base zero num = []
backwards base (suc fuel) num =
    let rest = backwards base fuel (num / base) in
    digit (num % base) ∷ (if ltb 0 (num / base) then rest else [])

-- A digit is written as it is, whatever follows.
klog_print-digit :
    (d : ℕ) (cs : List ℕ) (k : Klog)
    → klog_print (digit d ∷ cs) k ≡ klog_print cs (put_char (digit d) k)
unfolding klog_print
klog_print-digit d cs k = let plain : (digit d == 10) ≡ false = ground arith in rw plain refl

Written-digit :
    (d : ℕ) (cs : List ℕ) (k : Klog) (o : Option Klog)
    → Written (put_char (digit d) k) cs o
    → Written k (digit d ∷ cs) o
Written-digit d cs k none r = r
Written-digit d cs k (some k') r = (r.0 ∙ sym (klog_print-digit d cs k), r.1)

print_digits-Written :
    (base fuel num : ℕ) (k : Klog)
    → ((n : ℕ) → 0 < n / base → n / base < n)
    → num < fuel
    → IsLog k
    → Written k (backwards base fuel num) (print_digits base fuel num k)
unfolding print_digits
print_digits-Written base zero num k less w v = ground arith
print_digits-Written base (suc fuel) num k less w v =
    let k1 = put_char (digit (num % base)) k in
    let v1 = put_char-IsLog (digit (num % base)) k v in
    elim (Bool-cases (ltb 0 (num / base))) [
      | inl more ↦
          let smaller : num / base < num = less num (ground arith) in
          rw more (
            Written-digit (num % base) (backwards base fuel (num / base)) k _
              (print_digits-Written base fuel (num / base) k1 less (omega (arith, smaller)) v1))
      | inr done ↦
          rw done (Written-digit (num % base) [] k (some k1) (unfold klog_print in (refl, v1)))
    ]

-- `klog_print_hex` always ends, inside the buffer, and writes the hexadecimal digits of the number
-- from the last to the first.
pub klog_print_hex-Written :
    (num : ℕ) (k : Klog) → IsLog k → Written k (backwards 16 (suc num) num) (klog_print_hex num k)
unfolding klog_print_hex
klog_print_hex-Written num k v =
    print_digits-Written 16 (suc num) num k (λ n h. omega arith) (omega arith) v

-- `klog_print_dec` always ends, inside the buffer. It writes a number below 10 as a 0 and its digit,
-- and any other as its decimal digits from the last to the first.
pub klog_print_dec-Written :
    (num : ℕ) (k : Klog)
    → IsLog k
    → Written k
        (if leb 10 num then backwards 10 (suc num) num else digit 0 ∷ digit num ∷ [])
        (klog_print_dec num k)
unfolding klog_print_dec
klog_print_dec-Written num k v = elim (Bool-cases (leb 10 num)) [
  | inl more ↦
      rw more (print_digits-Written 10 (suc num) num k (λ n h. omega arith) (omega arith) v)
  | inr small ↦
      let low : num % 10 ≡ num = ground arith in
      let high : num / 10 % 10 ≡ 0 = ground arith in
      let k1 = put_char (digit 0) k in
      rw (small, low, high)
        (Written-digit 0 (digit num ∷ []) k (some (put_char (digit num) k1)) (
          Written-digit num [] k1 (some (put_char (digit num) k1)) (
            unfold klog_print in
            (refl, put_char-IsLog (digit num) k1 (put_char-IsLog (digit 0) k v)))))
]
