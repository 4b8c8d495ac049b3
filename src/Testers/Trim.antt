-- ===== src/Testers/Trim.antt =====
-- `trimSpaces` of testers/shell.c.
use pand_ossh.Common.{
  ==_self, Bool, List, Option, [], ap, arith, false, length, length-append, none, refl, reverse,
  reverse-cons, reverse-reverse, some, subst, suc, sym, true, update, zero, ℕ, ◌++◌, ◌+◌, ◌-◌, ◌<◌,
  ◌==◌, ◌>>=◌, ◌∙◌, ◌∷◌, ◌≡◌, ◌≢◌, ◌≤◌,
}
use pand_ossh.Testers.Text.{
  Holds-front, IsText-IsName, Holds-end, Holds-last, IsText-Holds, IsText-update, IsText,
  drop_spaces, trim,
}
use pand_ossh.Testers.Shell.{skip_spaces, shift, find_end, cut_spaces, trim_spaces, buffer_size}

-- The first loop stops at the first character that is no space.
record Skipped (s : ℕ → ℕ) (from size : ℕ) (l : List ℕ) (start : ℕ) : Type 0 where
  text : IsText s start l
  forward : from ≤ start
  sum : start + length l ≡ from + size

abbrev SkipsTo : (ℕ → ℕ) → ℕ → ℕ → List ℕ → Option ℕ → Type 0
SkipsTo s from size l none = ⊥
SkipsTo s from size l (some start) = Skipped s from size l start

abbrev Skips : (ℕ → ℕ) → ℕ → List ℕ → Option ℕ → Type 0
Skips s from l r = SkipsTo s from (length l) (drop_spaces l) r

-- One more space.
SkipsTo-suc :
    (s : ℕ → ℕ) (from size : ℕ) (l : List ℕ) (r : Option ℕ)
    → SkipsTo s (suc from) size l r
    → SkipsTo s from (suc size) l r
SkipsTo-suc s from size l none h = h
SkipsTo-suc s from size l (some start) h = record {
  text = h.text;
  forward = omega (arith, h.forward);
  sum = omega (arith, h.sum);
}

Skips-step :
    (b : Bool) (s : ℕ → ℕ) (from c : ℕ) (cs : List ℕ) (r : Option ℕ)
    → Skips s (suc from) cs r
    → IsText s from (c ∷ cs)
    → SkipsTo s from
        (suc (length cs))
        (elim b [ true ↦ drop_spaces cs | false ↦ c ∷ cs ])
        (elim b [ true ↦ r | false ↦ some from ])
Skips-step true s from c cs r h t = SkipsTo-suc s from (length cs) (drop_spaces cs) r h
Skips-step false s from c cs r h t = record { text = t; forward = omega arith; sum = refl }

skip_spaces-Skips :
    (s : ℕ → ℕ) (left from : ℕ) (l : List ℕ)
    → length l < left
    → IsText s from l
    → Skips s from l (skip_spaces s left from)
unfolding skip_spaces drop_spaces
skip_spaces-Skips s zero from l w h = absurd (omega (arith, w))
skip_spaces-Skips s (suc left) from [] w h =
    rw (h, skip_spaces) (record { text = h; forward = omega arith; sum = refl })
skip_spaces-Skips s (suc left) from (c ∷ cs) w (e, (ne, h)) =
    rw (e, skip_spaces)
      (Skips-step (c == b' ') s from c cs _
        (skip_spaces-Skips s left (suc from) cs (omega (arith, w)) h) (e, (ne, h)))

-- The second loop has moved a text to `place`.
record Moved (s : ℕ → ℕ) (place : ℕ) (l : List ℕ) (t : ℕ → ℕ) : Type 0 where
  text : IsText t place l
  before : (j : ℕ) → j < place → t j ≡ s j

abbrev Moves : (ℕ → ℕ) → ℕ → List ℕ → Option (ℕ → ℕ) → Type 0
Moves s place l none = ⊥
Moves s place l (some t) = Moved s place l t

Moves-cons :
    (s : ℕ → ℕ) (place c d : ℕ) (cs : List ℕ) (r : Option (ℕ → ℕ))
    → d ≡ c
    → c ≢ 0
    → Moves (update s place d) (suc place) cs r
    → Moves s place (c ∷ cs) r
Moves-cons s place c d cs none e ne h = h
Moves-cons s place c d cs (some t) e ne h = record {
  text = (h.before place (omega arith) ∙ rw (==_self place) e, (ne, h.text));
  before = λ j w. h.before j (omega (arith, w)) ∙ ground arith;
}

shift-Moves :
    (s : ℕ → ℕ) (left start place : ℕ) (l : List ℕ)
    → length l < left
    → place ≤ start
    → IsText s start l
    → Moves s place l (shift s left start place)
unfolding shift
shift-Moves s zero start place l w b h = absurd (omega (arith, w))
shift-Moves s (suc left) start place [] w b h =
    rw (h, shift) (record { text = rw (==_self place) refl; before = λ j less. ground arith })
shift-Moves s (suc left) start place (c ∷ cs) w b (e, (ne, h)) =
    let more : (c == 0) ≡ false = ground (arith, ne) in
    rw (e, shift, more)
      (Moves-cons s place c (s start) cs _ e ne (
        shift-Moves (update s place (s start)) left (suc start) (suc place) cs (omega (arith, w))
          (omega (arith, b)) (IsText-update s place (s start) (suc start) cs (omega (arith, b)) h)))

-- The third finds the NUL.
find_end-length :
    (s : ℕ → ℕ) (left from : ℕ) (l : List ℕ)
    → length l < left
    → IsText s from l
    → find_end s left from ≡ some (from + length l)
unfolding find_end
find_end-length s zero from l w h = absurd (omega (arith, w))
find_end-length s (suc left) from [] w h = rw (h, find_end) (ap some (omega arith))
find_end-length s (suc left) from (c ∷ cs) w (e, (ne, h)) =
    let more : (c == 0) ≡ false = ground (arith, ne) in
    rw (e, find_end, more)
      (find_end-length s left (suc from) cs (omega (arith, w)) h ∙ ap some (omega arith))

-- The fourth cuts the spaces off the end of the text whose last characters come first in r.
length-reverse : (l : List ℕ) → length (reverse l) ≡ length l
length-reverse [] = refl
length-reverse (c ∷ cs) =
    ap length (reverse-cons c cs)
    ∙ omega (arith, length-append (reverse cs) (c ∷ []), length-reverse cs)

cut-step :
    (b : Bool) (s t : ℕ → ℕ) (c : ℕ) (cs : List ℕ)
    → IsText t 0 (reverse (drop_spaces cs))
    → IsText s 0 (reverse (c ∷ cs))
    → IsText
        (elim b [ true ↦ t | false ↦ s ])
        0
        (reverse (elim b [ true ↦ drop_spaces cs | false ↦ c ∷ cs ]))
cut-step true s t c cs cut h = cut
cut-step false s t c cs cut h = h

cut_spaces-IsText :
    (s : ℕ → ℕ) (r : List ℕ)
    → IsText s 0 (reverse r)
    → IsText (cut_spaces s (length r)) 0 (reverse (drop_spaces r))
unfolding cut_spaces drop_spaces
cut_spaces-IsText s [] h = h
cut_spaces-IsText s (c ∷ cs) h =
    let t = subst (IsText s 0) (reverse-cons c cs) h in
    let held = IsText-Holds s 0 (reverse cs ++ c ∷ []) t in
    let len : 0 + length (reverse cs) ≡ length cs = omega (arith, length-reverse cs) in
    let last : s (length cs) ≡ c = subst (λ n. s n ≡ c) len (Holds-last s 0 c (reverse cs) held) in
    let shorter : IsText (update s (length cs) 0) 0 (reverse cs) =
      subst (λ n. IsText (update s n 0) 0 (reverse cs)) len
        (Holds-end s 0 (reverse cs) (Holds-front s 0 (reverse cs) (c ∷ []) held)
          (IsText-IsName s 0 (reverse cs) (c ∷ []) t)) in
    rw (cut_spaces, last)
      (cut-step (c == b' ') s _ c cs (cut_spaces-IsText (update s (length cs) 0) cs shorter) h)

abbrev pub TrimsTo : List ℕ → Option (ℕ → ℕ) → Type 0
TrimsTo l none = ⊥
TrimsTo l (some t) = IsText t 0 l

-- The last two loops, on a text at the front.
finish-TrimsTo :
    (t : ℕ → ℕ) (l : List ℕ)
    → length l < buffer_size
    → IsText t 0 l
    → TrimsTo
        (reverse (drop_spaces (reverse l)))
        (find_end t buffer_size 0 >>= λ end. some (cut_spaces t end))
finish-TrimsTo t l w h =
    let e : find_end t buffer_size 0 ≡ some (length (reverse l)) =
      find_end-length t buffer_size 0 l w h ∙ ap some (omega (arith, length-reverse l)) in
    rw e (cut_spaces-IsText t (reverse l) (subst (IsText t 0) (sym (reverse-reverse l)) h))

moved-TrimsTo :
    (s : ℕ → ℕ) (l : List ℕ) (r : Option (ℕ → ℕ))
    → length l < buffer_size
    → Moves s 0 l r
    → TrimsTo
        (reverse (drop_spaces (reverse l)))
        (r >>= λ t. find_end t buffer_size 0 >>= λ end. some (cut_spaces t end))
moved-TrimsTo s l none w h = absurd h
moved-TrimsTo s l (some t) w h = finish-TrimsTo t l w h.text

skipped-TrimsTo :
    (s : ℕ → ℕ) (size : ℕ) (l : List ℕ) (r : Option ℕ)
    → size < buffer_size
    → SkipsTo s 0 size l r
    → TrimsTo (reverse (drop_spaces (reverse l))) (
        r >>= λ start. shift s (buffer_size - start) start 0 >>= λ t.
        find_end t buffer_size 0 >>= λ end. some (cut_spaces t end))
skipped-TrimsTo s size l none w h = absurd h
skipped-TrimsTo s size l (some start) w h =
    moved-TrimsTo s l _ (omega (arith, h.sum, w))
      (shift-Moves s (buffer_size - start) start 0 l (omega (arith, h.sum, w)) (omega arith) h.text)

-- `trimSpaces` on a text that fits the buffer with its NUL stays within the buffer and leaves there
-- the text without the spaces in front and at the end.
pub trim_spaces-TrimsTo :
    (s : ℕ → ℕ) (l : List ℕ)
    → length l < buffer_size
    → IsText s 0 l
    → TrimsTo (trim l) (trim_spaces s)
unfolding trim_spaces trim
trim_spaces-TrimsTo s l w h =
    skipped-TrimsTo s (length l) (drop_spaces l) _ w (skip_spaces-Skips s buffer_size 0 l w h)
