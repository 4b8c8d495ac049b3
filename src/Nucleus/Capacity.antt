-- ===== src/Nucleus/Capacity.antt =====
-- There is always a semaphore descriptor for the running process: as many as PCBs, and each active
-- one holds a PCB that waits.
use pand_ossh.Common.{
  List, [], ap, arith, copies, if◌then◌else◌, length, length-append, ltb, refl, some, suc, sym,
  zero, ℕ, ◌+◌, ◌<◌, ◌==◌, ◌∷◌, ◌≡◌, ◌≤◌,
}
use pand_ossh.Nucleus.Places.{on_cpu, Inv}
use pand_ossh.Machine.{maxproc, Kernel, Semd}
use pand_ossh.Asl.Waiting.{NonEmpty, blocked}

-- The sum of `f` below n.
abbrev pub total : ℕ → (ℕ → ℕ) → ℕ
total zero f = 0
total (suc n) f = f n + total n f

total-add : (n : ℕ) (f g : ℕ → ℕ) → total n (λ a. f a + g a) ≡ total n f + total n g
total-add zero f g = omega arith
total-add (suc n) f g = omega (arith, total-add n f g)

total_indicator : (n x : ℕ) → total n (λ a. if x == a then 1 else 0) ≡ (if ltb x n then 1 else 0)
total_indicator zero x = ground arith
total_indicator (suc n) x = ground (arith, total_indicator n x)

pub total_spare :
    (n c : ℕ) (f : ℕ → ℕ)
    → ((a : ℕ) → f a + (if c == a then 1 else 0) ≤ 1)
    → total n f + (if ltb c n then 1 else 0) ≤ n
total_spare zero c f h = ground arith
total_spare (suc n) c f h = ground (arith, h n, total_spare n c f h)

total_zero : (n : ℕ) → total n (λ a. 0) ≡ 0
total_zero zero = refl
total_zero (suc n) = omega (arith, total_zero n)

-- A list of numbers below n is as long as the sum of their multiplicities.
pub length-total :
    (n : ℕ) (xs : List ℕ)
    → ((a : ℕ) → n ≤ a → copies a xs ≡ 0)
    → length xs ≡ total n (λ a. copies a xs)
length-total n [] h = sym (total_zero n)
length-total n (x ∷ xs) h = ground (
  arith,
  h x,
  total_indicator n x,
  total-add n (λ a. if x == a then 1 else 0) (λ a. copies a xs),
  length-total n xs (λ a l. omega (arith, h a l)),
)

length-blocked : (ss : List Semd) → NonEmpty ss → length ss ≤ length (blocked ss)
length-blocked [] n = omega arith
length-blocked (s ∷ ss) n =
    ground (arith, length-append s.s_procq (blocked ss), length-blocked ss n.1, n.0)

-- What the invariant says of the running process.
current_places :
    (k : Kernel) (c : ℕ)
    → Inv k
    → k.curr_proc ≡ some c
    → (a : ℕ)
    → (if c == a then 1 else 0)
        + copies a k.ready_queue
        + copies a (blocked k.asl)
        + copies a k.pcb_free
      ≡ (if ltb a maxproc then 1 else 0)
current_places k c v e a = ground (arith, v.once a, ap (on_cpu a) e)

-- The running process is one of `pcbFree_table`, and stands nowhere else.
pub current-lt : (k : Kernel) (c : ℕ) → Inv k → k.curr_proc ≡ some c → c < maxproc
current-lt k c v e = ground (arith, current_places k c v e c)

-- While a process runs, fewer than `maxproc` semaphores are active.
pub active-lt : (k : Kernel) (c : ℕ) → Inv k → k.curr_proc ≡ some c → length k.asl < maxproc
active-lt k c v e = ground (
  arith,
  current-lt k c v e,
  length-blocked k.asl v.lists.non_empty,
  length-total maxproc (blocked k.asl) (λ a l. ground (arith, v.once a)),
  total_spare maxproc c (λ a. copies a (blocked k.asl))
      (λ a. ground (arith, current_places k c v e a)),
)

-- While some PCB is in use, fewer than `maxproc` are free.
pub free-lt :
    (k : Kernel) (p : ℕ)
    → Inv k
    → p < maxproc
    → copies p k.pcb_free ≡ 0
    → length k.pcb_free < maxproc
free-lt k p v l e = ground (
  arith,
  length-total maxproc k.pcb_free (λ a l. ground (arith, v.once a)),
  total_spare maxproc p (λ a. copies a k.pcb_free) (λ a. ground (arith, v.once a)),
)
