-- ===== src/Nucleus/Ended.antt =====
-- What the end of some processes leaves of the kernel (phase2/src/syscall.c).
use pand_ossh.Common.{
  Bool-cases, List, Option, [], ap, append_assoc, arith, contains, contains-copies, copies, false,
  if◌then◌else◌, inl, inr, length, length-append, none, refl, remove, reverse, reverse-append, some,
  sym, ℕ, ◌++◌, ◌+◌, ◌||◌, ◌∙◌, ◌∷◌, ◌≡◌, ◌≢◌,
}
use pand_ossh.Terminate.{is_current}
use pand_ossh.Nucleus.Withdraw.{running, waits_on, ready, IsPlaced}
use pand_ossh.Nucleus.Places.{SamePlaces, Inv}
use pand_ossh.Asl.Waiting.{waiting}
use pand_ossh.Machine.{Kernel}

abbrev pub remove_all : List ℕ → List ℕ → List ℕ
remove_all [] xs = xs
remove_all (m ∷ ms) xs = remove_all ms (remove m xs)

-- The running process, unless it is one of them.
abbrev pub unless_in : List ℕ → Option ℕ → Option ℕ
unless_in ms none = none
unless_in ms (some c) = if contains c ms then none else some c

-- The processes `ms` ended, in this order: they are free, and every queue is as before without them.
pub record Ended (ms : List ℕ) (k k' : Kernel) : Type 0 where
  pub inv : Inv k'
  pub current : k'.curr_proc ≡ unless_in ms k.curr_proc
  pub ready : k'.ready_queue ≡ remove_all ms k.ready_queue
  pub queues : (b : ℕ) → waiting b k'.asl ≡ remove_all ms (waiting b k.asl)
  pub freed : k'.pcb_free ≡ reverse ms ++ k.pcb_free
  pub counted : k'.process_count + length ms ≡ k.process_count

remove_all-append :
    (ms ns xs : List ℕ) → remove_all (ms ++ ns) xs ≡ remove_all ns (remove_all ms xs)
remove_all-append [] ns xs = refl
remove_all-append (m ∷ ms) ns xs = remove_all-append ms ns (remove m xs)

contains-append :
    (c : ℕ) (ms ns : List ℕ) → contains c (ms ++ ns) ≡ (contains c ms || contains c ns)
contains-append c [] ns = refl
contains-append c (m ∷ ms) ns = ground (arith, contains-append c ms ns)

unless_in-append :
    (ms ns : List ℕ) (o : Option ℕ) → unless_in (ms ++ ns) o ≡ unless_in ns (unless_in ms o)
unless_in-append ms ns none = refl
unless_in-append ms ns (some c) = ground (arith, contains-append c ms ns)

pub Ended-trans :
    (ms ns : List ℕ) (k k1 k2 : Kernel) → Ended ms k k1 → Ended ns k1 k2 → Ended (ms ++ ns) k k2
Ended-trans ms ns k k1 k2 a b = record {
  inv = b.inv;
  current = b.current ∙ ap (unless_in ns) a.current ∙ sym (unless_in-append ms ns k.curr_proc);
  ready = b.ready ∙ ap (remove_all ns) a.ready ∙ sym (remove_all-append ms ns k.ready_queue);
  queues = λ q.
      b.queues q
      ∙ ap (remove_all ns) (a.queues q)
      ∙ sym (remove_all-append ms ns (waiting q k.asl));
  freed = simp (b.freed, a.freed, reverse-append, append_assoc);
  counted = omega (arith, a.counted, b.counted, length-append ms ns);
}

-- Only the queues, the running process, the free list and the count are looked at.
pub Ended-from : (ms : List ℕ) (k k1 k' : Kernel) → SamePlaces k k1 → Ended ms k1 k' → Ended ms k k'
Ended-from ms k k1 k' s a = record {
  inv = a.inv;
  current = a.current ∙ ap (unless_in ms) s.curr_proc;
  ready = a.ready ∙ ap (remove_all ms) s.ready_queue;
  queues = λ b. a.queues b ∙ ap (λ ss. remove_all ms (waiting b ss)) s.asl;
  freed = a.freed ∙ ap (λ (f : List ℕ). reverse ms ++ f) s.pcb_free;
  counted = a.counted ∙ s.process_count;
}

contains-remove : (q m : ℕ) (xs : List ℕ) → q ≢ m → contains q (remove m xs) ≡ contains q xs
contains-remove q m [] ne = refl
contains-remove q m (x ∷ xs) ne = ground (arith, contains-remove q m xs)

contains-remove_all :
    (q : ℕ) (ms xs : List ℕ) → copies q ms ≡ 0 → contains q (remove_all ms xs) ≡ contains q xs
contains-remove_all q [] xs z = refl
contains-remove_all q (m ∷ ms) xs z =
    contains-remove_all q ms (remove m xs) (omega (arith, z))
    ∙ contains-remove q m xs (ground arith)

pub not_among : (q : ℕ) (ms : List ℕ) → copies q ms ≡ 0 → contains q ms ≡ false
not_among q ms z = elim (Bool-cases (contains q ms)) [
  | inl h ↦ absurd (omega (arith, contains-copies q ms h))
  | inr h ↦ h
]

is_current-unless_in :
    (q : ℕ) (ms : List ℕ) (o : Option ℕ)
    → is_current q o ≡ false
    → is_current q (unless_in ms o) ≡ false
is_current-unless_in q ms none h = h
is_current-unless_in q ms (some c) h = ground arith

-- A process that is not one of them stays where it is.
pub Ended-IsPlaced :
    (ms : List ℕ) (k k' : Kernel) (q : ℕ)
    → Ended ms k k'
    → copies q ms ≡ 0
    → (k'.pcb_table q).p_sem_add ≡ (k.pcb_table q).p_sem_add
    → IsPlaced k q
    → IsPlaced k' q
Ended-IsPlaced ms k k' q a z sem (running e) = running (rw (a.current, e, not_among q ms z) refl)
Ended-IsPlaced ms k k' q a z sem (waits_on other ne here) =
    waits_on (rw a.current (is_current-unless_in q ms k.curr_proc other)) (rw sem ne) (
      ap (λ b. contains q (waiting b k'.asl)) sem
      ∙ ap (contains q) (a.queues (k.pcb_table q).p_sem_add)
      ∙ contains-remove_all q ms _ z
      ∙ here)
Ended-IsPlaced ms k k' q a z sem (ready other zero_sem here) =
    ready (rw a.current (is_current-unless_in q ms k.curr_proc other)) (sem ∙ zero_sem)
      (ap (contains q) a.ready ∙ contains-remove_all q ms _ z ∙ here)
