-- ===== src/Nucleus/Places.antt =====
-- The places of a PCB: the CPU, the ready queue, the queue of a semaphore, the free list.
use pand_ossh.Common.{
  Bool, List, Option, ap, arith, copies, false, if◌then◌else◌, length, ltb, none, refl, some, true,
  ℕ, ◌+◌, ◌==◌, ◌∙◌, ◌≡◌,
}
use pand_ossh.Asl.Remove.{Popped}
use pand_ossh.Asl.Insert.{IsValid}
use pand_ossh.Asl.Waiting.{blocked}
use pand_ossh.Machine.{Pcb, maxproc, Run, Kernel}

abbrev pub on_cpu : ℕ → Option ℕ → ℕ
on_cpu a none = 0
on_cpu a (some c) = if c == a then 1 else 0

-- How many places the PCB `a` has.
abbrev pub places : ℕ → Kernel → ℕ
places a k =
    on_cpu a k.curr_proc + copies a k.ready_queue + copies a (blocked k.asl) + copies a k.pcb_free

-- The invariant of the nucleus: the semaphore list is well formed, each of the PCBs of
-- `pcbFree_table` has exactly one place and nothing else has any, and `processCount` counts the
-- PCBs that are not free.
pub record Inv (k : Kernel) : Type 0 where
  pub lists : IsValid k
  pub once : (a : ℕ) → places a k ≡ (if ltb a maxproc then 1 else 0)
  pub counted : k.process_count + length k.pcb_free ≡ maxproc

-- The run ends without a fault, in a kernel with the invariant.
abbrev pub Preserves : Run → Type 0
Preserves none = ⊥
Preserves (some (k, o)) = Inv k

abbrev pub PreservesK : Option Kernel → Type 0
PreservesK none = ⊥
PreservesK (some k) = Inv k

-- Well-formedness looks only at the two lists of descriptors.
pub IsValid-same :
    (k k' : Kernel) → k'.asl ≡ k.asl → k'.semd_free ≡ k.semd_free → IsValid k → IsValid k'
IsValid-same k k' e f v = record {
  distinct = rw e v.distinct;
  non_empty = rw e v.non_empty;
  total = rw (e, f) v.total;
}

-- So does the invariant look only at where the PCBs are, and at their number.
pub Inv-same :
    (k k' : Kernel)
    → k'.asl ≡ k.asl
    → k'.semd_free ≡ k.semd_free
    → k'.ready_queue ≡ k.ready_queue
    → k'.pcb_free ≡ k.pcb_free
    → k'.curr_proc ≡ k.curr_proc
    → k'.process_count ≡ k.process_count
    → Inv k
    → Inv k'
Inv-same k k' asl free ready pcbs curr n v = record {
  lists = IsValid-same k k' asl free v.lists;
  once = λ a. rw (asl, ready, pcbs, curr) (v.once a);
  counted = rw (n, pcbs) v.counted;
}

-- The PCB `p` moved into the ready queue from somewhere: so if it was the only change, the
-- invariant holds again.
pub ready-Inv :
    (a p : ℕ) (rest : List ℕ) (k k1 k2 : Kernel)
    → Popped a p rest k k1
    → k2.asl ≡ k1.asl
    → k2.semd_free ≡ k1.semd_free
    → k2.pcb_free ≡ k1.pcb_free
    → k2.curr_proc ≡ k1.curr_proc
    → k2.process_count ≡ k1.process_count
    → ((x : ℕ) → copies x k2.ready_queue ≡ (if p == x then 1 else 0) + copies x k1.ready_queue)
    → Inv k
    → Inv k2
ready-Inv a p rest k k1 k2 pop asl free pcbs curr n q v = record {
  lists = IsValid-same k1 k2 asl free pop.valid;
  once = λ x.
      rw (asl, pcbs, curr, pop.others.pcb_free, pop.others.curr_proc)
        (omega (arith, q x, pop.counted x, v.once x, ap (copies x) pop.others.ready_queue));
  counted = rw (n, pcbs, pop.others.process_count, pop.others.pcb_free) v.counted;
}

-- Two kernels with the same PCBs in the same places.
pub record SamePlaces (k k' : Kernel) : Type 0 where
  pub asl : k'.asl ≡ k.asl
  pub semd_free : k'.semd_free ≡ k.semd_free
  pub ready_queue : k'.ready_queue ≡ k.ready_queue
  pub pcb_free : k'.pcb_free ≡ k.pcb_free
  pub curr_proc : k'.curr_proc ≡ k.curr_proc
  pub process_count : k'.process_count ≡ k.process_count
  pub soft_block_count : k'.soft_block_count ≡ k.soft_block_count

pub SamePlaces-Inv : (k k' : Kernel) → SamePlaces k k' → Inv k → Inv k'
SamePlaces-Inv k k' s v =
    Inv-same k k' s.asl s.semd_free s.ready_queue s.pcb_free s.curr_proc s.process_count v

-- A change of the table of PCBs alone.
pub table-SamePlaces : (k : Kernel) (t : ℕ → Pcb) → SamePlaces k (record k { pcb_table = t })
table-SamePlaces k t = record {
  asl = refl;
  semd_free = refl;
  ready_queue = refl;
  pcb_free = refl;
  curr_proc = refl;
  process_count = refl;
  soft_block_count = refl;
}

pub SamePlaces-trans : (k1 k2 k3 : Kernel) → SamePlaces k1 k2 → SamePlaces k2 k3 → SamePlaces k1 k3
SamePlaces-trans k1 k2 k3 s t = record {
  asl = t.asl ∙ s.asl;
  semd_free = t.semd_free ∙ s.semd_free;
  ready_queue = t.ready_queue ∙ s.ready_queue;
  pcb_free = t.pcb_free ∙ s.pcb_free;
  curr_proc = t.curr_proc ∙ s.curr_proc;
  process_count = t.process_count ∙ s.process_count;
  soft_block_count = t.soft_block_count ∙ s.soft_block_count;
}

-- A test whose branches both keep the invariant does.
pub if-Preserves :
    (b : Bool) (x y : Run) → Preserves x → Preserves y → Preserves (if b then x else y)
if-Preserves true x y hx hy = hx
if-Preserves false x y hx hy = hy

-- The same where the first branch needs the test.
pub split-Preserves :
    (b : Bool) (x y : Run) → (b ≡ true → Preserves x) → Preserves y → Preserves (if b then x else y)
split-Preserves true x y hx hy = hx refl
split-Preserves false x y hx hy = hy
