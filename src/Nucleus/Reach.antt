-- ===== src/Nucleus/Reach.antt =====
-- The nucleus as a state machine: the boot, then exceptions of the processes and interrupts of the
-- idle CPU, in any order, with anything done between them to the memory and the devices.
use pand_ossh.Nucleus.Handover.{interrupted-Coherent, exception-Coherent}
use pand_ossh.Nucleus.Agrees.{Agrees, Coherent}
use pand_ossh.Common.{
  Bool, Option, Option-cases, ap, bit_and, false, inl, inr, is_some, neg32, none, refl, some, subst,
  sym, true, ℕ, ◌==◌, ◌>>=◌, ◌≡◌, ◌≢◌,
}
use pand_ossh.Nucleus.Entry.{IsServed, idle_interrupt-Inv, exception_handler-Inv}
use pand_ossh.Initial.{main, IsLoaded}
use pand_ossh.Nucleus.Boot.{Starts, main-Starts}
use pand_ossh.Nucleus.Doomed.{Doomed}
use pand_ossh.Nucleus.Places.{Inv-same, Preserves, Inv}
use pand_ossh.Exceptions.{exception_handler, tlb_refill_handler}
use pand_ossh.Machine.{
  Kernel, Outcome, Platform, Run, halted, load_context, load_state, panicked, returned, waits,
}

-- Between two entries into the kernel its own variables stay.
pub record Between (k k' : Kernel) : Type 0 where
  pub pcb_table : k'.pcb_table ≡ k.pcb_table
  pub pcb_free : k'.pcb_free ≡ k.pcb_free
  pub next_pid : k'.next_pid ≡ k.next_pid
  pub asl : k'.asl ≡ k.asl
  pub semd_free : k'.semd_free ≡ k.semd_free
  pub ready_queue : k'.ready_queue ≡ k.ready_queue
  pub process_count : k'.process_count ≡ k.process_count
  pub soft_block_count : k'.soft_block_count ≡ k.soft_block_count
  pub curr_proc : k'.curr_proc ≡ k.curr_proc

-- The processor is with a process.
abbrev pub resumes : Outcome → Bool
resumes (load_state s) = true
resumes (load_context c) = true
resumes _ = false

-- What the process c may do next: if it has no support structure, or ends itself, it stands in the
-- kernel with its descendants; and it does not end another process.
pub record MayCall (P : Platform) (c : ℕ) (k : Kernel) : Type 0 where
  pub dies : ((k.pcb_table c).p_support_struct == 0) ≡ true → Doomed c k
  pub ends :
      (k.exc_state.gpr P.reg_a0 == neg32 2) ≡ true → (k.exc_state.gpr P.reg_a1 ≡ 0) × Doomed c k

-- An exception that may come where the kernel has left off by `o`: one of the process that runs, or
-- an interrupt that the idle CPU lets through, not the processor timer's.
pub data Enters (P : Platform) (k : Kernel) (o : Outcome) : Type 0 where
  called : resumes o ≡ true → ((c : ℕ) → k.curr_proc ≡ some c → MayCall P c k) → Enters P k o
  interrupted :
      o ≡ waits
      → P.cause_is_int k.exc_state.cause ≡ true
      → bit_and k.exc_state.cause P.cause_exccode_mask ≢ 7
      → Enters P k o

-- What the handlers leave, from the boot on; `refilled` is a TLB refill.
pub data Reach (P : Platform) : Kernel → Outcome → Type 0 where
  booted : {k k' : Kernel} {o : Outcome} → IsLoaded k → main P k ≡ some (k', o) → Reach P k' o
  served :
      {k k1 k' : Kernel} {o o' : Outcome}
      → Reach P k o
      → Between k k1
      → Enters P k1 o
      → exception_handler P k1 ≡ some (k', o')
      → Reach P k' o'
  refilled :
      {k k1 k' : Kernel} {o o' : Outcome}
      → Reach P k o
      → Between k k1
      → tlb_refill_handler k1 ≡ some (k', o')
      → Reach P k' o'

-- The run ends without a fault, with the invariant, and with a process on the CPU if it loads a state,
-- with nobody if it waits.
abbrev pub Continues : Run → Type 0
Continues none = ⊥
Continues (some (k, o)) = Inv k × Agrees k.curr_proc o

pub Between-Inv : (k k' : Kernel) → Between k k' → Inv k → Inv k'
Between-Inv k k' b =
    Inv-same k k' b.asl b.semd_free b.ready_queue b.pcb_free b.curr_proc b.process_count

pub Continues-from : (r : Run) → Preserves r → Coherent r → Continues r
Continues-from none h c = h
Continues-from (some (k, o)) h c = (h, c)

-- Where a process is resumed, one runs.
pub somebody : (m : Option ℕ) (o : Outcome) → resumes o ≡ true → Agrees m o → is_some m ≡ true
somebody m (load_state s) e a = a
somebody m (load_context c) e a = a
somebody m halted e a = cc
somebody m panicked e a = cc
somebody m waits e a = cc
somebody m returned e a = cc

pub Enters-Continues :
    (P : Platform) (k : Kernel) (o : Outcome)
    → Inv k
    → Agrees k.curr_proc o
    → Enters P k o
    → Continues (exception_handler P k)
Enters-Continues P k o v a (called e calls) = elim (Option-cases k.curr_proc) [
  | inl idle ↦ cc (ap is_some idle, somebody k.curr_proc o e a)
  | inr (c, here) ↦
      let s : IsServed P c k = record {
        inv = v;
        current = here;
        dies = (calls c here).dies;
        ends = (calls c here).ends;
      } in
      Continues-from (exception_handler P k) (exception_handler-Inv P c k s)
        (exception-Coherent P c k s)
]
Enters-Continues P k o v a (interrupted e int other) =
    Continues-from (exception_handler P k) (idle_interrupt-Inv P k v int other)
      (interrupted-Coherent P k int)

pub Starts-Continues : (P : Platform) (r : Run) → Starts P r → Continues r
Starts-Continues P none h = h
Starts-Continues P (some (k, o)) h =
    (h.inv, subst (Agrees k.curr_proc) (sym h.loaded) (ap is_some h.current))

-- The refill handler resumes the process that runs, if there is one with a page table.
abbrev pub Refills : Run → Type 0
Refills none = Unit {0}
Refills (some (k, o)) = Inv k × Agrees k.curr_proc o

Refills-bind :
    (o : Option ℕ) (f : ℕ → Run) → ((c : ℕ) → o ≡ some c → Refills (f c)) → Refills (o >>= f)
Refills-bind none f h = tt
Refills-bind (some c) f h = h c refl

Refills-elim :
    (b : Bool) (k : Kernel) (o : Outcome)
    → Inv k
    → Agrees k.curr_proc o
    → Refills (elim b [ true ↦ none | false ↦ some (k, o) ])
Refills-elim true k o v a = tt
Refills-elim false k o v a = (v, a)

pub tlb_refill_handler-Refills : (k : Kernel) → Inv k → Refills (tlb_refill_handler k)
unfolding tlb_refill_handler
tlb_refill_handler-Refills k v = Refills-bind k.curr_proc _ (λ c e.
    Refills-elim ((k.pcb_table c).p_support_struct == 0) _ _
      (Inv-same k _ refl refl refl refl refl refl v) (ap is_some e))

pub Between-Agrees :
    (k k' : Kernel) (o : Outcome) → Between k k' → Agrees k.curr_proc o → Agrees k'.curr_proc o
Between-Agrees k k' o b a = subst (λ m. Agrees m o) (sym b.curr_proc) a

Reach-Continues : (P : Platform) {k : Kernel} {o : Outcome} → Reach P k o → Continues (some (k, o))
Reach-Continues P (booted l e) = subst Continues e (Starts-Continues P _ (main-Starts P _ l))
Reach-Continues P (served r b n e) =
    let h = Reach-Continues P r in
    subst Continues e
      (Enters-Continues P _ _ (Between-Inv _ _ b h.0) (Between-Agrees _ _ _ b h.1) n)
Reach-Continues P (refilled r b e) =
    subst Refills e (tlb_refill_handler-Refills _ (Between-Inv _ _ b (Reach-Continues P r).0))

-- After the boot and any sequence of exceptions, interrupts and TLB refills, with anything done to
-- memory and devices between them, the next exception ends without a fault, in a kernel where every
-- PCB has exactly one place, the semaphore list is well formed, `processCount` is right, and a process
-- is on the CPU if the handler resumes one, nobody if it waits. A process without a support structure,
-- or one that calls NSYS2 on itself, stands in the kernel with its descendants, each where its PCB
-- says, and no process ends another.
pub exception_handler-Continues :
    (P : Platform) (k k1 : Kernel) (o : Outcome)
    → Reach P k o
    → Between k k1
    → Enters P k1 o
    → Continues (exception_handler P k1)
exception_handler-Continues P k k1 o r b n =
    let h = Reach-Continues P r in
    Enters-Continues P k1 o (Between-Inv k k1 b h.0) (Between-Agrees k k1 o b h.1) n
