-- ===== src/Nucleus/Deadlock.antt =====
-- The nucleus from the boot on, while no process ends: when it waits, and when it panics.
use pand_ossh.Common.{
  Bool-cases, Option, Option-cases, ap, arith, bind_some, bit_and, inl, inr, is_some, length, none,
  some, subst, sym, true, ℕ, ◌<◌, ◌==◌, ◌>>=◌, ◌≡◌, ◌≢◌, ◌≤◌,
}
use pand_ossh.Nucleus.Handover.{interrupted-Coherent}
use pand_ossh.Nucleus.Entry.{idle_interrupt-Inv}
use pand_ossh.Asl.{init_asl}
use pand_ossh.Nucleus.Steady.{IsHandled, exception_handler-Keeps}
use pand_ossh.Nucleus.Ticks.{interrupt_handler-Counted}
use pand_ossh.Nucleus.Soft.{Counts, Counted, dispatch-Counts, soft_blocked}
use pand_ossh.Nucleus.Count.{Counted-same}
use pand_ossh.Nucleus.Reach.{
  tlb_refill_handler-Refills, Refills, Continues-from, Between, resumes, Continues,
  Starts-Continues, Between-Inv, Between-Agrees, somebody,
}
use pand_ossh.Nucleus.Boot.{length-add_entries, main-Starts, initialised, launched}
use pand_ossh.Nucleus.Agrees.{Agrees}
use pand_ossh.Nucleus.Places.{Inv}
use pand_ossh.Initial.{main, IsLoaded, alloc_first_pcb, init_vector, first_pcb}
use pand_ossh.Pcb.Alloc.{alloc_pcb-Allocates, Allocates}
use pand_ossh.Pcb.{mk_empty_proc_q, init_pcbs, alloc_pcb}
use pand_ossh.Exceptions.{tlb_refill_handler, exception_handler}
use pand_ossh.Scheduler.{dispatch}
use pand_ossh.Machine.{Platform, Kernel, Outcome, Run, maxproc, modify_pcb, waits}

launched-Counts :
    (P : Platform) (k3 : Kernel) (r : Option ℕ × Kernel)
    → soft_blocked P k3.asl ≤ maxproc
    → Counted P k3
    → 0 < length k3.pcb_free
    → Allocates P k3 r
    → Counts P (
        (r.0 >>= λ p. some (p, modify_pcb p (first_pcb P k3) r.1)) >>= λ r.
        some (dispatch P (launched P r)))
launched-Counts P k3 (none, k1) few n free h = absurd (omega (arith, ap length h.0))
launched-Counts P k3 (some p, k1) few n free (rest, h) =
    let k5 = launched P (p, modify_pcb p (first_pcb P k3) k1) in
    dispatch-Counts P k5 (subst (λ ss. soft_blocked P ss ≤ maxproc) (sym h.asl) few)
      (Counted-same P k3 k5 h.asl h.soft_block_count n)

-- After the boot nobody waits.
main-Counts : (P : Platform) (k : Kernel) → IsLoaded k → Counts P (main P k)
unfolding main alloc_first_pcb init_vector init_asl init_pcbs mk_empty_proc_q
main-Counts P k l =
    launched-Counts P (initialised P k) (alloc_pcb P (initialised P k)) (omega arith)
      l.soft_block_count (omega (arith, length-add_entries maxproc))
      (alloc_pcb-Allocates P (initialised P k))

-- An exception that may come where the kernel has left off by `o`: one of the process that runs, which
-- does not end it, or an interrupt that the idle CPU lets through.
pub data EntersSteadily (P : Platform) (k : Kernel) (o : Outcome) : Type 0 where
  steady :
      resumes o ≡ true → ((c : ℕ) → k.curr_proc ≡ some c → IsHandled P c k) → EntersSteadily P k o
  woken :
      o ≡ waits
      → P.cause_is_int k.exc_state.cause ≡ true
      → bit_and k.exc_state.cause P.cause_exccode_mask ≢ 7
      → EntersSteadily P k o

-- What the handlers leave, from the boot on; `refilled_tlb` is a TLB refill.
pub data SteadyReach (P : Platform) : Kernel → Outcome → Type 0 where
  booted_up :
      {k k' : Kernel} {o : Outcome} → IsLoaded k → main P k ≡ some (k', o) → SteadyReach P k' o
  stepped :
      {k k1 k' : Kernel} {o o' : Outcome}
      → SteadyReach P k o
      → Between k k1
      → EntersSteadily P k1 o
      → exception_handler P k1 ≡ some (k', o')
      → SteadyReach P k' o'
  refilled_tlb :
      {k k1 k' : Kernel} {o o' : Outcome}
      → SteadyReach P k o
      → Between k k1
      → tlb_refill_handler k1 ≡ some (k', o')
      → SteadyReach P k' o'

-- A run without a fault, with the invariant, a process on the CPU exactly if one is resumed, the right
-- `softBlock_count`, and the outcome that fits the processes.
abbrev pub Settles : Platform → Run → Type 0
Settles P r = Continues r × Counts P r

idle-Counts :
    (P : Platform) (k : Kernel)
    → P.devperint ≡ 8
    → Inv k
    → Counted P k
    → P.cause_is_int k.exc_state.cause ≡ true
    → bit_and k.exc_state.cause P.cause_exccode_mask ≢ 7
    → Counts P (exception_handler P k)
unfolding exception_handler
idle-Counts P k eight v n int other =
    rw int (interrupt_handler-Counted P k eight v n (λ h. absurd (other h)))

Enters-Settles :
    (P : Platform) (k : Kernel) (o : Outcome)
    → P.devperint ≡ 8
    → Inv k
    → Agrees k.curr_proc o
    → Counted P k
    → EntersSteadily P k o
    → Settles P (exception_handler P k)
Enters-Settles P k o eight v a n (steady e handled) = elim (Option-cases k.curr_proc) [
  | inl idle ↦ cc (ap is_some idle, somebody k.curr_proc o e a)
  | inr (c, here) ↦
      let h = exception_handler-Keeps P c k v n here eight (handled c here) in
      (Continues-from _ h.inv h.fits, h.counts)
]
Enters-Settles P k o eight v a n (woken e int other) = (
  Continues-from _ (idle_interrupt-Inv P k v int other) (interrupted-Coherent P k int),
  idle-Counts P k eight v n int other,
)

Settled-Enters :
    (P : Platform) (k k1 : Kernel) (o : Outcome)
    → P.devperint ≡ 8
    → Settles P (some (k, o))
    → Between k k1
    → EntersSteadily P k1 o
    → Settles P (exception_handler P k1)
Settled-Enters P k k1 o eight (c, n) b h =
    Enters-Settles P k1 o eight (Between-Inv k k1 b c.0) (Between-Agrees k k1 o b c.1)
      (Counted-same P k k1 b.asl b.soft_block_count n.0) h

-- The refill handler blocks and wakes nobody.
abbrev RefillCounts : Platform → Run → Type 0
RefillCounts P none = Unit {0}
RefillCounts P (some r) = Counts P (some r)

tlb_refill_handler-RefillCounts :
    (P : Platform) (k : Kernel) → Counted P k → RefillCounts P (tlb_refill_handler k)
unfolding tlb_refill_handler
tlb_refill_handler-RefillCounts P k n = elim (Option-cases k.curr_proc) [
  | inl idle ↦ rw idle tt
  | inr (c, here) ↦
      subst (RefillCounts P) (sym (bind_some _ here))
        (elim (Bool-cases ((k.pcb_table c).p_support_struct == 0)) [
          | inl bare ↦ rw bare tt
          | inr supported ↦ rw supported (n, tt)
        ])
]

abbrev RefillSettles : Platform → Run → Type 0
RefillSettles P none = Unit {0}
RefillSettles P (some r) = Settles P (some r)

both-RefillSettles : (P : Platform) (r : Run) → Refills r → RefillCounts P r → RefillSettles P r
both-RefillSettles P none h n = tt
both-RefillSettles P (some r) h n = (h, n)

tlb_refill_handler-RefillSettles :
    (P : Platform) (k k1 : Kernel) (o : Outcome)
    → Settles P (some (k, o))
    → Between k k1
    → RefillSettles P (tlb_refill_handler k1)
tlb_refill_handler-RefillSettles P k k1 o (c, n) b =
    both-RefillSettles P (tlb_refill_handler k1)
      (tlb_refill_handler-Refills k1 (Between-Inv k k1 b c.0))
      (tlb_refill_handler-RefillCounts P k1 (Counted-same P k k1 b.asl b.soft_block_count n.0))

SteadyReach-Settles :
    (P : Platform) {k : Kernel} {o : Outcome}
    → P.devperint ≡ 8
    → SteadyReach P k o
    → Settles P (some (k, o))
SteadyReach-Settles P eight (booted_up l e) =
    subst (Settles P) e (Starts-Continues P _ (main-Starts P _ l), main-Counts P _ l)
SteadyReach-Settles P eight (stepped r b h e) =
    subst (Settles P) e (Settled-Enters P _ _ _ eight (SteadyReach-Settles P eight r) b h)
SteadyReach-Settles P eight (refilled_tlb r b e) =
    subst (RefillSettles P) e
      (tlb_refill_handler-RefillSettles P _ _ _ (SteadyReach-Settles P eight r) b)

-- There are 8 devices to a line. After the boot and any sequence of exceptions, interrupts and TLB
-- refills in which no process ends, and P, V and DoIO in kernel mode are used on semaphores and
-- registers that are meant for them, with anything done to memory and devices between them, the next
-- exception or interrupt ends without a fault and with the invariant, and `softBlock_count` is the
-- number of processes that wait for a device or for the clock. The nucleus then waits for an interrupt
-- only if no process is ready and one waits for a device or for the clock, and panics only if there are
-- processes, none is ready, and none waits for either: a deadlock. A process does not end if it has a
-- support structure and does not call NSYS2, is interrupted, or calls another service in kernel mode.
pub exception_handler-Settles :
    (P : Platform) (k k1 : Kernel) (o : Outcome)
    → P.devperint ≡ 8
    → SteadyReach P k o
    → Between k k1
    → EntersSteadily P k1 o
    → Settles P (exception_handler P k1)
exception_handler-Settles P k k1 o eight r b h =
    Settled-Enters P k k1 o eight (SteadyReach-Settles P eight r) b h
