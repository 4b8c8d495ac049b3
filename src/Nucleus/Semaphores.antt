-- ===== src/Nucleus/Semaphores.antt =====
-- P and V of phase2/src/syscall.c against the queues of the semaphores.
use pand_ossh.Nucleus.Yield.{save-SameState}
use pand_ossh.Nucleus.Dispatch.{dispatch-Kept}
use pand_ossh.Nucleus.Blocking.{save-Inv, insert_blocked-Queued}
use pand_ossh.Scheduler.{dispatch}
use pand_ossh.Common.{
  ==_self, Bool-cases, List, Option, [], add32, ap, arith, bind_some, false, inl, inr, is_pos, none,
  refl, some, sub32, subst, sym, true, update, ℕ, ◌++◌, ◌>>=◌, ◌∙◌, ◌∷◌, ◌≡◌, ◌≢◌, ◌⊎◌,
}
use pand_ossh.Asl.{remove_blocked}
use pand_ossh.Auxfun.{SameState}
use pand_ossh.Pcb.{insert_proc_q}
use pand_ossh.Asl.Waiting.{waiting}
use pand_ossh.Nucleus.Places.{Inv}
use pand_ossh.Asl.Remove.{remove_blocked-Removed, Removed}
use pand_ossh.Machine.{Pcb, load_state, Run, State, store, Kernel, Platform}
use pand_ossh.Syscall.{nsys3, save, block_on, nsys4, wake}

-- What V does: the first in the queue becomes ready, or the value grows.
pub data Signalled (a : ℕ) (k k' : Kernel) : Type 0 where
  woken :
      (p : ℕ) (rest : List ℕ)
      → waiting a k.asl ≡ p ∷ rest
      → waiting a k'.asl ≡ rest
      → ((b : ℕ) → b ≢ a → waiting b k'.asl ≡ waiting b k.asl)
      → k'.ready_queue ≡ insert_proc_q k.pcb_table p k.ready_queue
      → k'.mem ≡ k.mem
      → Signalled a k k'
  raised :
      waiting a k.asl ≡ []
      → k'.asl ≡ k.asl
      → k'.ready_queue ≡ k.ready_queue
      → k'.mem ≡ update k.mem a (add32 (k.mem a) 1)
      → Signalled a k k'

abbrev pub Signals : ℕ → Kernel → Option Kernel → Type 0
Signals a k none = ⊥
Signals a k (some k') = Signalled a k k'

wake-Signals :
    (a : ℕ) (k : Kernel) (r : Option (Option ℕ × Kernel))
    → Removed a k r
    → Signals a k (r >>= λ x. some (wake a x))
unfolding wake
wake-Signals a k none h = h
wake-Signals a k (some (none, k1)) h =
    subst (λ j. Signalled a k (store a (add32 (j.mem a) 1) j)) (sym h.0) (raised h.1 refl refl refl)
wake-Signals a k (some (some p, k1)) (rest, pop) =
    woken p rest pop.first (ground (arith, pop.queues a)) (λ b ne. ground (arith, pop.queues b))
      (rw (pop.table, pop.others.ready_queue) refl) pop.others.mem

-- Verhogen wakes the process that has waited longest on the semaphore, leaving its value, the other
-- processes in that queue in their order and all other queues alone; if nobody waits it adds 1 to
-- the value and moves nobody.
pub nsys4-Signals : (a : ℕ) (k : Kernel) → Inv k → Signals a k (nsys4 a k)
unfolding nsys4
nsys4-Signals a k v = wake-Signals a k (remove_blocked a k) (remove_blocked-Removed a k v.lists)

-- What P does when the semaphore is not positive: the caller waits last, its state and its time are
-- saved, its PCB otherwise unchanged, and the value of the semaphore stays.
pub record Waits (P : Platform) (a c : ℕ) (k k' : Kernel) : Type 0 where
  pub queue : waiting a k'.asl ≡ waiting a k.asl ++ c ∷ []
  pub others : (b : ℕ) → b ≢ a → waiting b k'.asl ≡ waiting b k.asl
  pub state : SameState P (k'.pcb_table c).p_s k.exc_state
  pub time :
      (k'.pcb_table c).p_time
      ≡ add32 (k.pcb_table c).p_time (sub32 (P.clock k.readings) k.tod_start)
  pub sem_add : (k'.pcb_table c).p_sem_add ≡ a
  pub value : k'.mem ≡ k.mem

-- The PCB of the caller once it waits.
blocked_pcb :
    (P : Platform) (a c : ℕ) (k : Kernel)
    → Inv k
    → k.curr_proc ≡ some c
    → (block_on a c (save P c k)).pcb_table c ≡ record ((save P c k).pcb_table c) { p_sem_add = a }
unfolding block_on
blocked_pcb P a c k v e =
    let q = insert_blocked-Queued a c (save P c k) (save-Inv P c k v) (unfold save in e) in
    ap (λ (t : ℕ → Pcb). t c) q.table ∙ rw (==_self c)

save_time :
    (P : Platform) (c : ℕ) (k : Kernel)
    → ((save P c k).pcb_table c).p_time
      ≡ add32 (k.pcb_table c).p_time (sub32 (P.clock k.readings) k.tod_start)
unfolding save
save_time P c k = rw (==_self c)

SameState-eq : (P : Platform) (r s t : State) → r ≡ s → SameState P s t → SameState P r t
SameState-eq P r s t e h = subst (λ x. SameState P x t) (sym e) h

block_on-Waits :
    (P : Platform) (a c : ℕ) (k : Kernel)
    → Inv k
    → k.curr_proc ≡ some c
    → Waits P a c k (block_on a c (save P c k))
unfolding block_on save
block_on-Waits P a c k v e =
    let q = insert_blocked-Queued a c (save P c k) (save-Inv P c k v) e in
    let b = blocked_pcb P a c k v e in
    record {
      queue = ground (arith, q.queues a);
      others = λ b ne. ground (arith, q.queues b);
      state = SameState-eq P _ _ k.exc_state (ap (λ (x : Pcb). x.p_s) b) (save-SameState P c k);
      time = ap (λ (x : Pcb). x.p_time) b ∙ save_time P c k;
      sem_add = ap (λ (x : Pcb). x.p_sem_add) b;
      value = q.others.mem;
    }

-- The scheduler changes nothing of that.
dispatch-Waits :
    (P : Platform) (a c : ℕ) (k k1 : Kernel) → Waits P a c k k1 → Waits P a c k (dispatch P k1).0
dispatch-Waits P a c k k1 w =
    let kept = dispatch-Kept P k1 in
    record {
      queue = rw kept.asl w.queue;
      others = λ b ne. rw kept.asl (w.others b ne);
      state = rw kept.pcb_table w.state;
      time = rw kept.pcb_table w.time;
      sem_add = rw kept.pcb_table w.sem_add;
      value = rw kept.mem w.value;
    }

-- How P ends.
abbrev pub Passes : Platform → ℕ → ℕ → Kernel → Run → Type 0
Passes P a c k none = ⊥
Passes P a c k (some (k', o)) =
    ((is_pos (k.mem a) ≡ true)
      × (k' ≡ store a (sub32 (k.mem a) 1) k)
      × (o ≡ load_state k.exc_state))
    ⊎ ((is_pos (k.mem a) ≡ false) × Waits P a c k k')

-- Passeren on a positive semaphore subtracts 1 and resumes the caller. On any other it puts the
-- caller last in the queue of the semaphore, saves its state and charges it the time since it was
-- dispatched, and leaves the value and all other queues alone.
pub nsys3-Passes :
    (P : Platform) (a c : ℕ) (k : Kernel)
    → Inv k
    → k.curr_proc ≡ some c
    → Passes P a c k (nsys3 P a k)
unfolding nsys3
nsys3-Passes P a c k v e = elim (Bool-cases (is_pos (k.mem a))) [
  | inl up ↦ rw up (inl (up, refl, refl))
  | inr down ↦ rw down (
      subst (Passes P a c k) (sym (bind_some _ e))
        (inr (down, dispatch-Waits P a c k _ (block_on-Waits P a c k v e))))
]
