-- ===== src/Nucleus/Timers.antt =====
-- The timer interrupts keep the invariant, and end without a fault.
use pand_ossh.Asl.{remove_blocked}
use pand_ossh.Common.{
  List, Option, [], ap, arith, bind_some, copies, length, none, refl, some, sub32, subst, suc, sym,
  zero, ℕ, ◌%◌, ◌+◌, ◌<◌, ◌>>=◌, ◌^◌, ◌∙◌, ◌≡◌, ◌≢◌,
}
use pand_ossh.Nucleus.Dispatch.{dispatch-Inv, dispatch_ready-Inv}
use pand_ossh.Scheduler.{dispatch}
use pand_ossh.Pcb.Queue.{copies-insert_proc_q}
use pand_ossh.Nucleus.Places.{ready-Inv, on_cpu, IsValid-same, Inv-same, Preserves, Inv}
use pand_ossh.Asl.Remove.{remove_blocked-Removed, Removed, Popped}
use pand_ossh.Asl.Waiting.{waiting}
use pand_ossh.Pcb.{insert_proc_q}
use pand_ossh.Interrupts.{
  unblock_all, requeue_current, it_interrupt_handler, requeue, plt_interrupt_handler,
}
use pand_ossh.Machine.{psecond, nsuppsem, device_sem, store, Platform, Pcb, Kernel}

pub insert_proc_q_ne : (t : ℕ → Pcb) (p : ℕ) (q : List ℕ) → insert_proc_q t p q ≢ []
insert_proc_q_ne t p q e =
    let one : copies p (insert_proc_q t p q) ≡ 0 = ap (copies p) e in
    ground (arith, copies-insert_proc_q t p p q)

-- The running process joins the ready queue, and the scheduler picks the next.
requeue-dispatch-Inv :
    (P : Platform) (c : ℕ) (k : Kernel)
    → Inv k
    → k.curr_proc ≡ some c
    → Inv (dispatch P (requeue P c k)).0
unfolding requeue
requeue-dispatch-Inv P c k v e =
    dispatch_ready-Inv P (requeue P c k) (insert_proc_q_ne _ c k.ready_queue) (record {
      lists = IsValid-same k (record (requeue P c k) { curr_proc = none }) refl refl v.lists;
      once = λ x. ground (
        arith,
        copies-insert_proc_q (requeue P c k).pcb_table x c k.ready_queue,
        v.once x,
        ap (on_cpu x) e,
      );
      counted = v.counted;
    })

-- At the end of its time slice the running process goes back among the ready ones and another is
-- picked, without a fault, and no PCB is lost or doubled.
pub plt_interrupt_handler-Inv :
    (P : Platform) (c : ℕ) (k : Kernel)
    → Inv k
    → k.curr_proc ≡ some c
    → Preserves (plt_interrupt_handler P k)
unfolding plt_interrupt_handler
plt_interrupt_handler-Inv P c k v e =
    subst Preserves (sym (bind_some _ e))
      (requeue-dispatch-Inv P c _ (Inv-same k _ refl refl refl refl refl refl v) e)

-- The kernel after every PCB that waited on `a` became ready.
pub record Unblocked (a : ℕ) (k k' : Kernel) : Type 0 where
  pub empty : waiting a k'.asl ≡ []
  pub queues : (b : ℕ) → b ≢ a → waiting b k'.asl ≡ waiting b k.asl
  pub moved :
      (x : ℕ) → copies x k'.ready_queue ≡ copies x k.ready_queue + copies x (waiting a k.asl)
  pub soft : (k'.soft_block_count + length (waiting a k.asl)) % 2 ^ 32 ≡ k.soft_block_count % 2 ^ 32
  pub word : k.soft_block_count < 2 ^ 32 → k'.soft_block_count < 2 ^ 32
  pub curr_proc : k'.curr_proc ≡ k.curr_proc
  pub inv : Inv k'

abbrev pub Unblocks : ℕ → Kernel → Option Kernel → Type 0
Unblocks a k none = ⊥
Unblocks a k (some k') = Unblocked a k k'

-- One round of the loop.
abbrev readied : ℕ → Kernel → Kernel
readied p k = record k {
  ready_queue = insert_proc_q k.pcb_table p k.ready_queue;
  soft_block_count = sub32 k.soft_block_count 1;
}

after_round :
    (a p : ℕ) (rest : List ℕ) (k k1 k' : Kernel)
    → Popped a p rest k k1
    → Unblocked a (readied p k1) k'
    → Unblocked a k k'
after_round a p rest k k1 k' pop u = record {
  empty = u.empty;
  queues = λ b ne. u.queues b ne ∙ ground (arith, pop.queues b, ne);
  moved = λ x. ground (
    arith,
    u.moved x,
    pop.queues a,
    ap (copies x) pop.first,
    ap (copies x) pop.others.ready_queue,
    copies-insert_proc_q k1.pcb_table x p k1.ready_queue,
  );
  soft = ground (arith, u.soft, pop.queues a, ap length pop.first, pop.others.soft_block_count);
  word = λ w. u.word (omega arith);
  curr_proc = u.curr_proc ∙ pop.others.curr_proc;
  inv = u.inv;
}

after_rounds :
    (a p : ℕ) (rest : List ℕ) (k k1 : Kernel) (o : Option Kernel)
    → Popped a p rest k k1
    → Unblocks a (readied p k1) o
    → Unblocks a k o
after_rounds a p rest k k1 none pop u = u
after_rounds a p rest k k1 (some k') pop u = after_round a p rest k k1 k' pop u

nobody_left : (a : ℕ) (k : Kernel) → Inv k → waiting a k.asl ≡ [] → Unblocked a k k
nobody_left a k v e = record {
  empty = e;
  queues = λ b ne. refl;
  moved = λ x. omega (arith, ap (copies x) e);
  soft = omega (arith, ap length e);
  word = λ w. w;
  curr_proc = refl;
  inv = v;
}

-- One round, with the rest of the loop as the induction hypothesis.
round-Unblocks :
    (f a : ℕ) (k : Kernel) (r : Option (Option ℕ × Kernel))
    → Removed a k r
    → Inv k
    → length (waiting a k.asl) < suc f
    → ((k2 : Kernel) → Inv k2 → length (waiting a k2.asl) < f → Unblocks a k2 (unblock_all f a k2))
    → Unblocks a k
        (r >>= λ r. elim r.0 [ none ↦ some r.1 | some p ↦ unblock_all f a (readied p r.1) ])
round-Unblocks f a k none h v l ih = h
round-Unblocks f a k (some (none, k1)) h v l ih =
    subst (λ j. Unblocked a k j) (sym h.0) (nobody_left a k v h.1)
round-Unblocks f a k (some (some p, k1)) (rest, pop) v l ih =
    let k2 = readied p k1 in
    let v2 : Inv k2 =
      ready-Inv a p rest k k1 k2 pop refl refl refl refl refl
        (λ x. copies-insert_proc_q k1.pcb_table x p k1.ready_queue) v in
    after_rounds a p rest k k1 (unblock_all f a k2) pop
      (ih k2 v2 (ground (arith, pop.queues a, ap length pop.first)))

-- With more fuel than PCBs that wait, the loop of `itInterruptHandler` ends without a fault: nobody
-- waits on the semaphore any more, everybody who did is ready besides those that were ready before,
-- the other queues are as they were, and `softBlock_count` has fallen by the number of those woken.
pub unblock_all-Unblocks :
    (f a : ℕ) (k : Kernel) → Inv k → length (waiting a k.asl) < f → Unblocks a k (unblock_all f a k)
unfolding unblock_all
unblock_all-Unblocks zero a k v l = absurd (omega arith)
unblock_all-Unblocks (suc f) a k v l =
    round-Unblocks f a k (remove_blocked a k) (remove_blocked-Removed a k v.lists) v l
      (λ k2. unblock_all-Unblocks f a k2)

requeue_current-Inv :
    (P : Platform) (o : Option ℕ) (k : Kernel)
    → Inv k
    → k.curr_proc ≡ o
    → Inv (dispatch P (requeue_current P o k)).0
unfolding requeue_current
requeue_current-Inv P none k v e = dispatch-Inv P k v e
requeue_current-Inv P (some c) k v e = requeue-dispatch-Inv P c k v e

tick-Preserves :
    (P : Platform) (a : ℕ) (k : Kernel) (o : Option Kernel)
    → Unblocks a k o
    → Preserves
        (o >>= λ k2. let k3 = store a 0 k2 in some (dispatch P (requeue_current P k3.curr_proc k3)))
tick-Preserves P a k none u = u
tick-Preserves P a k (some k2) u =
    requeue_current-Inv P k2.curr_proc (store a 0 k2)
      (Inv-same k2 (store a 0 k2) refl refl refl refl refl refl u.inv) refl

-- The pseudo-clock tick ends without a fault, whether or not a process runs, and no PCB is lost or
-- doubled.
pub it_interrupt_handler-Inv :
    (P : Platform) (k : Kernel) → Inv k → Preserves (it_interrupt_handler P k)
unfolding it_interrupt_handler
it_interrupt_handler-Inv P k v =
    let sem = device_sem P nsuppsem in
    let k1 = record k { interval = psecond } in
    tick-Preserves P sem k1 _ (
      unblock_all-Unblocks (suc (length (waiting sem k.asl))) sem k1
        (Inv-same k k1 refl refl refl refl refl refl v) (omega arith))
