-- ===== src/Nucleus/Terminate.antt =====
-- `terminateProcess` of phase2/src/syscall.c for one PCB: when it keeps the invariant, and when not.
use pand_ossh.Nucleus.Withdraw.{
  withdraw-Withdrawn, freed-Inv, IsPlaced-used, out_child-SamePlaces, copies-waiting-le, IsPlaced,
}
use pand_ossh.Common.{
  Bool-cases, List, [], ap, arith, contains, contains-copies, copies, false, inl, inr, some, ℕ, ◌<◌,
  ◌==◌, ◌≡◌, ◌≢◌,
}
use pand_ossh.Nucleus.Dispatch.{dispatch_ready-places}
use pand_ossh.Scheduler.{dispatch}
use pand_ossh.Asl.Remove.{Popped}
use pand_ossh.Syscall.{wake}
use pand_ossh.Pcb.Queue.{copies-insert_proc_q}
use pand_ossh.Asl.{out_blocked}
use pand_ossh.Asl.Insert.{IsValid}
use pand_ossh.Asl.Waiting.{blocked, waiting}
use pand_ossh.Asl.Out.{out_blocked-Outcomes}
use pand_ossh.Nucleus.Places.{on_cpu, places, Inv}
use pand_ossh.Machine.{Outcome, Semd, Platform, Kernel}
use pand_ossh.Pcb.{free_pcb}
use pand_ossh.Terminate.{
  terminate, search_fuel, find_pcb_by_pid, nsys2, end_process, is_device_semaphore, is_current,
  withdraw,
}

-- If `p_semAdd` of the PCB says where it stands (NULL for a ready one), the end of
-- `terminateProcess` takes it out of that place, frees it and keeps the invariant.
pub end_process-Inv :
    (P : Platform) (p : ℕ) (k : Kernel) → Inv k → IsPlaced k p → Inv (end_process P p k)
unfolding end_process
end_process-Inv P p k v h =
    let used = IsPlaced-used k p v h in
    freed-Inv p k (withdraw P p k) _ v used.0 used.1 (withdraw-Withdrawn P p k v h)
      (out_child-SamePlaces p (withdraw P p k))

absent-waiting :
    (p a : ℕ) (ss : List Semd) → copies p (blocked ss) ≡ 0 → contains p (waiting a ss) ≡ false
absent-waiting p a ss e = elim (Bool-cases (contains p (waiting a ss))) [
  | inl h ↦ absurd (omega (arith, contains-copies p (waiting a ss) h, copies-waiting-le p a ss))
  | inr h ↦ h
]

out_blocked_absent :
    (p : ℕ) (k : Kernel) → IsValid k → copies p (blocked k.asl) ≡ 0 → (out_blocked p k).1 ≡ k
out_blocked_absent p k v e = elim (out_blocked-Outcomes p k v) [
  | inl (_, _, same) ↦ same
  | inr (here, _, _) ↦ cc (here, absent-waiting p (k.pcb_table p).p_sem_add k.asl e)
]

-- A ready PCB whose `p_semAdd` still names the semaphore that it once waited on.
pub record IsStale (k : Kernel) (p : ℕ) : Type 0 where
  pub other : is_current p k.curr_proc ≡ false
  pub sem : (k.pcb_table p).p_sem_add ≢ 0
  pub ready : 0 < copies p k.ready_queue

stale_withdraw :
    (P : Platform) (p x : ℕ) (k : Kernel)
    → Inv k
    → IsStale k p
    → places x (withdraw P p k) ≡ places x k
unfolding withdraw
stale_withdraw P p x k v s =
    let miss : ((k.pcb_table p).p_sem_add == 0) ≡ false = ground (arith, s.sem) in
    let gone : copies p (blocked k.asl) ≡ 0 = ground (arith, v.once p, s.ready) in
    rw (s.other, miss, out_blocked_absent p k v.lists gone)
      (elim (Bool-cases (is_device_semaphore P (k.pcb_table p).p_sem_add)) [
        | inl dev ↦ rw dev
        | inr user ↦ rw user
      ])

-- A process that waited on a semaphore and was woken keeps its `p_semAdd`. If it is terminated while
-- it is ready, `terminateProcess` looks for it on that semaphore, leaves it in the ready queue and
-- frees it: the PCB then stands in two places at once.
pub end_process_stale :
    (P : Platform) (p : ℕ) (k : Kernel) → Inv k → IsStale k p → places p (end_process P p k) ≡ 2
unfolding end_process free_pcb
end_process_stale P p k v s =
    let same = out_child-SamePlaces p (withdraw P p k) in
    ground (
      arith,
      stale_withdraw P p p k v s,
      v.once p,
      s.ready,
      ap (on_cpu p) same.curr_proc,
      ap (copies p) same.ready_queue,
      ap (λ ss. copies p (blocked ss)) same.asl,
      ap (copies p) same.pcb_free,
    )

-- `removeBlocked` and the V of NSYS4 make such PCBs: whoever is woken, not being the one that runs,
-- is ready and still names the semaphore.
pub wake-IsStale :
    (a p : ℕ) (rest : List ℕ) (k k1 : Kernel)
    → Popped a p rest k k1
    → (k.pcb_table p).p_sem_add ≢ 0
    → is_current p k.curr_proc ≡ false
    → IsStale (wake a (some p, k1)) p
unfolding wake
wake-IsStale a p rest k k1 pop sem other = record {
  other = rw pop.others.curr_proc other;
  sem = rw pop.table sem;
  ready = ground (arith, copies-insert_proc_q k1.pcb_table p p k1.ready_queue);
}

-- NSYS2 on another process than the caller does not put the caller back into the ready queue before
-- it calls the scheduler: with a process ready, the caller ends up in no place at all.
pub nsys2_loses_caller :
    (P : Platform) (k k1 : Kernel) (a1 p c : ℕ)
    → (a1 == 0) ≡ false
    → find_pcb_by_pid search_fuel a1 k ≡ some (some p)
    → terminate P (some p) k ≡ some k1
    → Inv k1
    → k1.curr_proc ≡ some c
    → k1.ready_queue ≢ []
    → (k2 : Kernel) × (o : Outcome) × (nsys2 P a1 k ≡ some (k2, o)) × (places c k2 ≡ 0)
unfolding nsys2
nsys2_loses_caller P k k1 a1 p c other found done v e busy = (
  (dispatch P k1).0,
  (dispatch P k1).1,
  rw (other, found, done),
  ground (arith, dispatch_ready-places P k1 c busy, v.once c, ap (on_cpu c) e),
)
