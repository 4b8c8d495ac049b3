-- ===== src/Nucleus/Leaves.antt =====
-- The end of one process in `terminateProcess` of phase2/src/syscall.c.
-- The queues after one process left its place.
use pand_ossh.Nucleus.Terminate.{end_process-Inv}
use pand_ossh.Nucleus.Withdraw.{
  ready, waits_on, is_current-some, running, out_child-SamePlaces, withdraw-Withdrawn,
  out_blocked-Left, copies-waiting-le, IsPlaced,
}
use pand_ossh.Asl.{out_blocked}
use pand_ossh.Asl.Waiting.{blocked, waiting}
use pand_ossh.Nucleus.Places.{on_cpu, Inv}
use pand_ossh.Pcb.{out_proc_q, free_pcb}
use pand_ossh.Machine.{Platform, Semd, Kernel}
use pand_ossh.Nucleus.Ended.{Ended, unless_in, not_among}
use pand_ossh.Terminate.{is_device_semaphore, end_process, is_current, withdraw}
use pand_ossh.Common.{
  ==_self, Bool-cases, List, Option, [], ap, arith, contains, contains-copies, copies,
  copies-append, false, inl, inr, length, none, refl, remove, remove_absent, some, sym, true, ℕ,
  ◌+◌, ◌<◌, ◌==◌, ◌∙◌, ◌∷◌, ◌≡◌, ◌≢◌, ◌≤◌,
}

record Leaves (p : ℕ) (k k' : Kernel) : Type 0 where
  current : k'.curr_proc ≡ unless_in (p ∷ []) k.curr_proc
  ready : k'.ready_queue ≡ remove p k.ready_queue
  queues : (b : ℕ) → waiting b k'.asl ≡ remove p (waiting b k.asl)

remove_none : (p : ℕ) (xs : List ℕ) → copies p xs ≡ 0 → remove p xs ≡ xs
remove_none p xs z = remove_absent p xs (not_among p xs z)

copies-two_queues :
    (p a b : ℕ) (ss : List Semd)
    → a ≢ b
    → copies p (waiting a ss) + copies p (waiting b ss) ≤ copies p (blocked ss)
copies-two_queues p a b [] ne = omega arith
copies-two_queues p a b (s ∷ ss) ne = ground (
  arith,
  copies-append p s.s_procq (blocked ss),
  copies-waiting-le p a ss,
  copies-waiting-le p b ss,
  copies-two_queues p a b ss ne,
)

unless_other : (p : ℕ) (o : Option ℕ) → is_current p o ≡ false → unless_in (p ∷ []) o ≡ o
unless_other p none h = refl
unless_other p (some c) h = ground arith

-- A PCB that is in one place is in no queue elsewhere.
elsewhere :
    (p a b : ℕ) (k : Kernel)
    → Inv k
    → contains p (waiting a k.asl) ≡ true
    → a ≢ b
    → copies p (waiting b k.asl) ≡ 0
elsewhere p a b k v here ne =
    ground
      (arith, v.once p, contains-copies p (waiting a k.asl) here, copies-two_queues p a b k.asl ne)

out_blocked-Leaves :
    (p : ℕ) (k : Kernel)
    → Inv k
    → is_current p k.curr_proc ≡ false
    → contains p (waiting (k.pcb_table p).p_sem_add k.asl) ≡ true
    → Leaves p k (out_blocked p k).1
out_blocked-Leaves p k v other here =
    let a = (k.pcb_table p).p_sem_add in
    let left = out_blocked-Left p k v.lists here in
    let blocked_once : 0 < copies p (blocked k.asl) =
      omega (arith, contains-copies p (waiting a k.asl) here, copies-waiting-le p a k.asl) in
    record {
      current = left.others.curr_proc ∙ sym (unless_other p k.curr_proc other);
      ready =
          left.others.ready_queue ∙ sym (remove_none p k.ready_queue (ground (arith, v.once p)));
      queues = λ b. elim (Bool-cases (a == b)) [
        | inl same ↦ ground (arith, left.queues b)
        | inr differ ↦
            let none_there : copies p (waiting b k.asl) ≡ 0 =
              elsewhere p a b k v here (ground arith) in
            ground (arith, left.queues b, remove_none p (waiting b k.asl) none_there)
      ];
    }

withdraw-Leaves :
    (P : Platform) (p : ℕ) (k : Kernel) → Inv k → IsPlaced k p → Leaves p k (withdraw P p k)
unfolding withdraw
withdraw-Leaves P p k v (running e) =
    let on : on_cpu p k.curr_proc ≡ 1 = ground (arith, ap (on_cpu p) e) in
    rw (is_current-some p k.curr_proc e) (record {
      current = rw (e, ==_self p) refl;
      ready = sym (remove_none p k.ready_queue (ground (arith, v.once p)));
      queues = λ b.
          sym (
            remove_none p (waiting b k.asl)
              (ground (arith, v.once p, copies-waiting-le p b k.asl)));
    })
withdraw-Leaves P p k v (waits_on other sem here) =
    let miss : ((k.pcb_table p).p_sem_add == 0) ≡ false = ground arith in
    let l = out_blocked-Leaves p k v other here in
    rw (other, miss)
      (elim (Bool-cases (is_device_semaphore P ((out_blocked p k).1.pcb_table p).p_sem_add)) [
        | inl dev ↦ rw dev (record { current = l.current; ready = l.ready; queues = l.queues })
        | inr user ↦ rw user l
      ])
withdraw-Leaves P p k v (ready other sem here) =
    let hit : ((k.pcb_table p).p_sem_add == 0) ≡ true = ground arith in
    let in_queue : 0 < copies p k.ready_queue = contains-copies p k.ready_queue here in
    rw (other, hit)
      (record {
        current = sym (unless_other p k.curr_proc other);
        ready = unfold out_proc_q in rw here refl;
        queues = λ b. sym (
            remove_none p (waiting b k.asl)
              (ground (arith, v.once p, copies-waiting-le p b k.asl)));
      })

-- The end of `terminateProcess` for a process that is where its PCB says.
pub end_process-Ended :
    (P : Platform) (p : ℕ) (k : Kernel)
    → Inv k
    → IsPlaced k p
    → Ended (p ∷ []) k (end_process P p k)
unfolding end_process free_pcb
end_process-Ended P p k v h =
    let w = withdraw-Withdrawn P p k v h in
    let l = withdraw-Leaves P p k v h in
    let s = out_child-SamePlaces p (withdraw P p k) in
    let inv = end_process-Inv P p k v h in
    record {
      inv = inv;
      current = s.curr_proc ∙ l.current;
      ready = s.ready_queue ∙ l.ready;
      queues = λ b. ap (waiting b) s.asl ∙ l.queues b;
      freed = ap (◌∷◌ p) (s.pcb_free ∙ w.pcb_free);
      counted = omega (arith, inv.counted, v.counted, ap length s.pcb_free, ap length w.pcb_free);
    }
