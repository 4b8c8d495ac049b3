-- ===== src/Nucleus/Services.antt =====
-- The services NSYS1 and NSYS3 to NSYS10 keep the invariant, and end without a fault.
use pand_ossh.Common.{
  Bool-cases, List, Option, [], add32, ap, arith, bind_some, copies, if◌then◌else◌, inl, inr,
  is_pos, none, refl, some, subst, sym, ℕ, ◌*◌, ◌+◌, ◌==◌, ◌>>=◌, ◌∷◌, ◌≡◌,
}
use pand_ossh.Nucleus.Blocking.{block_on-Inv, save-Inv}
use pand_ossh.Asl.{remove_blocked}
use pand_ossh.Nucleus.Dispatch.{dispatch-Inv}
use pand_ossh.Asl.Remove.{remove_blocked-Removed, Removed}
use pand_ossh.Pcb.Queue.{copies-insert_proc_q}
use pand_ossh.Scheduler.{dispatch}
use pand_ossh.Nucleus.Places.{on_cpu, ready-Inv, IsValid-same, Inv-same, PreservesK, Preserves, Inv}
use pand_ossh.Pcb.{remove_proc_q}
use pand_ossh.Machine.{nsuppsem, device_sem, store, wordlen, Pcb, Platform, Kernel}
use pand_ossh.Syscall.{
  io_index, save, nsys7, yield_queue, block_on, nsys3, nsys5, nsys10, wake, nsys4,
}

-- A service that gives up the CPU: the process waits, then the scheduler runs.
block_dispatch-Inv :
    (P : Platform) (a c : ℕ) (k : Kernel)
    → Inv k
    → k.curr_proc ≡ some c
    → Inv (dispatch P (block_on a c k)).0
unfolding block_on
block_dispatch-Inv P a c k v e = dispatch-Inv P (block_on a c k) (block_on-Inv a c k v e) refl

-- Passeren either takes the semaphore or blocks the caller, without a fault, and no PCB is lost or
-- doubled.
pub nsys3-Inv :
    (P : Platform) (a1 c : ℕ) (k : Kernel) → Inv k → k.curr_proc ≡ some c → Preserves (nsys3 P a1 k)
unfolding nsys3 save
nsys3-Inv P a1 c k v e = elim (Bool-cases (is_pos (k.mem a1))) [
  | inl open_sem ↦ rw open_sem (Inv-same k (store a1 _ k) refl refl refl refl refl refl v)
  | inr shut ↦ rw shut (
      subst Preserves (sym (bind_some _ e))
        (block_dispatch-Inv P a1 c (save P c k) (save-Inv P c k v) e))
]

wake-Inv :
    (a : ℕ) (k : Kernel) (r : Option (Option ℕ × Kernel))
    → Inv k
    → Removed a k r
    → PreservesK (r >>= λ x. some (wake a x))
unfolding wake
wake-Inv a k none v h = h
wake-Inv a k (some (none, k1)) v h =
    Inv-same k (store a _ k1) (ap (λ (j : Kernel). j.asl) h.0)
      (ap (λ (j : Kernel). j.semd_free) h.0) (ap (λ (j : Kernel). j.ready_queue) h.0)
      (ap (λ (j : Kernel). j.pcb_free) h.0) (ap (λ (j : Kernel). j.curr_proc) h.0)
      (ap (λ (j : Kernel). j.process_count) h.0) v
wake-Inv a k (some (some p, k1)) v (rest, h) =
    ready-Inv a p rest k k1 _ h refl refl refl refl refl
      (λ x. copies-insert_proc_q k1.pcb_table x p k1.ready_queue) v

-- Verhogen wakes the first process that waits, or raises the semaphore, without a fault, and no PCB
-- is lost or doubled.
pub nsys4-Inv : (a1 : ℕ) (k : Kernel) → Inv k → PreservesK (nsys4 a1 k)
unfolding nsys4
nsys4-Inv a1 k v = wake-Inv a1 k (remove_blocked a1 k) v (remove_blocked-Removed a1 k v.lists)

-- DoIO blocks the caller, without a fault, and no PCB is lost or doubled.
pub nsys5-Inv :
    (P : Platform) (a1 a2 c : ℕ) (k : Kernel)
    → Inv k
    → k.curr_proc ≡ some c
    → Preserves (nsys5 P a1 a2 k)
unfolding nsys5 save block_on
nsys5-Inv P a1 a2 c k v e =
    let s = save P c k in
    let k2 = record s { soft_block_count = add32 s.soft_block_count 1 } in
    let sem = add32 P.device_semaphores (io_index P a1 * wordlen) in
    let v2 : Inv k2 = Inv-same s k2 refl refl refl refl refl refl (save-Inv P c k v) in
    let k3 = block_on sem c k2 in
    subst Preserves (sym (bind_some _ e)) (
      dispatch-Inv P (store a1 a2 k3)
        (Inv-same k3 (store a1 a2 k3) refl refl refl refl refl refl (block_on-Inv sem c k2 v2 e))
        refl)

-- WaitForClock blocks the caller, without a fault, and no PCB is lost or doubled.
pub nsys7-Inv :
    (P : Platform) (c : ℕ) (k : Kernel) → Inv k → k.curr_proc ≡ some c → Preserves (nsys7 P k)
unfolding nsys7 save
nsys7-Inv P c k v e =
    let s = save P c k in
    let k2 = record s { soft_block_count = add32 s.soft_block_count 1 } in
    let v2 : Inv k2 = Inv-same s k2 refl refl refl refl refl refl (save-Inv P c k v) in
    subst Preserves (sym (bind_some _ e)) (block_dispatch-Inv P (device_sem P nsuppsem) c k2 v2 e)

copies-yield_queue :
    (t : ℕ → Pcb) (c x : ℕ) (q : List ℕ)
    → copies x (yield_queue t c (remove_proc_q q)) ≡ (if c == x then 1 else 0) + copies x q
unfolding yield_queue remove_proc_q
copies-yield_queue t c x [] = copies-insert_proc_q t x c []
copies-yield_queue t c x (h ∷ q) = omega (arith, copies-insert_proc_q t x c q)

-- Yield puts the caller back among the ready processes and lets another run, without a fault, and
-- no PCB is lost or doubled.
pub nsys10-Inv :
    (P : Platform) (c : ℕ) (k : Kernel) → Inv k → k.curr_proc ≡ some c → Preserves (nsys10 P k)
unfolding nsys10 save
nsys10-Inv P c k v e =
    let s = save P c k in
    let k2 = record s {
      ready_queue = yield_queue s.pcb_table c (remove_proc_q s.ready_queue);
      curr_proc = none;
    } in
    subst Preserves (sym (bind_some _ e)) (
      dispatch-Inv P k2
        (record {
          lists = IsValid-same k k2 refl refl v.lists;
          once = λ x.
              ground (
                arith,
                copies-yield_queue s.pcb_table c x s.ready_queue,
                v.once x,
                ap (on_cpu x) e,
              );
          counted = v.counted;
        })
        refl)
