-- ===== src/Nucleus/Withdraw.antt =====
-- How `terminateProcess` of phase2/src/syscall.c takes one PCB out of its place and frees it.
-- Where the branches of `terminateProcess` look for the PCB, there it is.
use pand_ossh.Nucleus.Capacity.{free-lt}
use pand_ossh.Pcb.Queue.{out_proc_q_lem}
use pand_ossh.Asl.{out_blocked}
use pand_ossh.Asl.Out.{out_blocked-Outcomes, Left}
use pand_ossh.Asl.Insert.{IsValid}
use pand_ossh.Nucleus.Places.{places, on_cpu, table-SamePlaces, IsValid-same, Inv, SamePlaces}
use pand_ossh.Asl.Waiting.{blocked, waiting}
use pand_ossh.Pcb.{out_child, leave_parent, free_pcb}
use pand_ossh.Terminate.{is_device_semaphore, is_current, withdraw}
use pand_ossh.Machine.{maxproc, Platform, Semd, Kernel}
use pand_ossh.Common.{
  ==_self, Bool-cases, List, Option, [], ap, arith, contains, contains-copies, copies,
  copies-append, false, if◌then◌else◌, inl, inr, length, none, refl, some, sub32, true, ℕ, ◌+◌, ◌<◌,
  ◌==◌, ◌∷◌, ◌≡◌, ◌≢◌, ◌≤◌,
}

pub data IsPlaced (k : Kernel) (p : ℕ) : Type 0 where
  running : k.curr_proc ≡ some p → IsPlaced k p
  waits_on :
      is_current p k.curr_proc ≡ false
      → (k.pcb_table p).p_sem_add ≢ 0
      → contains p (waiting (k.pcb_table p).p_sem_add k.asl) ≡ true
      → IsPlaced k p
  ready :
      is_current p k.curr_proc ≡ false
      → (k.pcb_table p).p_sem_add ≡ 0
      → contains p k.ready_queue ≡ true
      → IsPlaced k p

leave_parent-SamePlaces : (p : ℕ) (o : Option ℕ) (k : Kernel) → SamePlaces k (leave_parent p o k).1
unfolding leave_parent
leave_parent-SamePlaces p none k = table-SamePlaces k k.pcb_table
leave_parent-SamePlaces p (some q) k = table-SamePlaces k _

pub out_child-SamePlaces : (p : ℕ) (k : Kernel) → SamePlaces k (out_child (some p) k).1
unfolding out_child
out_child-SamePlaces p k = leave_parent-SamePlaces p (k.pcb_table p).p_parent k

-- The kernel after `p` left its place.
pub record Withdrawn (p : ℕ) (k k' : Kernel) : Type 0 where
  pub lists : IsValid k'
  pub places : (x : ℕ) → places x k' + (if p == x then 1 else 0) ≡ places x k
  pub pcb_free : k'.pcb_free ≡ k.pcb_free
  pub process_count : k'.process_count ≡ k.process_count

pub is_current-some : (p : ℕ) (o : Option ℕ) → o ≡ some p → is_current p o ≡ true
is_current-some p o e = rw e (==_self p)

-- A change of `softBlock_count` alone.
soft-Withdrawn :
    (p n : ℕ) (k k' : Kernel)
    → Withdrawn p k k'
    → Withdrawn p k (record k' { soft_block_count = n })
soft-Withdrawn p n k k' w = record {
  lists = IsValid-same k' _ refl refl w.lists;
  places = w.places;
  pcb_free = w.pcb_free;
  process_count = w.process_count;
}

Left-Withdrawn : (a p : ℕ) (k k' : Kernel) → Left a p k k' → Withdrawn p k k'
Left-Withdrawn a p k k' l = record {
  lists = l.valid;
  places = λ x. ground (
    arith,
    l.counted x,
    ap (on_cpu x) l.others.curr_proc,
    ap (copies x) l.others.ready_queue,
    ap (copies x) l.others.pcb_free,
  );
  pcb_free = l.others.pcb_free;
  process_count = l.others.process_count;
}

pub out_blocked-Left :
    (p : ℕ) (k : Kernel)
    → IsValid k
    → contains p (waiting (k.pcb_table p).p_sem_add k.asl) ≡ true
    → Left (k.pcb_table p).p_sem_add p k (out_blocked p k).1
out_blocked-Left p k v h = elim (out_blocked-Outcomes p k v) [
  | inl (absent, _, _) ↦ cc (absent, h)
  | inr (_, _, l) ↦ l
]

pub withdraw-Withdrawn :
    (P : Platform) (p : ℕ) (k : Kernel) → Inv k → IsPlaced k p → Withdrawn p k (withdraw P p k)
unfolding withdraw
withdraw-Withdrawn P p k v (running e) = rw (is_current-some p k.curr_proc e) (record {
  lists = IsValid-same k _ refl refl v.lists;
  places = λ x. ground (arith, ap (on_cpu x) e);
  pcb_free = refl;
  process_count = refl;
})
withdraw-Withdrawn P p k v (waits_on other sem here) =
    let miss : ((k.pcb_table p).p_sem_add == 0) ≡ false = ground arith in
    let w = Left-Withdrawn _ p k _ (out_blocked-Left p k v.lists here) in
    rw (other, miss)
      (elim (Bool-cases (is_device_semaphore P ((out_blocked p k).1.pcb_table p).p_sem_add)) [
        | inl dev ↦ rw dev (soft-Withdrawn p _ k _ w)
        | inr user ↦ rw user w
      ])
withdraw-Withdrawn P p k v (ready other sem here) =
    let hit : ((k.pcb_table p).p_sem_add == 0) ≡ true = ground arith in
    rw (other, hit)
      (record {
        lists = IsValid-same k _ refl refl v.lists;
        places = λ x. ground (arith, (out_proc_q_lem p x k.ready_queue).1);
        pcb_free = refl;
        process_count = refl;
      })

-- The PCB that left its place joins the free list.
pub freed-Inv :
    (p : ℕ) (k k1 k2 : Kernel)
    → Inv k
    → 0 < places p k
    → copies p k.pcb_free ≡ 0
    → Withdrawn p k k1
    → SamePlaces k1 k2
    → Inv (free_pcb p (record k2 { process_count = sub32 k2.process_count 1 }))
unfolding free_pcb
freed-Inv p k k1 k2 v used not_free w s = record {
  lists = IsValid-same k1 _ s.asl s.semd_free w.lists;
  once = λ x. ground (
    arith,
    w.places x,
    v.once x,
    ap (on_cpu x) s.curr_proc,
    ap (copies x) s.ready_queue,
    ap (λ ss. copies x (blocked ss)) s.asl,
    ap (copies x) s.pcb_free,
  );
  counted =
      let l : p < maxproc = ground (arith, v.once p) in
      ground (
        arith,
        free-lt k p v l not_free,
        v.counted,
        s.process_count,
        w.process_count,
        ap length s.pcb_free,
        ap length w.pcb_free,
      );
}

pub copies-waiting-le : (p a : ℕ) (ss : List Semd) → copies p (waiting a ss) ≤ copies p (blocked ss)
copies-waiting-le p a [] = omega arith
copies-waiting-le p a (s ∷ ss) =
    ground (arith, copies-append p s.s_procq (blocked ss), copies-waiting-le p a ss)

-- A PCB that is placed has a place off the free list, and so is not free.
pub IsPlaced-used :
    (k : Kernel) (p : ℕ) → Inv k → IsPlaced k p → (0 < places p k) × (copies p k.pcb_free ≡ 0)
IsPlaced-used k p v (running e) =
    let one : on_cpu p k.curr_proc ≡ 1 = ground (arith, ap (on_cpu p) e) in
    (ground arith, ground (arith, v.once p))
IsPlaced-used k p v (waits_on _ _ h) =
    let a = (k.pcb_table p).p_sem_add in
    let some_place : 0 < copies p (blocked k.asl) =
      omega (arith, contains-copies p (waiting a k.asl) h, copies-waiting-le p a k.asl) in
    (ground arith, ground (arith, v.once p))
IsPlaced-used k p v (ready _ _ h) =
    let some_place : 0 < copies p k.ready_queue = contains-copies p k.ready_queue h in
    (ground arith, ground (arith, v.once p))
