-- ===== src/Nucleus/Count.antt =====
-- The handlers of the nucleus keep `softBlock_count` right.
use pand_ossh.Common.{
  Bool-cases, List, Option, [], add32, ap, arith, bind_some, inl, inr, is_pos, length,
  length-append, none, refl, some, sub32, subst, suc, sym, ℕ, ◌*◌, ◌+◌, ◌<◌, ◌>>=◌, ◌∙◌, ◌∷◌, ◌≡◌,
  ◌≤◌,
}
use pand_ossh.Asl.{insert_blocked, remove_blocked}
use pand_ossh.Nucleus.Soft.{
  Counts, dispatch-Counts, Counted, IsOther, soft_blocked, soft_blocked-le, other-soft_blocked,
  device-soft_blocked,
}
use pand_ossh.Nucleus.Places.{Inv, Inv-same}
use pand_ossh.Nucleus.Blocking.{block_on-Inv, insert_blocked-Queued, save-Inv}
use pand_ossh.Asl.Remove.{Removed, Popped, remove_blocked-Removed}
use pand_ossh.Asl.Waiting.{waiting}
use pand_ossh.Syscall.{nsys3, nsys4, nsys5, nsys7, block_on, save, wake, io_index}
use pand_ossh.Machine.{maxproc, Platform, Kernel, device_sem, nsuppsem, store, wordlen}

abbrev pub CountsK : Platform → Option Kernel → Type 0
CountsK P none = ⊥
CountsK P (some k) = Counted P k

pub Counted-same :
    (P : Platform) (k k' : Kernel)
    → k'.asl ≡ k.asl
    → k'.soft_block_count ≡ k.soft_block_count
    → Counted P k
    → Counted P k'
Counted-same P k k' e f n = f ∙ n ∙ ap (soft_blocked P) (sym e)

-- The running process joins a queue that is not counted.
block_other-Counted :
    (P : Platform) (a c : ℕ) (k : Kernel)
    → Inv k
    → k.curr_proc ≡ some c
    → IsOther P a
    → Counted P k
    → Counted P (block_on a c k)
unfolding block_on
block_other-Counted P a c k v e o n =
    let q = insert_blocked-Queued a c k v e in
    q.others.soft_block_count
    ∙ n
    ∙ sym (
        other-soft_blocked P k (insert_blocked a c k).1 a (λ b ne. ground (arith, q.queues b, ne))
          o)

-- It joins one that is counted, and `softBlock_count` was raised before.
block_device-Counted :
    (P : Platform) (a j c : ℕ) (k : Kernel)
    → Inv k
    → k.curr_proc ≡ some c
    → j < suc nsuppsem
    → a ≡ device_sem P j
    → Counted P k
    → Counted P (block_on a c (record k { soft_block_count = add32 k.soft_block_count 1 }))
unfolding block_on
block_device-Counted P a j c k v e w at n =
    let k2 = record k { soft_block_count = add32 k.soft_block_count 1 } in
    let v2 : Inv k2 = Inv-same k k2 refl refl refl refl refl refl v in
    let q = insert_blocked-Queued a c k2 v2 e in
    let moved =
      device-soft_blocked P k (insert_blocked a c k2).1 a (λ b ne. ground (arith, q.queues b, ne)) j
        w at in
    let longer : length (waiting a (insert_blocked a c k2).1.asl) ≡ length (waiting a k.asl) + 1 =
      ground (arith, q.queues a, length-append (waiting a k.asl) (c ∷ [])) in
    omega (arith, q.others.soft_block_count, n, moved, longer, soft_blocked-le P k v)

block_device-le :
    (P : Platform) (a c : ℕ) (k : Kernel)
    → Inv k
    → k.curr_proc ≡ some c
    → soft_blocked P (block_on a c (record k { soft_block_count = add32 k.soft_block_count 1 })).asl
      ≤ maxproc
block_device-le P a c k v e =
    let k2 = record k { soft_block_count = add32 k.soft_block_count 1 } in
    soft_blocked-le P _ (block_on-Inv a c k2 (Inv-same k k2 refl refl refl refl refl refl v) e)

-- NSYS3 on a semaphore that is not counted.
pub nsys3-Counted :
    (P : Platform) (a1 c : ℕ) (k : Kernel)
    → Inv k
    → k.curr_proc ≡ some c
    → IsOther P a1
    → Counted P k
    → Counts P (nsys3 P a1 k)
unfolding nsys3 save
nsys3-Counted P a1 c k v e o n = elim (Bool-cases (is_pos (k.mem a1))) [
  | inl open_sem ↦ rw open_sem (n, tt)
  | inr shut ↦ rw shut (
      subst (Counts P) (sym (bind_some _ e)) (
        dispatch-Counts P (block_on a1 c (save P c k))
          (soft_blocked-le P _ (block_on-Inv a1 c (save P c k) (save-Inv P c k v) e))
          (block_other-Counted P a1 c (save P c k) (save-Inv P c k v) e o n)))
]

-- A process left a queue.
other-Popped :
    (P : Platform) (a p : ℕ) (rest : List ℕ) (k k1 : Kernel)
    → Popped a p rest k k1
    → IsOther P a
    → Counted P k
    → Counted P k1
other-Popped P a p rest k k1 pop o n =
    pop.others.soft_block_count
    ∙ n
    ∙ sym (other-soft_blocked P k k1 a (λ b ne. ground (arith, pop.queues b, ne)) o)

pub device-Popped :
    (P : Platform) (a j p : ℕ) (rest : List ℕ) (k k1 : Kernel)
    → Popped a p rest k k1
    → j < suc nsuppsem
    → a ≡ device_sem P j
    → Inv k
    → Counted P k
    → (sub32 k1.soft_block_count 1 ≡ soft_blocked P k1.asl) × (soft_blocked P k1.asl ≤ maxproc)
device-Popped P a j p rest k k1 pop w at v n =
    let moved = device-soft_blocked P k k1 a (λ b ne. ground (arith, pop.queues b, ne)) j w at in
    let before : length (waiting a k.asl) ≡ length rest + 1 = ap length pop.first ∙ omega arith in
    let after : length (waiting a k1.asl) ≡ length rest = ground (arith, pop.queues a) in
    let few = soft_blocked-le P k v in
    (
      omega (arith, pop.others.soft_block_count, n, moved, before, after, few),
      omega (arith, moved, before, after, few),
    )

wake-Counted :
    (P : Platform) (a : ℕ) (k : Kernel) (r : Option (Option ℕ × Kernel))
    → IsOther P a
    → Counted P k
    → Removed a k r
    → CountsK P (r >>= λ x. some (wake a x))
unfolding wake
wake-Counted P a k none o n h = h
wake-Counted P a k (some (none, k1)) o n h = subst (Counted P) (sym h.0) n
wake-Counted P a k (some (some p, k1)) o n (rest, pop) = other-Popped P a p rest k k1 pop o n

-- NSYS4 on a semaphore that is not counted.
pub nsys4-Counted :
    (P : Platform) (a1 : ℕ) (k : Kernel)
    → Inv k
    → IsOther P a1
    → Counted P k
    → CountsK P (nsys4 a1 k)
unfolding nsys4
nsys4-Counted P a1 k v o n =
    wake-Counted P a1 k (remove_blocked a1 k) o n (remove_blocked-Removed a1 k v.lists)

-- NSYS5 on a command register whose semaphore is one of `device_semaphores`.
pub nsys5-Counted :
    (P : Platform) (a1 a2 c j : ℕ) (k : Kernel)
    → Inv k
    → k.curr_proc ≡ some c
    → j < suc nsuppsem
    → add32 P.device_semaphores (io_index P a1 * wordlen) ≡ device_sem P j
    → Counted P k
    → Counts P (nsys5 P a1 a2 k)
unfolding nsys5 save
nsys5-Counted P a1 a2 c j k v e w at n =
    let s = save P c k in
    let k3 =
      block_on (add32 P.device_semaphores (io_index P a1 * wordlen)) c
        (record s { soft_block_count = add32 s.soft_block_count 1 }) in
    subst (Counts P) (sym (bind_some _ e)) (
      dispatch-Counts P (store a1 a2 k3) (block_device-le P _ c s (save-Inv P c k v) e)
        (block_device-Counted P _ j c s (save-Inv P c k v) e w at n))

-- NSYS7.
pub nsys7-Counted :
    (P : Platform) (c : ℕ) (k : Kernel)
    → Inv k
    → k.curr_proc ≡ some c
    → Counted P k
    → Counts P (nsys7 P k)
unfolding nsys7 save
nsys7-Counted P c k v e n =
    let s = save P c k in
    subst (Counts P) (sym (bind_some _ e)) (
      dispatch-Counts P _ (block_device-le P _ c s (save-Inv P c k v) e) (
        block_device-Counted P (device_sem P nsuppsem) nsuppsem c s (save-Inv P c k v) e
          (omega arith) refl n))
