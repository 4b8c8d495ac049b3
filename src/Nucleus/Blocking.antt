-- ===== src/Nucleus/Blocking.antt =====
-- What blocking the running process keeps.
use pand_ossh.Nucleus.Capacity.{active-lt}
use pand_ossh.Asl.{insert_blocked}
use pand_ossh.Common.{ap, arith, copies, inl, inr, length, none, refl, some, ℕ, ◌∙◌, ◌≡◌}
use pand_ossh.Nucleus.Places.{on_cpu, IsValid-same, places, Inv}
use pand_ossh.Asl.Insert.{insert_blocked-IsValid, insert_blocked-Inserted, Queued}
use pand_ossh.Syscall.{block_on, save}
use pand_ossh.Machine.{Platform, Kernel}

-- `save` changes the PCB of the process and the number of clock readings, nothing else.
pub save-Inv : (P : Platform) (c : ℕ) (k : Kernel) → Inv k → Inv (save P c k)
unfolding save
save-Inv P c k v = record {
  lists = IsValid-same k (save P c k) refl refl v.lists;
  once = v.once;
  counted = v.counted;
}

block_on-places :
    (a c x : ℕ) (k : Kernel) (k' : Kernel)
    → k.curr_proc ≡ some c
    → Queued a c k k'
    → places x (record k' { curr_proc = none }) ≡ places x k
block_on-places a c x k k' e q = ground (
  arith,
  q.counted x,
  ap (on_cpu x) e,
  ap (copies x) q.others.ready_queue,
  ap (copies x) q.others.pcb_free,
)

-- While a process runs, `insertBlocked` finds a descriptor for it.
pub insert_blocked-Queued :
    (a c : ℕ) (k : Kernel) → Inv k → k.curr_proc ≡ some c → Queued a c k (insert_blocked a c k).1
insert_blocked-Queued a c k v e = elim (insert_blocked-Inserted a c k) [
  | inl (_, _, _, full) ↦ absurd (omega (arith, active-lt k c v e, v.lists.total, ap length full))
  | inr (_, q) ↦ q
]

-- Blocking the running process keeps the invariant.
pub block_on-Inv : (a c : ℕ) (k : Kernel) → Inv k → k.curr_proc ≡ some c → Inv (block_on a c k)
unfolding block_on
block_on-Inv a c k v e =
    let q = insert_blocked-Queued a c k v e in
    let k' = (insert_blocked a c k).1 in
    record {
      lists =
          IsValid-same k' (record k' { curr_proc = none }) refl refl
            (insert_blocked-IsValid a c k v.lists);
      once = λ x. block_on-places a c x k k' e q ∙ v.once x;
      counted = rw (q.others.process_count, q.others.pcb_free) v.counted;
    }
