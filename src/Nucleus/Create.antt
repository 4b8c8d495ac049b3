-- ===== src/Nucleus/Create.antt =====
-- NSYS1 keeps the invariant: a PCB leaves the free list for the ready queue.
use pand_ossh.Common.{List, Option, add32, ap, arith, copies, length, none, some, subst, sym, ℕ}
use pand_ossh.Asl.Waiting.{blocked}
use pand_ossh.Pcb.Queue.{copies-insert_proc_q}
use pand_ossh.Auxfun.{copy_state}
use pand_ossh.Pcb.Alloc.{Allocated, alloc_pcb-Allocates, Allocates}
use pand_ossh.Nucleus.Places.{
  on_cpu, IsValid-same, SamePlaces-Inv, table-SamePlaces, Inv, SamePlaces,
}
use pand_ossh.Machine.{Pcb, modify_pcb, Platform, Kernel}
use pand_ossh.Syscall.{create, nsys1}
use pand_ossh.Pcb.{insert_proc_q, alloc_pcb, insert_child}

insert_child-SamePlaces :
    (o : Option ℕ) (p : ℕ) (k : Kernel) → SamePlaces k (insert_child o (some p) k)
unfolding insert_child
insert_child-SamePlaces none p k = table-SamePlaces k k.pcb_table
insert_child-SamePlaces (some c) p k = table-SamePlaces k _

-- What `nsys1` does to the lists, once the PCB is allocated.
pub create_places :
    (P : Platform) (a1 a2 a3 p : ℕ) (k1 : Kernel)
    → SamePlaces
        (record k1 {
          ready_queue =
              insert_proc_q
                (modify_pcb p
                  (λ b. record b {
                    p_s = copy_state P b.p_s (k1.states a1);
                    p_prio = a2;
                    p_support_struct = a3;
                  })
                  k1).pcb_table
                p
                k1.ready_queue;
          process_count = add32 k1.process_count 1;
        })
        (create P a1 a2 a3 (some p, k1)).1
unfolding create
create_places P a1 a2 a3 p k1 =
    let t =
      (modify_pcb p
        (λ b. record b {
          p_s = copy_state P b.p_s (k1.states a1);
          p_prio = a2;
          p_support_struct = a3;
        })
        k1).pcb_table in
    let k2 = record k1 { pcb_table = t; ready_queue = insert_proc_q t p k1.ready_queue } in
    let s = insert_child-SamePlaces k2.curr_proc p k2 in
    record {
      asl = s.asl;
      semd_free = s.semd_free;
      ready_queue = s.ready_queue;
      pcb_free = s.pcb_free;
      curr_proc = s.curr_proc;
      process_count = ap (λ n. add32 n 1) s.process_count;
      soft_block_count = s.soft_block_count;
    }

-- The PCB that `allocPcb` took is counted and stands in the ready queue.
pub enrolled-Inv :
    (P : Platform) (t : ℕ → Pcb) (p : ℕ) (rest : List ℕ) (k k1 : Kernel)
    → Allocated P p rest k k1
    → Inv k
    → Inv (record k1 {
      ready_queue = insert_proc_q t p k1.ready_queue;
      process_count = add32 k1.process_count 1;
    })
enrolled-Inv P t p rest k k1 h v = record {
  lists = IsValid-same k _ h.asl h.semd_free v.lists;
  once = λ x. ground (
    arith,
    copies-insert_proc_q t x p k1.ready_queue,
    v.once x,
    ap (copies x) h.first,
    ap (copies x) h.pcb_free,
    ap (copies x) h.ready_queue,
    ap (λ ss. copies x (blocked ss)) h.asl,
    ap (on_cpu x) h.curr_proc,
  );
  counted = ground (arith, v.counted, h.process_count, ap length h.first, ap length h.pcb_free);
}

create-Inv :
    (P : Platform) (a1 a2 a3 : ℕ) (k : Kernel) (r : Option ℕ × Kernel)
    → Inv k
    → Allocates P k r
    → Inv (create P a1 a2 a3 r).1
unfolding create
create-Inv P a1 a2 a3 k (none, k1) v h = subst Inv (sym h.1) v
create-Inv P a1 a2 a3 k (some p, k1) v (rest, h) =
    SamePlaces-Inv _ _ (create_places P a1 a2 a3 p k1) (enrolled-Inv P _ p rest k k1 h v)

-- CreateProcess keeps the invariant, with a free PCB and without.
pub nsys1-Inv : (P : Platform) (a1 a2 a3 : ℕ) (k : Kernel) → Inv k → Inv (nsys1 P a1 a2 a3 k).1
unfolding nsys1
nsys1-Inv P a1 a2 a3 k v = create-Inv P a1 a2 a3 k (alloc_pcb P k) v (alloc_pcb-Allocates P k)
