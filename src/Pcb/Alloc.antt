-- ===== src/Pcb/Alloc.antt =====
-- Allocation of PCBs in phase1/pcb.c.
use pand_ossh.Auxfun.{copy_gprs_lem}
use pand_ossh.Machine.{Kernel, Pcb, Platform}
use pand_ossh.Pcb.{alloc_pcb, init_pcb}
use pand_ossh.Common.{
  ==_self, List, Option, [], add32, arith, none, refl, some, ℕ, ◌<◌, ◌∷◌, ◌≡◌, ◌≢◌,
}

-- A PCB as `initPcb` leaves it: no parent, no children, no semaphore, no support structure, no time,
-- lowest priority, a state of zeros.
pub record IsFresh (P : Platform) (b : Pcb) : Type 0 where
  pub p_parent : b.p_parent ≡ none
  pub p_child : b.p_child ≡ []
  pub p_time : b.p_time ≡ 0
  pub p_sem_add : b.p_sem_add ≡ 0
  pub p_support_struct : b.p_support_struct ≡ 0
  pub p_prio : b.p_prio ≡ 0
  pub entry_hi : b.p_s.entry_hi ≡ 0
  pub cause : b.p_s.cause ≡ 0
  pub status : b.p_s.status ≡ 0
  pub pc_epc : b.p_s.pc_epc ≡ 0
  pub mie : b.p_s.mie ≡ 0
  pub gpr : (i : ℕ) → i < P.gpr_len → b.p_s.gpr i ≡ 0

-- The kernel after `allocPcb` took `p` off the free list.
pub record Allocated (P : Platform) (p : ℕ) (rest : List ℕ) (k k' : Kernel) : Type 0 where
  pub first : k.pcb_free ≡ p ∷ rest
  pub pcb_free : k'.pcb_free ≡ rest
  pub fresh : IsFresh P (k'.pcb_table p)
  pub pid : (k'.pcb_table p).p_pid ≡ k.next_pid
  pub next_pid : k'.next_pid ≡ add32 k.next_pid 1
  pub table : (q : ℕ) → q ≢ p → k'.pcb_table q ≡ k.pcb_table q
  pub asl : k'.asl ≡ k.asl
  pub semd_free : k'.semd_free ≡ k.semd_free
  pub ready_queue : k'.ready_queue ≡ k.ready_queue
  pub curr_proc : k'.curr_proc ≡ k.curr_proc
  pub process_count : k'.process_count ≡ k.process_count
  pub soft_block_count : k'.soft_block_count ≡ k.soft_block_count
  pub states : k'.states ≡ k.states

abbrev pub Allocates : Platform → Kernel → Option ℕ × Kernel → Type 0
Allocates P k (none, k') = (k.pcb_free ≡ []) × (k' ≡ k)
Allocates P k (some p, k') = (rest : List ℕ) × Allocated P p rest k k'

init_pcb-Allocated :
    (P : Platform) (p : ℕ) (rest : List ℕ) (k : Kernel)
    → k.pcb_free ≡ p ∷ rest
    → Allocated P p rest k (init_pcb P p (record k { pcb_free = rest }))
unfolding init_pcb
init_pcb-Allocated P p rest k e = record {
  first = e;
  pcb_free = refl;
  fresh = rw (==_self p) (record {
    p_parent = refl;
    p_child = refl;
    p_time = refl;
    p_sem_add = refl;
    p_support_struct = refl;
    p_prio = refl;
    entry_hi = refl;
    cause = refl;
    status = refl;
    pc_epc = refl;
    mie = refl;
    gpr = λ i l. ground (arith, copy_gprs_lem P.gpr_len i (k.pcb_table p).p_s.gpr (λ _. 0));
  });
  pid = rw (==_self p);
  next_pid = refl;
  table = λ q ne. ground arith;
  asl = refl;
  semd_free = refl;
  ready_queue = refl;
  curr_proc = refl;
  process_count = refl;
  soft_block_count = refl;
  states = refl;
}

-- `allocPcb` returns NULL exactly when no PCB is free, and then changes nothing. Otherwise it takes
-- the first free PCB, gives every field of it its initial value and the next PID, and touches no
-- other PCB and no queue.
pub alloc_pcb-Allocates : (P : Platform) (k : Kernel) → Allocates P k (alloc_pcb P k)
unfolding alloc_pcb
alloc_pcb-Allocates P k = go k.pcb_free refl
  where
    go :
        (free : List ℕ)
        → k.pcb_free ≡ free
        → Allocates P k (elim free [
          | [] ↦ (none, k)
          | p ∷ rest ↦ (some p, init_pcb P p (record k { pcb_free = rest }))
        ])
    go [] e = (e, refl)
    go (p ∷ rest) e = (rest, init_pcb-Allocated P p rest k e)
