-- ===== src/Pcb.antt =====
-- phase1/pcb.c: allocation, process queues, and the tree of processes.
pub mod Alloc
pub mod Queue
pub mod Nodes
pub mod Walk
pub mod Unlink
pub mod Kinship
pub mod Relink
pub mod Pool
pub mod Trace
mod Tests
use pand_ossh.Common.{
  ℕ, zero, suc, Bool, true, false, Option, none, some, List, [], ◌∷◌, if◌then◌else◌, remove,
  contains, add32, slt32,
}
use pand_ossh.Machine.{Platform, State, Pcb, Kernel, maxproc, set_pcb}
use pand_ossh.Auxfun.{copy_gprs}

-- `list_add` of the entries 0, 1, … of `pcbFree_table`, each at the head.
unfoldable pub add_entries : ℕ → List ℕ
add_entries zero = []
add_entries (suc n) = n ∷ add_entries n

-- `initPcbs`
unfoldable pub init_pcbs : Kernel → Kernel
unfolding add_entries
init_pcbs k = record k { pcb_free = add_entries maxproc }

-- `freePcb`
unfoldable pub free_pcb : ℕ → Kernel → Kernel
free_pcb p k = record k { pcb_free = p ∷ k.pcb_free }

-- The state of a new PCB: the named fields and the registers that exist are 0.
unfoldable pub zero_state : Platform → State → State
zero_state P s = record {
  entry_hi = 0;
  cause = 0;
  status = 0;
  pc_epc = 0;
  mie = 0;
  gpr = copy_gprs P.gpr_len s.gpr (λ _. 0);
}

-- `initPcb`
unfoldable pub init_pcb : Platform → ℕ → Kernel → Kernel
unfolding zero_state
init_pcb P p k =
    record (set_pcb p
      (record {
        p_parent = none;
        p_child = [];
        p_s = zero_state P (k.pcb_table p).p_s;
        p_time = 0;
        p_sem_add = 0;
        p_support_struct = 0;
        p_prio = 0;
        p_pid = k.next_pid;
      })
      k) { next_pid = add32 k.next_pid 1 }

-- `allocPcb`
unfoldable pub alloc_pcb : Platform → Kernel → Option ℕ × Kernel
unfolding init_pcb
alloc_pcb P k = elim k.pcb_free [
  | [] ↦ (none, k)
  | p ∷ rest ↦ (some p, init_pcb P p (record k { pcb_free = rest }))
]

-- `mkEmptyProcQ`
unfoldable pub mk_empty_proc_q : List ℕ
mk_empty_proc_q = []

-- `emptyProcQ`
unfoldable pub empty_proc_q : List ℕ → Bool
empty_proc_q [] = true
empty_proc_q (_ ∷ _) = false

-- `insertProcQ`: the walk stops at the first PCB of lower priority, or at the end.
unfoldable pub insert_proc_q : (ℕ → Pcb) → ℕ → List ℕ → List ℕ
insert_proc_q t p [] = p ∷ []
insert_proc_q t p (q ∷ qs) =
    if slt32 (t q).p_prio (t p).p_prio then p ∷ q ∷ qs else q ∷ insert_proc_q t p qs

-- `headProcQ`
unfoldable pub head_proc_q : List ℕ → Option ℕ
head_proc_q [] = none
head_proc_q (p ∷ _) = some p

-- `removeProcQ`
unfoldable pub remove_proc_q : List ℕ → Option ℕ × List ℕ
remove_proc_q [] = (none, [])
remove_proc_q (p ∷ qs) = (some p, qs)

-- `outProcQ`
unfoldable pub out_proc_q : ℕ → List ℕ → Option ℕ × List ℕ
out_proc_q p qs = if contains p qs then (some p, remove p qs) else (none, qs)

-- `emptyChild`
unfoldable pub empty_child : Option ℕ → Kernel → Bool
unfolding empty_proc_q
empty_child none k = true
empty_child (some p) k = empty_proc_q (k.pcb_table p).p_child

-- `insertChild`
unfoldable pub insert_child : Option ℕ → Option ℕ → Kernel → Kernel
insert_child none p k = k
insert_child (some prnt) none k = k
insert_child (some prnt) (some p) k =
    let k' = set_pcb p (record (k.pcb_table p) { p_parent = some prnt }) k in
    let b = k'.pcb_table prnt in set_pcb prnt (record b { p_child = p ∷ b.p_child }) k'

-- What `removeChild` does with the first child, `list_del` and the loss of the parent.
unfoldable pub detach_first : ℕ → List ℕ → Kernel → Option ℕ × Kernel
detach_first p [] k = (none, k)
detach_first p (c ∷ cs) k =
    let k' = set_pcb p (record (k.pcb_table p) { p_child = cs }) k in
    (some c, set_pcb c (record (k'.pcb_table c) { p_parent = none }) k')

-- `removeChild`
unfoldable pub remove_child : Option ℕ → Kernel → Option ℕ × Kernel
unfolding detach_first
remove_child none k = (none, k)
remove_child (some p) k = detach_first p (k.pcb_table p).p_child k

-- What `outChild` does with a PCB that has a parent.
unfoldable pub leave_parent : ℕ → Option ℕ → Kernel → Option ℕ × Kernel
leave_parent p none k = (none, k)
leave_parent p (some prnt) k =
    let b = k.pcb_table prnt in
    let k' = set_pcb prnt (record b { p_child = remove p b.p_child }) k in
    (some p, set_pcb p (record (k'.pcb_table p) { p_parent = none }) k')

-- `outChild`
unfoldable pub out_child : Option ℕ → Kernel → Option ℕ × Kernel
unfolding leave_parent
out_child none k = (none, k)
out_child (some p) k = leave_parent p (k.pcb_table p).p_parent k
