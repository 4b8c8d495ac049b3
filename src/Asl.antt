-- ===== src/Asl.antt =====
-- phase1/asl.c: the active semaphore list.
pub mod Insert
pub mod Remove
pub mod Out
pub mod Untouched
pub mod Waiting
use pand_ossh.Common.{
  ℕ, Bool, true, false, ◌&&◌, Option, none, some, List, [], ◌∷◌, ◌++◌, if◌then◌else◌, ◌==◌, remove,
  contains,
}
use pand_ossh.Machine.{Semd, Kernel, maxproc, set_pcb}
use pand_ossh.Pcb.{add_entries, empty_proc_q, head_proc_q, mk_empty_proc_q}

-- `initASL`
unfoldable pub init_asl : Kernel → Kernel
unfolding add_entries
init_asl k = record k { semd_free = add_entries maxproc; asl = [] }

-- `p->p_semAdd = semAdd`
unfoldable pub set_sem_add : ℕ → ℕ → Kernel → Kernel
set_sem_add p a k = set_pcb p (record (k.pcb_table p) { p_sem_add = a }) k

-- The first loop of `insertBlocked`: the list with `p` at the tail of the queue of `a`, if there is
-- a descriptor for `a`.
unfoldable pub insert_active : ℕ → ℕ → List Semd → Option (List Semd)
insert_active a p [] = none
insert_active a p (s ∷ ss) =
    if s.s_key == a
    then some (record s { s_procq = s.s_procq ++ p ∷ [] } ∷ ss)
    else elim (insert_active a p ss) [ none ↦ none | some ss' ↦ some (s ∷ ss') ]

-- The second half of `insertBlocked`, which takes a free descriptor.
unfoldable pub activate : ℕ → ℕ → List ℕ → Kernel → Bool × Kernel
unfolding set_sem_add mk_empty_proc_q
activate a p [] k = (true, k)
activate a p (i ∷ free) k =
    let new : Semd = record { index = i; s_key = a; s_procq = mk_empty_proc_q ++ p ∷ [] } in
    (false, set_sem_add p a (record k { semd_free = free; asl = k.asl ++ new ∷ [] }))

-- `insertBlocked`; true says that there is no descriptor left.
unfoldable pub insert_blocked : ℕ → ℕ → Kernel → Bool × Kernel
unfolding insert_active activate set_sem_add
insert_blocked a p k = elim (insert_active a p k.asl) [
  | none ↦ activate a p k.semd_free k
  | some ss ↦ (false, set_sem_add p a (record k { asl = ss }))
]

-- The descriptor of `a` with its place in the list: those before, itself, those behind.
unfoldable pub find_semd : ℕ → List Semd → Option (List Semd × Semd × List Semd)
find_semd a [] = none
find_semd a (s ∷ ss) =
    if s.s_key == a
    then some ([], s, ss)
    else elim (find_semd a ss) [ none ↦ none | some (l, t, r) ↦ some (s ∷ l, t, r) ]

-- The descriptor with the queue that is left, or its return to the free list.
unfoldable pub shrink : List Semd → Semd → List Semd → List ℕ → Kernel → Kernel
unfolding empty_proc_q
shrink l s r rest k =
    if empty_proc_q rest
    then record k { asl = l ++ r; semd_free = s.index ∷ k.semd_free }
    else record k { asl = l ++ record s { s_procq = rest } ∷ r }

-- `list_del` of the first PCB of a descriptor; an empty queue gives `list_next` a null result, which
-- `list_del` then reads through.
unfoldable pub take_first :
    List Semd → Semd → List Semd → List ℕ → Kernel → Option (Option ℕ × Kernel)
unfolding shrink
take_first l s r [] k = none
take_first l s r (p ∷ rest) k = some (some p, shrink l s r rest k)

-- `removeBlocked`
unfoldable pub remove_blocked : ℕ → Kernel → Option (Option ℕ × Kernel)
unfolding find_semd take_first
remove_blocked a k = elim (find_semd a k.asl) [
  | none ↦ some (none, k)
  | some (l, s, r) ↦ take_first l s r s.s_procq k
]

-- The loop of `outBlocked`: the first descriptor of `a` whose queue holds `p`.
unfoldable pub find_waiting : ℕ → ℕ → List Semd → Option (List Semd × Semd × List Semd)
find_waiting a p [] = none
find_waiting a p (s ∷ ss) =
    if (a == s.s_key) && contains p s.s_procq
    then some ([], s, ss)
    else elim (find_waiting a p ss) [ none ↦ none | some (l, t, r) ↦ some (s ∷ l, t, r) ]

-- `outBlocked`
unfoldable pub out_blocked : ℕ → Kernel → Option ℕ × Kernel
unfolding find_waiting shrink
out_blocked p k = elim (find_waiting (k.pcb_table p).p_sem_add p k.asl) [
  | none ↦ (none, k)
  | some (l, s, r) ↦ (some p, shrink l s r (remove p s.s_procq) k)
]

-- `headBlocked`
unfoldable pub head_blocked : ℕ → Kernel → Option ℕ
unfolding find_semd head_proc_q
head_blocked a k = elim (find_semd a k.asl) [ none ↦ none | some (l, s, r) ↦ head_proc_q s.s_procq ]
