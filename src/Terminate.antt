-- ===== src/Terminate.antt =====
-- phase2/src/syscall.c: NSYS2 with the recursive termination of a process and the searches by PID.
use pand_ossh.Scheduler.{dispatch}
use pand_ossh.Pcb.{remove_child, out_proc_q, free_pcb, out_child}
use pand_ossh.Asl.{out_blocked}
use pand_ossh.Common.{
  Bool, List, Option, [], false, if◌then◌else◌, leb, none, some, sub32, suc, zero, ℕ, ◌&&◌, ◌*◌,
  ◌==◌, ◌>>=◌, ◌∷◌,
}
use pand_ossh.Machine.{
  load_state, noproc, nsuppsem, set_exc_a0, Run, Semd, device_sem, Kernel, maxproc, Pcb, Platform,
}

-- `isDeviceSemaphore`
unfoldable pub is_device_semaphore : Platform → ℕ → Bool
is_device_semaphore P a = leb (device_sem P 0) a && leb a (device_sem P nsuppsem)

-- `p == currProc`
abbrev pub is_current : ℕ → Option ℕ → Bool
is_current p none = false
is_current p (some c) = c == p

-- `terminateProcess` after its loop over the children, up to `outChild`: where the PCB is, it goes.
unfoldable pub withdraw : Platform → ℕ → Kernel → Kernel
withdraw P p k =
    if is_current p k.curr_proc
    then record k { curr_proc = none }
    else if (k.pcb_table p).p_sem_add == 0
    then record k { ready_queue = (out_proc_q p k.ready_queue).1 }
    else let k1 = (out_blocked p k).1 in
      if is_device_semaphore P (k1.pcb_table p).p_sem_add
      then record k1 { soft_block_count = sub32 k1.soft_block_count 1 }
      else k1

-- `terminateProcess` after its loop over the children.
unfoldable pub end_process : Platform → ℕ → Kernel → Kernel
end_process P p k =
    let k1 = (out_child (some p) (withdraw P p k)).1 in
    free_pcb p (record k1 { process_count = sub32 k1.process_count 1 })

-- `terminateProcess` and its loop, on fuel; `none` means that the fuel ran out.
unfoldable mutual
  pub terminate_process : Platform → ℕ → ℕ → Kernel → Option Kernel
  terminate_process P zero p k = none
  terminate_process P (suc f) p k = terminate_children P f p k >>= λ k1. some (end_process P p k1)

  pub terminate_children : Platform → ℕ → ℕ → Kernel → Option Kernel
  terminate_children P zero p k = none
  terminate_children P (suc f) p k = elim (remove_child (some p) k).0 [
    | none ↦ some k
    | some c ↦
        terminate_process P f c (remove_child (some p) k).1 >>= λ k1. terminate_children P f p k1
  ]

-- The first result of a search along a list, each search with its own fault.
unfoldable pub first_found : (ℕ → Option (Option ℕ)) → List ℕ → Option (Option ℕ)
first_found g [] = some none
first_found g (c ∷ cs) = elim (g c) [
  | none ↦ none
  | some none ↦ first_found g cs
  | some (some p) ↦ some (some p)
]

-- `searchInTree`, on fuel for the depth.
unfoldable pub search_in_tree : (ℕ → Pcb) → ℕ → ℕ → ℕ → Option (Option ℕ)
search_in_tree t pid zero root = none
search_in_tree t pid (suc f) root =
    if (t root).p_pid == pid
    then some (some root)
    else first_found (search_in_tree t pid f) (t root).p_child

-- The inner loop of `searchBlockedByPid`.
unfoldable pub find_pid : (ℕ → Pcb) → ℕ → List ℕ → Option ℕ
find_pid t pid [] = none
find_pid t pid (p ∷ ps) = if (t p).p_pid == pid then some p else find_pid t pid ps

unfoldable pub search_semds : (ℕ → Pcb) → ℕ → List Semd → Option ℕ
search_semds t pid [] = none
search_semds t pid (s ∷ ss) = elim (find_pid t pid s.s_procq) [
  | none ↦ search_semds t pid ss
  | some p ↦ some p
]

-- `searchBlockedByPid`
unfoldable pub search_blocked_by_pid : ℕ → Kernel → Option ℕ
search_blocked_by_pid pid k = search_semds k.pcb_table pid k.asl

-- The search below the running process.
unfoldable pub search_current : ℕ → ℕ → Kernel → Option (Option ℕ)
search_current f pid k = elim k.curr_proc [
  | none ↦ some none
  | some c ↦ search_in_tree k.pcb_table pid f c
]

-- `findPcbByPid`
unfoldable pub find_pcb_by_pid : ℕ → ℕ → Kernel → Option (Option ℕ)
find_pcb_by_pid f pid k = do
  r ← search_current f pid k
  elim r [
    | some p ↦ some (some p)
    | none ↦ first_found (search_in_tree k.pcb_table pid f) k.ready_queue >>= λ q. elim q [
      | some p ↦ some (some p)
      | none ↦ some (search_blocked_by_pid pid k)
    ]
  ]

-- A tree of at most `maxproc` processes is no deeper than `maxproc`, and `terminateProcess` with its
-- loop makes at most two nested calls for each process.
abbrev pub search_fuel : ℕ
search_fuel = maxproc

abbrev pub terminate_fuel : ℕ
terminate_fuel = 2 * maxproc

-- `terminateProcess(p)`, which does nothing for NULL.
unfoldable pub terminate : Platform → Option ℕ → Kernel → Option Kernel
terminate P none k = some k
terminate P (some p) k = terminate_process P terminate_fuel p k

-- NSYS2, TerminateProcess
unfoldable pub nsys2 : Platform → ℕ → Kernel → Run
nsys2 P a1 k =
    if a1 == 0
    then terminate P k.curr_proc k >>= (λ k1. some (dispatch P k1))
    else (find_pcb_by_pid search_fuel a1 k >>= λ r. elim r [
      | none ↦ let k1 = set_exc_a0 P noproc k in some (k1, load_state k1.exc_state)
      | some p ↦ terminate P (some p) k >>= (λ k1. some (dispatch P k1))
    ])
