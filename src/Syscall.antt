-- ===== src/Syscall.antt =====
-- phase2/src/syscall.c: the services NSYS1 and NSYS3 to NSYS10.
use pand_ossh.Scheduler.{dispatch}
use pand_ossh.Pcb.{remove_proc_q, insert_child, alloc_pcb, insert_proc_q}
use pand_ossh.Auxfun.{copy_state}
use pand_ossh.Asl.{remove_blocked, insert_blocked}
use pand_ossh.Common.{
  List, Option, add32, if◌then◌else◌, is_pos, none, sdiv32, some, srem32, sub32, ℕ, ◌&&◌, ◌*◌, ◌==◌,
  ◌>>=◌, ◌∷◌,
}
use pand_ossh.Machine.{
  nsuppsem, wordlen, load_state, device_sem, start_devreg, Pcb, store, Run, set_exc_a0, stck,
  modify_pcb, noproc, Platform, Kernel,
}

-- `NSYS1` after `allocPcb`.
unfoldable pub create : Platform → ℕ → ℕ → ℕ → Option ℕ × Kernel → ℕ × Kernel
create P a1 a2 a3 (none, k) = (noproc, k)
create P a1 a2 a3 (some p, k) =
    let k1 =
      modify_pcb p
        (λ b. record b {
          p_s = copy_state P b.p_s (k.states a1);
          p_prio = a2;
          p_support_struct = a3;
        })
        k in
    let k2 = record k1 { ready_queue = insert_proc_q k1.pcb_table p k1.ready_queue } in
    let k3 = insert_child k2.curr_proc (some p) k2 in
    let k4 = record k3 { process_count = add32 k3.process_count 1 } in
    let k5 = modify_pcb p (λ b. record b { p_time = 0; p_sem_add = 0 }) k4 in
    ((k5.pcb_table p).p_pid, k5)

-- NSYS1, CreateProcess
unfoldable pub nsys1 : Platform → ℕ → ℕ → ℕ → Kernel → ℕ × Kernel
nsys1 P a1 a2 a3 k = create P a1 a2 a3 (alloc_pcb P k)

-- The lines that NSYS3, NSYS5, NSYS7 and NSYS10 share: the saved state goes into the PCB, and the
-- time since `tod_start` is charged to it.
unfoldable pub save : Platform → ℕ → Kernel → Kernel
save P c k =
    let k1 = modify_pcb c (λ b. record b { p_s = copy_state P b.p_s k.exc_state }) k in
    let now = (stck P k1).0 in
    let k2 = (stck P k1).1 in
    modify_pcb c (λ b. record b { p_time = add32 b.p_time (sub32 now k2.tod_start) }) k2

-- The lines that NSYS3, NSYS5 and NSYS7 share: the process waits on `a`, and nobody runs. The
-- result of `insertBlocked` is ignored.
unfoldable pub block_on : ℕ → ℕ → Kernel → Kernel
block_on a c k = record (insert_blocked a c k).1 { curr_proc = none }

-- NSYS3, Passeren
unfoldable pub nsys3 : Platform → ℕ → Kernel → Run
nsys3 P a1 k =
    if is_pos (k.mem a1)
    then some (store a1 (sub32 (k.mem a1) 1) k, load_state k.exc_state)
    else (do c ← k.curr_proc; some (dispatch P (block_on a1 c (save P c k))))

-- NSYS4 after `removeBlocked`.
unfoldable pub wake : ℕ → Option ℕ × Kernel → Kernel
wake a (none, k) = store a (add32 (k.mem a) 1) k
wake a (some p, k) = record k { ready_queue = insert_proc_q k.pcb_table p k.ready_queue }

-- NSYS4, Verhogen
unfoldable pub nsys4 : ℕ → Kernel → Option Kernel
nsys4 a1 k = do r ← remove_blocked a1 k; some (wake a1 r)

-- The index in `device_semaphores` that NSYS5 computes from a command register's address.
unfoldable pub io_index : Platform → ℕ → ℕ
io_index P a1 =
    let offset = sub32 a1 start_devreg in
    let reg_index = sdiv32 offset P.devregsize in
    let field_offset = srem32 offset P.devregsize in
    let line_index = sdiv32 reg_index P.devperint in
    let dev_no = srem32 reg_index P.devperint in
    let sem_index = add32 (line_index * P.devperint) dev_no in
    if (line_index == 4) && (field_offset == 0xC) then add32 sem_index P.devperint else sem_index

-- NSYS5, DoIO
unfoldable pub nsys5 : Platform → ℕ → ℕ → Kernel → Run
nsys5 P a1 a2 k =
    let sem_add = add32 P.device_semaphores (io_index P a1 * wordlen) in
    do
      c ← k.curr_proc
      let k1 = save P c k
      let k2 = record k1 { soft_block_count = add32 k1.soft_block_count 1 }
      let k3 = block_on sem_add c k2
      some (dispatch P (store a1 a2 k3))

-- NSYS6, GetCPUTime
unfoldable pub nsys6 : Platform → Kernel → Option Kernel
nsys6 P k = do
  c ← k.curr_proc
  let now = (stck P k).0
  let k1 = (stck P k).1
  some (set_exc_a0 P (add32 (k1.pcb_table c).p_time (sub32 now k1.tod_start)) k1)

-- NSYS7, WaitForClock
unfoldable pub nsys7 : Platform → Kernel → Run
nsys7 P k = do
  c ← k.curr_proc
  let k1 = save P c k
  let k2 = record k1 { soft_block_count = add32 k1.soft_block_count 1 }
  some (dispatch P (block_on (device_sem P nsuppsem) c k2))

-- NSYS8, GetSupportPtr
unfoldable pub nsys8 : Platform → Kernel → Option Kernel
nsys8 P k = do c ← k.curr_proc; some (set_exc_a0 P (k.pcb_table c).p_support_struct k)

-- The PID of a parent, 0 without one.
unfoldable pub parent_pid : Option ℕ → Kernel → ℕ
parent_pid none k = 0
parent_pid (some q) k = (k.pcb_table q).p_pid

-- NSYS9, GetProcessID
unfoldable pub nsys9 : Platform → ℕ → Kernel → Option Kernel
nsys9 P a1 k = do
  c ← k.curr_proc
  some (
      set_exc_a0 P
        (if a1 == 0 then (k.pcb_table c).p_pid else parent_pid (k.pcb_table c).p_parent k) k)

-- The ready queue after NSYS10: the old head stays in front of the process that yields.
unfoldable pub yield_queue : (ℕ → Pcb) → ℕ → Option ℕ × List ℕ → List ℕ
yield_queue t c (none, rest) = insert_proc_q t c rest
yield_queue t c (some h, rest) = h ∷ insert_proc_q t c rest

-- NSYS10, Yield
unfoldable pub nsys10 : Platform → Kernel → Run
nsys10 P k = do
  c ← k.curr_proc
  let k1 = save P c k
  some (
      dispatch P (record k1 {
        ready_queue = yield_queue k1.pcb_table c (remove_proc_q k1.ready_queue);
        curr_proc = none;
      }))
