-- ===== src/Interrupts.antt =====
-- phase2/src/interrupts.c: the timers and the devices.
use pand_ossh.Asl.Waiting.{waiting}
use pand_ossh.Scheduler.{dispatch}
use pand_ossh.Asl.{remove_blocked}
use pand_ossh.Pcb.{insert_proc_q}
use pand_ossh.Auxfun.{copy_state}
use pand_ossh.Common.{
  Option, add32, bit_and, if◌then◌else◌, leb, length, none, not, some, sub32, suc, zero, ℕ, ◌%◌,
  ◌&&◌, ◌*◌, ◌+◌, ◌-◌, ◌==◌, ◌>>=◌, ◌^◌,
}
use pand_ossh.Machine.{
  stck, psecond, timescale_addr, nsuppsem, timeslice, returned, device_sem, set_reg, Run, store,
  load_state, modify_pcb, start_devreg, wordlen, Platform, Kernel, Outcome,
}

-- The last line of the handlers: the interrupted process goes on, or there is none and the
-- scheduler picks one.
unfoldable pub go_on : Platform → Kernel → Kernel × Outcome
go_on P k = elim k.curr_proc [ none ↦ dispatch P k | some c ↦ (k, load_state k.exc_state) ]

-- The saved state goes into the PCB, and the PCB into the ready queue; `currProc` stays.
unfoldable pub requeue : Platform → ℕ → Kernel → Kernel
requeue P c k =
    let k1 = modify_pcb c (λ b. record b { p_s = copy_state P b.p_s k.exc_state }) k in
    record k1 { ready_queue = insert_proc_q k1.pcb_table c k1.ready_queue }

-- `pltInterruptHandler`. The PCB of `currProc` is written before the test for NULL.
unfoldable pub plt_interrupt_handler : Platform → Kernel → Run
plt_interrupt_handler P k =
    let k1 = record k { timer = (timeslice * k.mem timescale_addr) % 2 ^ 32 } in
    let now = (stck P k1).0 in
    let k2 = (stck P k1).1 in
    do
      c ← k2.curr_proc
      let k3 = modify_pcb c (λ b. record b { p_time = add32 b.p_time (sub32 now k2.tod_start) }) k2
      some (dispatch P (requeue P c k3))

-- The loop of `itInterruptHandler`, on fuel: every PCB that waits on `a` becomes ready.
unfoldable pub unblock_all : ℕ → ℕ → Kernel → Option Kernel
unblock_all zero a k = none
unblock_all (suc f) a k = remove_blocked a k >>= λ r. elim r.0 [
  | none ↦ some r.1
  | some p ↦ unblock_all f a (record r.1 {
    ready_queue = insert_proc_q r.1.pcb_table p r.1.ready_queue;
    soft_block_count = sub32 r.1.soft_block_count 1;
  })
]

-- The last lines of `itInterruptHandler`.
unfoldable pub requeue_current : Platform → Option ℕ → Kernel → Kernel
requeue_current P none k = k
requeue_current P (some c) k = requeue P c k

-- `itInterruptHandler`; each round of the loop takes one PCB of those that wait.
unfoldable pub it_interrupt_handler : Platform → Kernel → Run
it_interrupt_handler P k =
    let sem = device_sem P nsuppsem in
    let k1 = record k { interval = psecond } in
    unblock_all (suc (length (waiting sem k.asl))) sem k1 >>= λ k2.
    let k3 = store sem 0 k2 in some (dispatch P (requeue_current P k3.curr_proc k3))

-- The first `switch` of `deviceInterruptHandler`.
unfoldable pub int_line_no : ℕ → Option ℕ
int_line_no c =
    if c == 17
    then some 3
    else if c == 18
    then some 4
    else if c == 19
    then some 5
    else if c == 20
    then some 6
    else if c == 21
    then some 7
    else none

-- The search in the bitmap of pending devices, lowest first.
unfoldable pub dev_no : ℕ → Option ℕ
dev_no bitmap =
    if not (bit_and bitmap 0x1 == 0)
    then some 0
    else if not (bit_and bitmap 0x2 == 0)
    then some 1
    else if not (bit_and bitmap 0x4 == 0)
    then some 2
    else if not (bit_and bitmap 0x8 == 0)
    then some 3
    else if not (bit_and bitmap 0x10 == 0)
    then some 4
    else if not (bit_and bitmap 0x20 == 0)
    then some 5
    else if not (bit_and bitmap 0x40 == 0)
    then some 6
    else if not (bit_and bitmap 0x80 == 0)
    then some 7
    else none

abbrev pub map_addr : ℕ → ℕ
map_addr line = 0x10000040 + (line - 3) * wordlen

abbrev pub dev_addr : ℕ → ℕ → ℕ
dev_addr line dev = start_devreg + (line - 3) * 0x80 + dev * 0x10

-- What is read from and written to the device: the status, the semaphore, and the kernel after ACK.
abbrev pub Ack : Type 0
Ack = ℕ × ℕ × Kernel

-- A terminal: a completed transmission first, then a received character, else nothing.
unfoldable pub ack_terminal : Platform → ℕ → ℕ → Kernel → Option Ack
ack_terminal P addr idx k =
    let receive_status = k.mem addr in
    let transmission_status = k.mem (addr + 0x8) in
    if bit_and transmission_status 0xFF == 5
    then some (transmission_status, idx + P.devperint, store (addr + 0xC) P.ack k)
    else if bit_and receive_status 0xFF == 5
    then some (receive_status, idx, store (addr + 0x4) P.ack k)
    else none

-- The acknowledgement of a device on a line.
unfoldable pub ack_device : Platform → ℕ → ℕ → Kernel → Option Ack
ack_device P line dev k =
    let addr = dev_addr line dev in
    let idx = (line - 3) * P.devperint + dev in
    if line == 7
    then ack_terminal P addr idx k
    else some (k.mem addr, idx, store (addr + 0x4) P.ack k)

-- The V on the device's semaphore.
unfoldable pub complete : Platform → ℕ → ℕ → Option ℕ × Kernel → Kernel
complete P sem status (none, k) = store sem (add32 (k.mem sem) 1) k
complete P sem status (some p, k) =
    let k1 = modify_pcb p (λ b. record b { p_s = set_reg P.reg_a0 status b.p_s }) k in
    record k1 {
      ready_queue = insert_proc_q k1.pcb_table p k1.ready_queue;
      soft_block_count = sub32 k1.soft_block_count 1;
    }

-- `deviceInterruptHandler` once line and device are known.
unfoldable pub serve_device : Platform → Option Ack → Kernel → Run
serve_device P none k = some (go_on P k)
serve_device P (some (status, idx, k1)) k = remove_blocked (device_sem P idx) k1 >>= λ r.
    some (go_on P (complete P (device_sem P idx) status r))

-- `deviceInterruptHandler`; a line, a device or a terminal that shows nothing ends it early.
unfoldable pub device_interrupt_handler : Platform → ℕ → Kernel → Run
device_interrupt_handler P code k = elim (int_line_no code) [
  | none ↦ some (go_on P k)
  | some line ↦ elim (dev_no (k.mem (map_addr line))) [
    | none ↦ some (go_on P k)
    | some dev ↦ serve_device P (ack_device P line dev k) k
  ]
]

-- `interruptHandler`; for a cause that it does not know it returns.
unfoldable pub interrupt_handler : Platform → Kernel → Run
interrupt_handler P k =
    let code = bit_and k.exc_state.cause P.cause_exccode_mask in
    if code == 7
    then plt_interrupt_handler P k
    else if code == 3
    then it_interrupt_handler P k
    else if leb 17 code && leb code 21
    then device_interrupt_handler P code k
    else some (k, returned)
