-- ===== src/Scheduler.antt =====
-- phase2/src/scheduler.c: the choice of the next process.
use pand_ossh.Pcb.{remove_proc_q}
use pand_ossh.Common.{
  List, Option, bit_or, if◌then◌else◌, is_pos, none, some, ℕ, ◌%◌, ◌*◌, ◌==◌, ◌^◌,
}
use pand_ossh.Machine.{
  panicked, waits, load_state, stck, mstatus_mie_mask, timescale_addr, mie_idle, halted, timeslice,
  Platform, Kernel, Outcome,
}

-- The body of the loop, with an empty ready queue: `HALT`, `WAIT` with all interrupts but the
-- processor timer on, or `PANIC`. The interrupt that ends a `WAIT` enters the kernel anew.
unfoldable pub idle : Kernel → Kernel × Outcome
idle k =
    if k.process_count == 0
    then (k, halted)
    else if is_pos k.soft_block_count
    then (record k { cpu_mie = mie_idle; cpu_status = bit_or k.cpu_status mstatus_mie_mask }, waits)
    else (k, panicked)

-- What stands behind the loop, for the PCB that `removeProcQ` returned and the queue that it left.
unfoldable pub start : Platform → ℕ → List ℕ → Kernel → Kernel × Outcome
start P p rest k = (
  record k {
    ready_queue = rest;
    curr_proc = some p;
    timer = (timeslice * k.mem timescale_addr) % 2 ^ 32;
    tod_start = (stck P k).0;
    readings = (stck P k).1.readings;
  },
  load_state (k.pcb_table p).p_s,
)

unfoldable pub dispatch_from : Platform → Option ℕ × List ℕ → Kernel → Kernel × Outcome
unfolding idle start
dispatch_from P (none, rest) k = idle k
dispatch_from P (some p, rest) k = start P p rest k

-- `dispatch`. The loop ends when `removeProcQ` finds a PCB.
unfoldable pub dispatch : Platform → Kernel → Kernel × Outcome
unfolding dispatch_from remove_proc_q
dispatch P k = dispatch_from P (remove_proc_q k.ready_queue) k
