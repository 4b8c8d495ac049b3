-- ===== src/Initial.antt =====
-- phase2/src/initial.c: the first process and the start of the nucleus.
use pand_ossh.Scheduler.{dispatch}
use pand_ossh.Asl.{init_asl}
use pand_ossh.Pcb.{insert_proc_q, init_pcbs, mk_empty_proc_q, alloc_pcb}
use pand_ossh.Common.{Option, [], add32, bit_or, none, some, update, ℕ, ◌>>=◌, ◌≡◌}
use pand_ossh.Machine.{
  ram_base_size, psecond, ram_base_addr, Run, mstatus_mpp_m, mstatus_mpie_mask, mie_all, Pcb,
  kernel_stack, modify_pcb, Platform, Kernel,
}

-- What `allocFirstPcb` does with the PCB that it gets; `RAMTOP` is the end of the RAM.
unfoldable pub first_pcb : Platform → Kernel → Pcb → Pcb
first_pcb P k b = record b {
  p_s = record b.p_s {
    pc_epc = P.test;
    mie = mie_all;
    status = bit_or mstatus_mpie_mask mstatus_mpp_m;
    gpr = update b.p_s.gpr P.reg_sp (add32 (k.mem ram_base_addr) (k.mem ram_base_size));
  };
  p_parent = none;
  p_child = [];
  p_time = 0;
  p_sem_add = 0;
  p_support_struct = 0;
}

-- `allocFirstPcb`; NULL from `allocPcb` would be written through.
unfoldable pub alloc_first_pcb : Platform → Kernel → Option (ℕ × Kernel)
alloc_first_pcb P k =
    (alloc_pcb P k).0 >>= λ p. some (p, modify_pcb p (first_pcb P k) (alloc_pcb P k).1)

-- `initVector`
unfoldable pub init_vector : Platform → Kernel → Kernel
init_vector P k = record k {
  vector = record {
    tlb_refill_handler = P.refill_handler;
    tlb_refill_stack_ptr = kernel_stack;
    exception_handler = P.exception_handler;
    exception_stack_ptr = kernel_stack;
  };
}

-- `main`, from the kernel's globals as the loader leaves them.
unfoldable pub main : Platform → Kernel → Run
main P k =
    let k1 = record k { ready_queue = mk_empty_proc_q } in
    let k2 = init_vector P (init_asl (init_pcbs k1)) in
    let k3 = record k2 { interval = psecond } in
    alloc_first_pcb P k3 >>= λ r.
    let k4 = r.1 in
    let k5 = record k4 { ready_queue = insert_proc_q k4.pcb_table r.0 k4.ready_queue } in
    some (dispatch P (record k5 { process_count = add32 k5.process_count 1 }))

-- The kernel's globals before `main`.
pub record IsLoaded (k : Kernel) : Type 0 where
  pub process_count : k.process_count ≡ 0
  pub soft_block_count : k.soft_block_count ≡ 0
  pub curr_proc : k.curr_proc ≡ none
  pub next_pid : k.next_pid ≡ 1
