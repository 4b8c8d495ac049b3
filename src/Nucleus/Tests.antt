-- ===== src/Nucleus/Tests.antt =====
-- A small kernel, and the theorems of the nucleus at it.
pub mod Processes
use pand_ossh.Nucleus.Withdraw.{ready}
use pand_ossh.Common.{
  [], arith, copies, if◌then◌else◌, leb, ltb, neg32, none, refl, some, ℕ, ◌*◌, ◌++◌, ◌+◌, ◌==◌, ◌^◌,
  ◌∷◌, ◌≡◌, ◌≤◌,
}
use pand_ossh.Exceptions.{exception_handler}
use pand_ossh.Nucleus.Entry.{idle_interrupt-Inv, exception_handler-Inv}
use pand_ossh.Nucleus.Blocking.{insert_blocked-Queued}
use pand_ossh.Nucleus.Terminate.{nsys2_loses_caller, end_process-Inv, end_process_stale}
use pand_ossh.Syscall.{nsys10, nsys4, nsys3, save}
use pand_ossh.Initial.{main}
use pand_ossh.Interrupts.{unblock_all}
use pand_ossh.Asl.Remove.{head_blocked_lem, remove_blocked-Removed, Removed}
use pand_ossh.Nucleus.Boot.{main-Starts, copies-add_entries, Starts}
use pand_ossh.Asl.{remove_blocked, out_blocked, insert_blocked, head_blocked}
use pand_ossh.Asl.Out.{out_blocked-Outcomes, Outcomes}
use pand_ossh.Pcb.{alloc_pcb, head_proc_q, remove_proc_q, add_entries, out_proc_q, insert_proc_q}
use pand_ossh.Nucleus.Semaphores.{nsys3-Passes, nsys4-Signals, Signals, Passes}
use pand_ossh.Pcb.Queue.{
  insert_proc_q_splits, remove_proc_q_max, lower, at_least, prio, insert_proc_q-IsOrdered,
  out_proc_q_lem, IsOrdered,
}
use pand_ossh.Auxfun.{copy_state-SameState, copy_state, SameState}
use pand_ossh.Terminate.{
  nsys2, terminate_process, terminate, first_found, search_in_tree, search_current, end_process,
  find_pcb_by_pid,
}
use pand_ossh.Nucleus.Yield.{nsys10-Yielded, Yielded}
use pand_ossh.Nucleus.Places.{Preserves, Inv, places}
use pand_ossh.Asl.Insert.{
  insert_blocked-Inserted, insert_blocked-IsValid, Inserted, IsValid, Queued,
}
use pand_ossh.Machine.{maxproc, Outcome, State, Platform, Support, Pcb, Kernel}
use pand_ossh.Nucleus.Timers.{unblock_all-Unblocks, Unblocks}
use pand_ossh.Pcb.Alloc.{alloc_pcb-Allocates, Allocates}

abbrev pub platform : Platform
platform = record {
  gpr_len = 31;
  reg_sp = 1;
  reg_a0 = 9;
  reg_a1 = 10;
  reg_a2 = 11;
  reg_a3 = 12;
  clock = λ n. n * 100;
  device_semaphores = 0x20010000;
  test = 0x20000100;
  refill_handler = 0x20000200;
  exception_handler = 0x20000300;
  cause_is_int = λ c. leb (2 ^ 31) c;
  cause_exccode_mask = 0x7FFFFFFF;
  devregsize = 16;
  devperint = 8;
  ack = 1;
}

abbrev pub blank_state : State
blank_state = record { entry_hi = 0; cause = 0; status = 0; pc_epc = 0; mie = 0; gpr = λ _. 0 }

abbrev pub blank_support : Support
blank_support = record {
  sup_asid = 1;
  sup_except_state = λ _. blank_state;
  sup_except_context = λ _. record { stack_ptr = 0; status = 0; pc = 0 };
  sup_private_pg_tbl = λ _. record { pte_entry_hi = 0; pte_entry_lo = 0 };
}

-- PCB p has PID p + 1; 18 and 19 are children of 17, and 19 names semaphore 100.
abbrev pub table : ℕ → Pcb
table p = record {
  p_parent = if ltb 17 p then some 17 else none;
  p_child = if p == 17 then 18 ∷ 19 ∷ [] else [];
  p_s = blank_state;
  p_time = 0;
  p_sem_add = if p == 19 then 100 else 0;
  p_support_struct = 0x1000;
  p_prio = 0;
  p_pid = p + 1;
}

-- The globals before `main`.
abbrev pub loaded : Kernel
loaded = record {
  pcb_table = table;
  pcb_free = [];
  next_pid = 1;
  asl = [];
  semd_free = [];
  ready_queue = [];
  process_count = 0;
  soft_block_count = 0;
  curr_proc = none;
  tod_start = 0;
  mem = λ _. 0;
  states = λ _. blank_state;
  support = λ _. blank_support;
  exc_state = blank_state;
  readings = 0;
  timer = 0;
  interval = 0;
  cpu_mie = 0;
  cpu_status = 0;
  cpu_entry_hi = 0;
  cpu_entry_lo = 0;
  tlb = [];
  vector = record {
    tlb_refill_handler = 0;
    tlb_refill_stack_ptr = 0;
    exception_handler = 0;
    exception_stack_ptr = 0;
  };
}

-- 17 runs, 18 is ready, 19 waits on semaphore 100, and the others are free. 17 asks for a V on
-- semaphore 100 (service -4) in kernel mode.
abbrev pub busy : Kernel
busy = record loaded {
  pcb_free = add_entries 17;
  next_pid = 21;
  asl = record { index = 19; s_key = 100; s_procq = 19 ∷ [] } ∷ [];
  semd_free = add_entries 19;
  ready_queue = 18 ∷ [];
  process_count = 3;
  curr_proc = some 17;
  exc_state = record blank_state {
    cause = 8;
    status = 0x1800;
    gpr = λ i. if i == 9 then neg32 4 else if i == 10 then 100 else 0;
  };
}

busy_once : (a : ℕ) → places a busy ≡ (if ltb a maxproc then 1 else 0)
busy_once a = ground (arith, copies-add_entries a 17)

pub busy-Inv : Inv busy
unfolding add_entries
busy-Inv = record {
  lists = record { distinct = (refl, tt); non_empty = (λ e. cc, tt); total = refl };
  once = busy_once;
  counted = refl;
}

main-Starts_example : Starts platform (main platform loaded)
main-Starts_example =
    main-Starts platform loaded
      (record { process_count = refl; soft_block_count = refl; curr_proc = refl; next_pid = refl })

remove_blocked-Removed_example : Removed 100 busy (remove_blocked 100 busy)
remove_blocked-Removed_example = remove_blocked-Removed 100 busy busy-Inv.lists

insert_blocked-Inserted_example : Inserted 100 17 busy (insert_blocked 100 17 busy)
insert_blocked-Inserted_example = insert_blocked-Inserted 100 17 busy

out_blocked-Outcomes_example : Outcomes 100 19 busy (out_blocked 19 busy)
out_blocked-Outcomes_example = out_blocked-Outcomes 19 busy busy-Inv.lists

nsys3-Passes_example : Passes platform 100 17 busy (nsys3 platform 100 busy)
nsys3-Passes_example = nsys3-Passes platform 100 17 busy busy-Inv refl

nsys4-Signals_example : Signals 100 busy (nsys4 100 busy)
nsys4-Signals_example = nsys4-Signals 100 busy busy-Inv

unblock_all-Unblocks_example : Unblocks 100 busy (unblock_all 5 100 busy)
unblock_all-Unblocks_example = unblock_all-Unblocks 5 100 busy busy-Inv (omega arith)

nsys10-Yielded_example :
    Yielded platform 17 18
      (insert_proc_q (save platform 17 busy).pcb_table 17 [])
      busy
      (nsys10 platform busy)
nsys10-Yielded_example = nsys10-Yielded platform 17 18 [] busy refl refl

alloc_pcb-Allocates_example : Allocates platform busy (alloc_pcb platform busy)
alloc_pcb-Allocates_example = alloc_pcb-Allocates platform busy

-- 19 was woken, and still names semaphore 100.
abbrev woken_kernel : Kernel
woken_kernel = record busy { asl = []; semd_free = 19 ∷ add_entries 19; ready_queue = 18 ∷ 19 ∷ [] }

woken_kernel_once : (a : ℕ) → places a woken_kernel ≡ (if ltb a maxproc then 1 else 0)
woken_kernel_once a = ground (arith, copies-add_entries a 17)

woken_kernel-Inv : Inv woken_kernel
unfolding add_entries
woken_kernel-Inv = record {
  lists = record { distinct = tt; non_empty = tt; total = refl };
  once = woken_kernel_once;
  counted = refl;
}

end_process_stale_example : places 19 (end_process platform 19 woken_kernel) ≡ 2
end_process_stale_example =
    end_process_stale platform 19 woken_kernel woken_kernel-Inv
      (record { other = refl; sem = λ e. omega arith; ready = omega arith })

-- 17 terminates 18 (PID 19) while 19 is ready.
nsys2_loses_caller_example :
    (k : Kernel) × (o : Outcome) × (nsys2 platform 19 woken_kernel ≡ some (k, o))
    × (places 17 k ≡ 0)
unfolding find_pcb_by_pid search_current search_in_tree first_found terminate terminate_process
    pand_ossh.Pcb.remove_child end_process pand_ossh.Pcb.free_pcb pand_ossh.Pcb.out_child
    pand_ossh.Terminate.withdraw out_proc_q
nsys2_loses_caller_example =
    nsys2_loses_caller platform woken_kernel (end_process platform 18 woken_kernel) 19 18 17 refl
      refl refl (end_process-Inv platform 18 woken_kernel woken_kernel-Inv (ready refl refl refl))
      refl (λ e. cc)

insert_proc_q_splits_example :
    insert_proc_q table 17 (18 ∷ []) ≡ at_least table 17 (18 ∷ []) ++ 17 ∷ lower table 17 (18 ∷ [])
insert_proc_q_splits_example = insert_proc_q_splits table 17 (18 ∷ []) (tt, tt)
