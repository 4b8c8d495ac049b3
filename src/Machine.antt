-- ===== src/Machine.antt =====
-- headers/types.h and headers/const.h: the data of the kernel, and the machine under it.
-- Pointers: a PCB is its index in `pcbFree_table`, a semaphore and a support structure are their
-- addresses, `NULL` is `none` for a PCB and 0 for an address. A queue is the sequence of the PCBs on
-- it; Listx shows what the linked lists of headers/listx.h hold.
use pand_ossh.Common.{ℕ, suc, ◌+◌, ◌*◌, Bool, Option, List, update, neg32}

abbrev pub maxproc : ℕ
maxproc = 20

abbrev pub nsuppsem : ℕ
nsuppsem = 48

abbrev pub wordlen : ℕ
wordlen = 4

-- `NOPROC`, which is -1
abbrev pub noproc : ℕ
noproc = neg32 1

abbrev pub timeslice : ℕ
timeslice = 5000

abbrev pub psecond : ℕ
psecond = 100000

abbrev pub timescale_addr : ℕ
timescale_addr = 0x10000024

-- The addresses that hold the start and the size of the RAM.
abbrev pub ram_base_addr : ℕ
ram_base_addr = 0x10000000

abbrev pub ram_base_size : ℕ
ram_base_size = 0x10000004

abbrev pub kernel_stack : ℕ
kernel_stack = 0x20001000

abbrev pub start_devreg : ℕ
start_devreg = 0x10000054

abbrev pub mie_all : ℕ
mie_all = 0xFFFFFFFF

abbrev pub mstatus_mie_mask : ℕ
mstatus_mie_mask = 0x8

abbrev pub mstatus_mpie_mask : ℕ
mstatus_mpie_mask = 0x80

abbrev pub mstatus_mpp_mask : ℕ
mstatus_mpp_mask = 0x1800

abbrev pub mstatus_mpp_m : ℕ
mstatus_mpp_m = 0x1800

abbrev pub mstatus_mpp_u : ℕ
mstatus_mpp_u = 0x0000

-- `MIE_ALL & ~MIE_MTIE_MASK`, the interrupts that the idle CPU waits for
abbrev pub mie_idle : ℕ
mie_idle = 0xFFFFFFBF

-- PGFAULTEXCEPT and GENERALEXCEPT
abbrev pub pgfault_except : ℕ
pgfault_except = 0

abbrev pub general_except : ℕ
general_except = 1

abbrev pub getpageno : ℕ
getpageno = 0x3FFFF000

abbrev pub maxpages : ℕ
maxpages = 32

-- What the kernel takes from uriscv, the linker and the hardware.
pub record Platform : Type 0 where
  -- STATE_GPR_LEN, and the places of the named registers in `gpr`
  pub gpr_len : ℕ
  pub reg_sp : ℕ
  pub reg_a0 : ℕ
  pub reg_a1 : ℕ
  pub reg_a2 : ℕ
  pub reg_a3 : ℕ
  -- the n-th value that `STCK` reads
  pub clock : ℕ → ℕ
  -- the addresses of `device_semaphores[0]` and of the functions `test`,
  pub device_semaphores : ℕ
  pub test : ℕ
  -- `uTLB_RefillHandler` and `exceptionHandler`
  pub refill_handler : ℕ
  pub exception_handler : ℕ
  -- CAUSE_IS_INT and CAUSE_EXCCODE_MASK
  pub cause_is_int : ℕ → Bool
  pub cause_exccode_mask : ℕ
  -- DEVREGSIZE, DEVPERINT and ACK
  pub devregsize : ℕ
  pub devperint : ℕ
  pub ack : ℕ

-- `state_t`
pub record State : Type 0 where
  pub entry_hi : ℕ
  pub cause : ℕ
  pub status : ℕ
  pub pc_epc : ℕ
  pub mie : ℕ
  pub gpr : ℕ → ℕ

-- `context_t`
pub record Context : Type 0 where
  pub stack_ptr : ℕ
  pub status : ℕ
  pub pc : ℕ

-- `pteEntry_t`
pub record PteEntry : Type 0 where
  pub pte_entry_hi : ℕ
  pub pte_entry_lo : ℕ

-- `support_t`, less its two stacks, which no function reads
pub record Support : Type 0 where
  pub sup_asid : ℕ
  pub sup_except_state : ℕ → State
  pub sup_except_context : ℕ → Context
  pub sup_private_pg_tbl : ℕ → PteEntry

-- `pcb_t`; its place in a queue and among its siblings is kept by the queue
pub record Pcb : Type 0 where
  pub p_parent : Option ℕ
  pub p_child : List ℕ
  pub p_s : State
  pub p_time : ℕ
  pub p_sem_add : ℕ
  pub p_support_struct : ℕ
  pub p_prio : ℕ
  pub p_pid : ℕ

-- `semd_t`, with its index in `semd_table`
pub record Semd : Type 0 where
  pub index : ℕ
  pub s_key : ℕ
  pub s_procq : List ℕ

-- `passupvector_t` of uriscv, with the fields that the kernel sets
pub record PassUpVector : Type 0 where
  pub tlb_refill_handler : ℕ
  pub tlb_refill_stack_ptr : ℕ
  pub exception_handler : ℕ
  pub exception_stack_ptr : ℕ

-- The static variables of phase 1, the globals of phase 2, and the machine.
pub record Kernel : Type 0 where
  pub pcb_table : ℕ → Pcb
  pub pcb_free : List ℕ
  pub next_pid : ℕ
  pub asl : List Semd
  pub semd_free : List ℕ
  pub ready_queue : List ℕ
  pub process_count : ℕ
  pub soft_block_count : ℕ
  pub curr_proc : Option ℕ
  pub tod_start : ℕ
  -- memory by address: words, device registers included, processor states, support structures
  pub mem : ℕ → ℕ
  pub states : ℕ → State
  pub support : ℕ → Support
  -- the state that the BIOS saved at the exception
  pub exc_state : State
  -- how often `STCK` was called; the processor timer, the interval timer, `mie` and `status`
  pub readings : ℕ
  pub timer : ℕ
  pub interval : ℕ
  pub cpu_mie : ℕ
  pub cpu_status : ℕ
  -- EntryHI, EntryLO, and the entries that `TLBWR` wrote, the last first
  pub cpu_entry_hi : ℕ
  pub cpu_entry_lo : ℕ
  pub tlb : List PteEntry
  pub vector : PassUpVector

-- Where a handler leaves the processor: `LDST`, `LDCXT`, `HALT`, `PANIC`, `WAIT`, or a plain return
-- to the BIOS.
pub data Outcome : Type 0 where
  load_state : State → Outcome
  load_context : Context → Outcome
  halted panicked waits returned : Outcome

-- A run of kernel code that hands the processor on; `none` is a fault.
abbrev pub Run : Type 0
Run = Option (Kernel × Outcome)

abbrev pub set_pcb : ℕ → Pcb → Kernel → Kernel
set_pcb p b k = record k { pcb_table = update k.pcb_table p b }

abbrev pub store : ℕ → ℕ → Kernel → Kernel
store a v k = record k { mem = update k.mem a v }

-- `STCK(x)`: the value of the clock, and the kernel after the reading.
abbrev pub stck : Platform → Kernel → ℕ × Kernel
stck P k = (P.clock k.readings, record k { readings = suc k.readings })

-- `&device_semaphores[i]`
abbrev pub device_sem : Platform → ℕ → ℕ
device_sem P i = P.device_semaphores + i * wordlen

-- A PCB changed in place.
abbrev pub modify_pcb : ℕ → (Pcb → Pcb) → Kernel → Kernel
modify_pcb p f k = set_pcb p (f (k.pcb_table p)) k

-- A register of a state written.
abbrev pub set_reg : ℕ → ℕ → State → State
set_reg i v s = record s { gpr = update s.gpr i v }

-- `excState->reg_a0 = v`
abbrev pub set_exc_a0 : Platform → ℕ → Kernel → Kernel
set_exc_a0 P v k = record k { exc_state = set_reg P.reg_a0 v k.exc_state }
