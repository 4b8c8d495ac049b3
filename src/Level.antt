-- ===== src/Level.antt =====
-- The state of the support level (phase3/src), and what it rests on. A system call hands the CPU to
-- the nucleus and to other processes: what they do until the call returns is a parameter.
pub mod Uproc
pub mod Vm
pub mod Calls
pub mod Frames
pub mod Terminal
pub mod Kept
pub mod Reading
pub mod Locks
pub mod Mutex
pub mod Unlock
pub mod Tables
pub mod Choice
pub mod Tests
pub mod Pager
use pand_ossh.Common.{
  ==_iff, ==_self, Bool, Bool-cases, List, Option, Option-cases, [], add32, ap, append-nil,
  append_assoc, arith, biased, bind_some, bit_and, bit_or, contains, contains-copies, copies,
  copies-append, copies-remove, false, if◌then◌else◌, inl, inr, is_neg, is_pos, is_some, leb,
  length, length-append, ltb, neg32, none, not, not_contains-copies, refl, remove, remove_absent,
  sdiv32, slt32, some, srem32, sub32, subst, suc, sym, true, update, zero, ℕ, ◌%◌, ◌&&◌, ◌*◌, ◌++◌,
  ◌+◌, ◌-◌, ◌/◌, ◌<◌, ◌==◌, ◌>>=◌, ◌^◌, ◌||◌, ◌↔◌, ◌∙◌, ◌∷◌, ◌≡◌, ◌≢◌, ◌≤◌, ◌⊎◌,
}
use pand_ossh.Machine.{Support, State, PteEntry, Platform, Outcome}

-- `swap_t`; a pointer to a page table entry is the address of the support structure and the index.
pub record Swap : Type 0 where
  pub sw_asid : ℕ
  pub sw_page_no : ℕ
  pub sw_pte : Option (ℕ × ℕ)

-- The system calls of the nucleus that the support level makes.
pub data Call : Type 0 where
  passeren verhogen : ℕ → Call
  do_io : ℕ → ℕ → Call
  create_process : ℕ → ℕ → ℕ → Call
  get_support_ptr term_process : Call

pub record Level : Type 0 where
  pub swap_pool : ℕ → Swap
  pub holding_swap_mutex : ℕ → ℕ
  pub fifo_cont : ℕ
  -- memory by address: support structures, processor states, words, and characters
  pub supports : ℕ → Support
  pub states : ℕ → State
  pub mem : ℕ → ℕ
  pub chars : ℕ → ℕ
  -- STATUS, EntryHI, EntryLO, Index, and the entries of the TLB by slot
  pub status : ℕ
  pub entry_hi : ℕ
  pub entry_lo : ℕ
  pub index : ℕ
  pub tlb : ℕ → PteEntry
  -- the calls made so far, the last first
  pub trace : List Call

-- What the support level takes from the nucleus, uriscv, the linker and the hardware.
pub record Services : Type 0 where
  pub platform : Platform
  -- the result of a call, and the state when it returns
  pub syscall : Call → Level → ℕ × Level
  -- `TLBP`, the slot that `TLBWI` writes, and the entries after `TLBCLR`
  pub probe : (ℕ → PteEntry) → ℕ → ℕ
  pub slot : ℕ → ℕ
  pub cleared : ℕ → PteEntry
  -- EXC_MOD
  pub exc_mod : ℕ
  -- the address of the terminal's registers, DEV_REG_ADDR(IL_TERMINAL, 0)
  pub terminal : ℕ
  -- addresses of variables and functions, the size of `support_t`, the places of its two stacks' ends
  pub swap_semaphore : ℕ
  pub master_semaphore : ℕ
  pub shell_semaphore : ℕ
  pub term_write_semaphore : ℕ
  pub term_read_semaphore : ℕ
  pub support_pool : ℕ
  pub support_size : ℕ
  pub stack_tlb_end : ℕ
  pub stack_gen_end : ℕ
  pub pager_address : ℕ
  pub general_handler_address : ℕ
  pub proc_state : ℕ

-- How a function of the support level gives up control: `LDST`, the termination of its process, or
-- `PANIC`.
pub data Exit : Type 0 where
  resumed : State → Exit
  terminated panicked : Exit

abbrev pub End : Type 0
End = Level × Exit

-- `SYSCALL`
unfoldable pub call : Services → Call → Level → ℕ × Level
call E c l = E.syscall c (record l { trace = c ∷ l.trace })

-- `SYSCALL` for its effect.
abbrev pub call_effect : Services → Call → Level → Level
call_effect E c l = (call E c l).1

abbrev pub uprocmax : ℕ
uprocmax = 8

abbrev pub poolsize : ℕ
poolsize = 16

abbrev pub pagesize : ℕ
pagesize = 4096

abbrev pub kuseg : ℕ
kuseg = 0x80000000

abbrev pub userstacktop : ℕ
userstacktop = 0xC0000000

abbrev pub uprocstartaddr : ℕ
uprocstartaddr = 0x800000B0

abbrev pub dirtyon : ℕ
dirtyon = 0x400

abbrev pub validon : ℕ
validon = 0x200

-- `~VALIDON` and `~MSTATUS_MIE_MASK`
abbrev pub not_validon : ℕ
not_validon = 0xFFFFFDFF

abbrev pub not_mie : ℕ
not_mie = 0xFFFFFFF7

-- `FLASHPOOLSTART`
abbrev pub flashpoolstart : ℕ
flashpoolstart = 0x20000000 + 32 * pagesize

abbrev pub maxstrleng : ℕ
maxstrleng = 128

abbrev pub shell_asid : ℕ
shell_asid = 1

-- A support structure and an entry of a page table, written.
abbrev pub set_support : ℕ → Support → Level → Level
set_support p s l = record l { supports = update l.supports p s }

abbrev pub set_pte : ℕ × ℕ → PteEntry → Level → Level
set_pte (p, i) e l =
    let s = l.supports p in
    set_support p (record s { sup_private_pg_tbl = update s.sup_private_pg_tbl i e }) l

abbrev pub get_pte : ℕ × ℕ → Level → PteEntry
get_pte (p, i) l = (l.supports p).sup_private_pg_tbl i
