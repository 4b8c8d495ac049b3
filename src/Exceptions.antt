-- ===== src/Exceptions.antt =====
-- phase2/src/exceptions.c: the entry points of the nucleus and their dispatch.
use pand_ossh.Common.{
  Option, add32, bit_and, bit_or, false, if◌then◌else◌, is_neg, leb, neg32, none, some, true,
  update, ℕ, ◌%◌, ◌&&◌, ◌*◌, ◌/◌, ◌==◌, ◌>>=◌, ◌^◌, ◌||◌, ◌∷◌,
}
use pand_ossh.Terminate.{nsys2}
use pand_ossh.Syscall.{nsys10, nsys9, nsys8, nsys7, nsys6, nsys5, nsys4, nsys3, nsys1}
use pand_ossh.Auxfun.{copy_state}
use pand_ossh.Interrupts.{interrupt_handler}
use pand_ossh.Machine.{
  set_exc_a0, maxpages, mstatus_mpp_u, mstatus_mpp_mask, getpageno, load_state, general_except,
  pgfault_except, load_context, wordlen, Run, Platform, Kernel, Outcome,
}

-- A handler that returns to `syscallHandler`, which then loads the saved state.
unfoldable pub resume : Option Kernel → Run
resume m = m >>= λ k. some (k, load_state k.exc_state)

-- `uTLB_RefillHandler`; a process without a support structure has no page table to read.
unfoldable pub tlb_refill_handler : Kernel → Run
tlb_refill_handler k =
    let missing_vpn = bit_and k.exc_state.entry_hi getpageno / 2 ^ 12 in
    do
      c ← k.curr_proc
      let sup = (k.pcb_table c).p_support_struct
      let e = (k.support sup).sup_private_pg_tbl (missing_vpn % maxpages)
      elim (sup == 0) [
        | true ↦ none
        | false ↦ some (
          record k {
            cpu_entry_hi = e.pte_entry_hi;
            cpu_entry_lo = e.pte_entry_lo;
            tlb = e ∷ k.tlb;
          },
          load_state k.exc_state,
        )
      ]

-- The "Pass Up" branch of `passUpOrDie`.
unfoldable pub pass_up : Platform → ℕ → ℕ → Kernel → Kernel × Outcome
pass_up P sup t k =
    let s = k.support sup in
    let old = copy_state P (s.sup_except_state t) k.exc_state in
    (
      record k {
        support =
            update k.support sup (record s { sup_except_state = update s.sup_except_state t old });
      },
      load_context (s.sup_except_context t),
    )

-- `passUpOrDie`
unfoldable pub pass_up_or_die : Platform → ℕ → Kernel → Run
pass_up_or_die P t k = do
  c ← k.curr_proc
  let sup = (k.pcb_table c).p_support_struct
  if sup == 0 then nsys2 P 0 k else some (pass_up P sup t k)

-- `exc_tlbHandler`
unfoldable pub exc_tlb_handler : Platform → Kernel → Run
exc_tlb_handler P k = pass_up_or_die P pgfault_except k

-- `exc_trapHandler`
unfoldable pub exc_trap_handler : Platform → Kernel → Run
exc_trap_handler P k = pass_up_or_die P general_except k

-- The PC behind the SYSCALL instruction.
abbrev pub advance_pc : Kernel → Kernel
advance_pc k = record k {
  exc_state = record k.exc_state { pc_epc = add32 k.exc_state.pc_epc wordlen };
}

-- A nucleus service called in user mode: the cause becomes PRIVINSTR.
abbrev pub privileged : Kernel → Kernel
privileged k = record k {
  exc_state = record k.exc_state {
    cause = bit_or (bit_and k.exc_state.cause 0xFFFFFF00) (10 * 2 ^ 2);
  };
}

-- The `switch` of `syscallHandler`.
unfoldable pub serve : Platform → (a0 a1 a2 a3 : ℕ) → Kernel → Run
serve P a0 a1 a2 a3 k =
    if a0 == neg32 1
    then (let (pid, k1) = nsys1 P a1 a2 a3 k in resume (some (set_exc_a0 P pid k1)))
    else if a0 == neg32 2
    then nsys2 P a1 k
    else if a0 == neg32 3
    then nsys3 P a1 k
    else if a0 == neg32 4
    then resume (nsys4 a1 k)
    else if a0 == neg32 5
    then nsys5 P a1 a2 k
    else if a0 == neg32 6
    then resume (nsys6 P k)
    else if a0 == neg32 7
    then nsys7 P k
    else if a0 == neg32 8
    then resume (nsys8 P k)
    else if a0 == neg32 9
    then resume (nsys9 P a1 k)
    else if a0 == neg32 10
    then nsys10 P k
    else exc_trap_handler P k

-- `syscallHandler`
unfoldable pub syscall_handler : Platform → Kernel → Run
syscall_handler P k =
    let a0 = k.exc_state.gpr P.reg_a0 in
    let a1 = k.exc_state.gpr P.reg_a1 in
    let a2 = k.exc_state.gpr P.reg_a2 in
    let a3 = k.exc_state.gpr P.reg_a3 in
    if is_neg a0 && (bit_and mstatus_mpp_mask k.exc_state.status == mstatus_mpp_u)
    then exc_trap_handler P (privileged k)
    else serve P a0 a1 a2 a3 (if is_neg a0 && leb (neg32 10) a0 then advance_pc k else k)

-- `exceptionHandler`
unfoldable pub exception_handler : Platform → Kernel → Run
exception_handler P k =
    let code = bit_and k.exc_state.cause P.cause_exccode_mask in
    if P.cause_is_int k.exc_state.cause
    then interrupt_handler P k
    else if leb 24 code && leb code 28
    then exc_tlb_handler P k
    else if (code == 8) || (code == 11)
    then syscall_handler P k
    else exc_trap_handler P k
