-- ===== src/Level/Uproc.antt =====
-- phase3/src/helpers.c and `createUProc` of phase3/src/initProc.c: the start of a U-proc.
use pand_ossh.Auxfun.{copy_gprs}
use pand_ossh.Level.{
  create_process, call, pagesize, set_support, uprocstartaddr, dirtyon, Level, userstacktop, kuseg,
  uprocmax, Services,
}
use pand_ossh.Machine.{
  mie_all, mstatus_mpp_u, pgfault_except, general_except, mstatus_mie_mask, State, Support,
  PteEntry, mstatus_mpp_m, getpageno, Platform,
}
use pand_ossh.Common.{
  Bool, Option, bit_and, bit_or, if◌then◌else◌, is_pos, leb, none, not, some, suc, update, zero, ℕ,
  ◌%◌, ◌&&◌, ◌*◌, ◌+◌, ◌-◌, ◌==◌, ◌>>=◌, ◌^◌, ◌||◌,
}

-- `clearState`
unfoldable pub clear_state : Platform → State → State
clear_state P s = record {
  entry_hi = 0;
  cause = 0;
  status = 0;
  pc_epc = 0;
  mie = 0;
  gpr = copy_gprs P.gpr_len s.gpr (λ _. 0);
}

-- `makePrivateEntryHI`
unfoldable pub make_private_entry_hi : ℕ → ℕ → ℕ
make_private_entry_hi address asid =
    let vpn = bit_and address getpageno in
    let private_segment = (0x2 * 2 ^ 30) % 2 ^ 32 in
    let process_asid = (asid * 2 ^ 6) % 2 ^ 32 in bit_or (bit_or vpn private_segment) process_asid

-- `initPageTableEntry`
unfoldable pub init_page_table_entry : ℕ → ℕ → PteEntry
init_page_table_entry address asid = record {
  pte_entry_hi = make_private_entry_hi address asid;
  pte_entry_lo = dirtyon;
}

-- The loop of `initPageTable`, up to the n-th entry.
unfoldable pub init_pages : ℕ → ℕ → (ℕ → PteEntry) → ℕ → PteEntry
init_pages asid zero t = t
init_pages asid (suc n) t =
    update (init_pages asid n t) n (init_page_table_entry (kuseg + n * pagesize) asid)

-- `initPageTable`
unfoldable pub init_page_table : Support → ℕ → Support
init_page_table s asid = record s {
  sup_private_pg_tbl =
      update (init_pages asid 31 s.sup_private_pg_tbl) 31
        (init_page_table_entry (userstacktop - pagesize) asid);
}

-- `initInitialProcessorState`
unfoldable pub init_processor_state : Platform → State → ℕ → State
init_processor_state P s asid =
    let c = clear_state P s in
    record c {
      pc_epc = uprocstartaddr;
      gpr = update c.gpr P.reg_sp userstacktop;
      status = bit_or mstatus_mpp_u mstatus_mie_mask;
      mie = mie_all;
      entry_hi = (asid * 2 ^ 6) % 2 ^ 32;
    }

-- SUPPORT_STATUS
abbrev pub support_status : ℕ
support_status = bit_or mstatus_mpp_m mstatus_mie_mask

-- `initPageFaultContext`; the stacks stand inside the structure at the address p.
unfoldable pub init_page_fault_context : Services → ℕ → Support → Support
init_page_fault_context E p s = record s {
  sup_except_context =
      update s.sup_except_context pgfault_except
        (record { stack_ptr = p + E.stack_tlb_end; status = support_status; pc = E.pager_address });
}

-- `initGeneralExceptionContext`
unfoldable pub init_general_exception_context : Services → ℕ → Support → Support
init_general_exception_context E p s = record s {
  sup_except_context = update s.sup_except_context general_except (record {
    stack_ptr = p + E.stack_gen_end;
    status = support_status;
    pc = E.general_handler_address;
  });
}

-- An `asid` as the guards want it.
abbrev pub valid_asid : ℕ → Bool
valid_asid asid = is_pos asid && leb asid uprocmax

-- `initUProc`; `none` is PANIC.
unfoldable pub init_uproc : Services → ℕ → ℕ → ℕ → Level → Option Level
init_uproc E asid state support l =
    if not (valid_asid asid) || (state == 0) || (support == 0)
    then none
    else (let s1 = record (l.supports support) { sup_asid = asid } in
        let s2 = init_page_fault_context E support s1 in
        let s3 = init_general_exception_context E support s2 in
        let s4 = init_page_table s3 asid in
        some (record (set_support support s4 l) {
          states = update l.states state (init_processor_state E.platform (l.states state) asid);
        }))

-- `&supportPool[asid - 1]`
abbrev pub support_of : Services → ℕ → ℕ
support_of E asid = E.support_pool + (asid - 1) * E.support_size

-- `createUProc`; `none` is PANIC.
unfoldable pub create_uproc : Services → ℕ → Level → Option (ℕ × Level)
create_uproc E asid l = if not (valid_asid asid) then none else (do
  l1 ← init_uproc E asid E.proc_state (support_of E asid) l
  some (call E (create_process E.proc_state 0 (support_of E asid)) l1))
