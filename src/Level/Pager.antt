-- ===== src/Level/Pager.antt =====
-- `pager` of phase3/src/vmSupport.c.
use pand_ossh.Level.Calls.{program_trap_handler}
use pand_ossh.Level.Vm.{read_write_flashdrive, evict, find_free_frame, install, pick_frame}
use pand_ossh.Level.{
  passeren, poolsize, resumed, get_support_ptr, verhogen, call, call_effect, pagesize, End,
  flashpoolstart, Services, Level,
}
use pand_ossh.Machine.{getpageno, pgfault_except, State}
use pand_ossh.Common.{
  Option, bit_and, bit_or, if◌then◌else◌, some, sub32, update, ℕ, ◌*◌, ◌+◌, ◌/◌, ◌==◌, ◌>>=◌, ◌^◌,
}

-- `sup_exceptState[PGFAULTEXCEPT]`
abbrev pub fault_of : ℕ → Level → State
fault_of sup l = (l.supports sup).sup_except_state pgfault_except

-- The mutex of the swap pool goes back to its semaphore.
unfoldable pub unlock_swap : Services → ℕ → Level → Level
unlock_swap E sup l =
    let asid = (l.supports sup).sup_asid in
    call_effect E (verhogen E.swap_semaphore)
      (record l { holding_swap_mutex = update l.holding_swap_mutex (sub32 asid 1) 0 })

-- `pager` once the page is read, by the status of the flash device.
unfoldable pub finish_fault : Services → (sup i missing frame status : ℕ) → Level → End
finish_fault E sup i missing frame status l =
    if status == 1
    then (let l1 = unlock_swap E sup (install E sup i missing frame l) in
        (l1, resumed (fault_of sup l1)))
    else program_trap_handler E sup (unlock_swap E sup l)

-- The frame i of the swap pool as an address.
abbrev pub frame_address : ℕ → ℕ
frame_address i = flashpoolstart + i * pagesize

-- `pager` with the mutex held.
unfoldable pub load_page : Services → (sup missing : ℕ) → Level → Option End
load_page E sup missing l =
    let picked = pick_frame (find_free_frame l.swap_pool 0 poolsize) l in
    let i = picked.0 in
    let frame = frame_address i in
    do
      l1 ← evict E i frame picked.1
      let r = read_write_flashdrive E (l1.supports sup).sup_asid missing frame 2 l1
      some (finish_fault E sup i missing frame r.0 r.1)

-- `missingPageNo`
unfoldable pub missing_page : State → ℕ
missing_page s = bit_and s.entry_hi (bit_or 0xC0000000 getpageno) / 2 ^ 12

-- `pager`; `none` is a write through a null pointer.
unfoldable pub pager : Services → Level → Option End
pager E l =
    let sup = (call E get_support_ptr l).0 in
    let l1 = (call E get_support_ptr l).1 in
    let cause = bit_and (fault_of sup l1).cause E.platform.cause_exccode_mask in
    if cause == E.exc_mod
    then some (program_trap_handler E sup l1)
    else (let l2 = call_effect E (passeren E.swap_semaphore) l1 in
        let l3 = record l2 {
          holding_swap_mutex = update l2.holding_swap_mutex (sub32 (l2.supports sup).sup_asid 1) 1;
        } in
        load_page E sup (missing_page (fault_of sup l3)) l3)
