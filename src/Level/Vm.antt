-- ===== src/Level/Vm.antt =====
-- phase3/src/vmSupport.c: the swap pool and the pager.
use pand_ossh.Machine.{start_devreg, maxpages, PteEntry}
use pand_ossh.Level.{
  not_validon, do_io, validon, passeren, call, get_pte, verhogen, not_mie, dirtyon, call_effect,
  set_pte, kuseg, poolsize, uprocmax, Services, Swap, Level,
}
use pand_ossh.Common.{
  Option, bit_and, bit_or, if◌then◌else◌, is_neg, leb, neg32, none, some, sub32, suc, update, zero,
  ℕ, ◌%◌, ◌*◌, ◌+◌, ◌-◌, ◌==◌, ◌>>=◌, ◌^◌, ◌||◌,
}

-- The loop of `initPagetable`, up to the n-th entry.
unfoldable pub init_vm_pages : ℕ → ℕ → (ℕ → PteEntry) → ℕ → PteEntry
init_vm_pages asid zero t = t
init_vm_pages asid (suc n) t = update (init_vm_pages asid n t) n (record {
  pte_entry_hi = bit_or (kuseg + n * 2 ^ 12) ((asid * 2 ^ 6) % 2 ^ 32);
  pte_entry_lo = dirtyon;
})

-- `initPagetable`
unfoldable pub init_pagetable : (ℕ → PteEntry) → ℕ → ℕ → PteEntry
init_pagetable t asid = update (init_vm_pages asid 31 t) 31 (record {
  pte_entry_hi = bit_or (0xBFFFF * 2 ^ 12) ((asid * 2 ^ 6) % 2 ^ 32);
  pte_entry_lo = dirtyon;
})

-- A frame that nobody owns.
abbrev pub free_frame : Swap
free_frame = record { sw_asid = neg32 1; sw_page_no = neg32 1; sw_pte = none }

-- The loop of `initSwapPool`, up to the n-th frame.
unfoldable pub init_frames : ℕ → (ℕ → Swap) → ℕ → Swap
init_frames zero t = t
init_frames (suc n) t = update (init_frames n t) n free_frame

-- `initSwapPool`
unfoldable pub init_swap_pool : Services → Level → Level
init_swap_pool E l =
    call_effect E (verhogen E.swap_semaphore)
      (record l { swap_pool = init_frames poolsize l.swap_pool })

-- `pte->pte_entryLO &= ~VALIDON`
unfoldable pub invalidate : ℕ × ℕ → Level → Level
invalidate p l =
    set_pte p
      (record (get_pte p l) { pte_entry_lo = bit_and (get_pte p l).pte_entry_lo not_validon }) l

unfoldable pub invalidate_if : Option (ℕ × ℕ) → Level → Level
invalidate_if none l = l
invalidate_if (some p) l = invalidate p l

-- One round of the loop of `freeSwapFrames`.
unfoldable pub free_frame_of : ℕ → ℕ → Level → Level
free_frame_of asid j l =
    if (l.swap_pool j).sw_asid == asid
    then (let l1 = invalidate_if (l.swap_pool j).sw_pte l in
        record l1 { swap_pool = update l1.swap_pool j free_frame })
    else l

-- The first n rounds.
unfoldable pub free_frames : ℕ → ℕ → Level → Level
free_frames asid zero l = l
free_frames asid (suc n) l = free_frame_of asid n (free_frames asid n l)

-- `freeSwapFrames`; between the two system calls interrupts are off.
unfoldable pub free_swap_frames : Services → ℕ → Level → Level
free_swap_frames E asid l =
    let l1 = call_effect E (passeren E.swap_semaphore) l in
    let old_status = l1.status in
    let l2 = record l1 { status = bit_and old_status not_mie } in
    let l3 = free_frames asid poolsize l2 in
    let l4 = record l3 { tlb = E.cleared; status = old_status } in
    call_effect E (verhogen E.swap_semaphore) l4

-- `getFlashBlock`
unfoldable pub get_flash_block : ℕ → ℕ
get_flash_block vpn = if vpn == 0xBFFFF then 31 else sub32 vpn 0x80000

-- `getFlashRegister`; `none` is NULL.
unfoldable pub get_flash_register : ℕ → Option ℕ
get_flash_register asid =
    let dev_no = sub32 asid 1 in
    if is_neg dev_no || leb uprocmax dev_no
    then none
    else some (start_devreg + (4 - 3) * 0x80 + dev_no * 0x10)

-- `readWriteFlashdrive` with a register: DATA0 stands at offset 8, COMMAND at offset 4.
unfoldable pub start_flash : Services → Option ℕ → ℕ → ℕ → ℕ → Level → ℕ × Level
start_flash E none block frame op l = (neg32 1, l)
start_flash E (some reg) block frame op l =
    if is_neg block || leb maxpages block
    then (neg32 1, l)
    else (let l1 = record l { mem = update l.mem (reg + 8) frame } in
        call E (do_io (reg + 4) (bit_or ((block * 2 ^ 8) % 2 ^ 32) op)) l1)

-- `readWriteFlashdrive`
unfoldable pub read_write_flashdrive : Services → (asid vpn frame op : ℕ) → Level → ℕ × Level
read_write_flashdrive E asid vpn frame op l =
    start_flash E (get_flash_register asid) (get_flash_block vpn) frame op l

-- The loop of `pager` that looks for a free frame, from the frame j with n frames left.
unfoldable pub find_free_frame : (ℕ → Swap) → ℕ → ℕ → Option ℕ
find_free_frame pool j zero = none
find_free_frame pool j (suc n) =
    let rest = find_free_frame pool (j + 1) n in
    if (pool j).sw_asid == neg32 1 then some j else rest

-- The frame that `pager` takes: a free one, else the next in turn.
unfoldable pub pick_frame : Option ℕ → Level → ℕ × Level
pick_frame (some i) l = (i, l)
pick_frame none l = (l.fifo_cont, record l { fifo_cont = (l.fifo_cont + 1) % poolsize })

-- The update of the TLB: a cached entry is written again.
unfoldable pub refresh_tlb : Services → PteEntry → Level → Level
refresh_tlb E e l =
    let i = E.probe l.tlb e.pte_entry_hi in
    let l1 = record l { entry_hi = e.pte_entry_hi; index = i } in
    if bit_and i 0x80000000 == 0
    then (record l1 { entry_lo = e.pte_entry_lo; tlb = update l1.tlb (E.slot i) e })
    else l1

-- The owner's page table and the TLB once its page leaves the frame; a null pointer to the entry
-- would be written through.
unfoldable pub drop_page : Services → Option (ℕ × ℕ) → Level → Option Level
drop_page E none l = none
drop_page E (some p) l =
    let status = l.status in
    let l1 = invalidate p (record l { status = bit_and status not_mie }) in
    let l2 = refresh_tlb E (get_pte p l1) l1 in some (record l2 { status = status })

-- The branch of `pager` for an occupied frame.
unfoldable pub evict : Services → ℕ → ℕ → Level → Option Level
evict E i frame l =
    if (l.swap_pool i).sw_asid == neg32 1
    then some l
    else (let x = (l.swap_pool i).sw_asid in
        let k = (l.swap_pool i).sw_page_no in
        drop_page E (l.swap_pool i).sw_pte l >>= λ l1.
        some (read_write_flashdrive E x k frame 3 l1).1)

-- The swap pool, the page table and the TLB once the page is in the frame.
unfoldable pub install : Services → (sup i missing frame : ℕ) → Level → Level
install E sup i missing frame l =
    let p : ℕ × ℕ = (sup, get_flash_block missing) in
    let status = l.status in
    let l1 = record l {
      swap_pool =
          update l.swap_pool i
            (record { sw_asid = (l.supports sup).sup_asid; sw_page_no = missing; sw_pte = some p });
      status = bit_and status not_mie;
    } in
    let e = record (get_pte p l1) { pte_entry_lo = bit_or (bit_or frame dirtyon) validon } in
    let l2 = refresh_tlb E e (set_pte p e l1) in record l2 { status = status }
