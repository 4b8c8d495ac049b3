-- ===== src/Level/Tables.antt =====
-- The page tables of phase3/src/helpers.c against those who read them: the pager, which finds the
-- block of the flash device, and the TLB refill of phase2/src/exceptions.c.
use pand_ossh.Common.{
  Bool, Bool-cases, ap, arith, bit_and, bit_or, if◌then◌else◌, inl, inr, ltb, refl, suc, sym, true,
  zero, ℕ, ◌%◌, ◌&&◌, ◌*◌, ◌+◌, ◌-◌, ◌/◌, ◌<◌, ◌==◌, ◌^◌, ◌||◌, ◌∙◌, ◌≡◌, ◌≤◌,
}
use pand_ossh.Level.Pager.{missing_page}
use pand_ossh.Level.Uproc.{
  make_private_entry_hi, valid_asid, init_page_table_entry, init_page_table, init_pages,
}
use pand_ossh.Level.{dirtyon, pagesize, kuseg, userstacktop}
use pand_ossh.Level.Vm.{get_flash_block, init_pagetable, init_vm_pages}
use pand_ossh.Machine.{State, maxpages, Support, getpageno, PteEntry}

-- A test on all numbers below n.
abbrev all_below : ℕ → (ℕ → Bool) → Bool
all_below zero p = true
all_below (suc n) p = all_below n p && p n

all_below-at : (n i : ℕ) (p : ℕ → Bool) → all_below n p ≡ true → i < n → p i ≡ true
all_below-at zero i p h w = ground arith
all_below-at (suc n) i p h w = elim (Bool-cases (i == n)) [
  | inl last ↦ ground arith
  | inr before ↦ all_below-at n i p (ground arith) (ground arith)
]

-- The address of the i-th page.
abbrev page_address : ℕ → ℕ
page_address i = if i == 31 then userstacktop - pagesize else kuseg + i * pagesize

-- The page number and the ASID of an EntryHI.
abbrev page_number : ℕ → ℕ
page_number hi = bit_and hi (bit_or 0xC0000000 getpageno) / 2 ^ 12

abbrev pub asid_of : ℕ → ℕ
asid_of hi = bit_and hi 0xFC0 / 2 ^ 6

-- The EntryHI of `initPagetable`.
abbrev vm_entry_hi : ℕ → ℕ → ℕ
vm_entry_hi asid i =
    if i == 31
    then bit_or (0xBFFFF * 2 ^ 12) ((asid * 2 ^ 6) % 2 ^ 32)
    else bit_or (kuseg + i * 2 ^ 12) ((asid * 2 ^ 6) % 2 ^ 32)

-- What the readers of an entry need, as a test.
abbrev readable : ℕ → ℕ → Bool
readable asid i =
    let hi = make_private_entry_hi (page_address i) asid in
    (get_flash_block (page_number hi) == i)
    && (bit_and hi getpageno / 2 ^ 12 % maxpages == i)
    && (asid_of hi == asid)
    && (hi == vm_entry_hi asid i)

all_readable : all_below 9 (λ a. (a == 0) || all_below 32 (readable a)) ≡ true
unfolding make_private_entry_hi get_flash_block
all_readable = refl

valid_asid_bounds : (asid : ℕ) → valid_asid asid ≡ true → (0 < asid) × (asid < 9)
valid_asid_bounds asid v = (ground arith, ground arith)

skip_zero : (a : ℕ) (b : Bool) → 0 < a → ((a == 0) || b) ≡ true → b ≡ true
skip_zero a b low h = ground arith

entry-readable : (asid i : ℕ) → valid_asid asid ≡ true → i < 32 → readable asid i ≡ true
entry-readable asid i v w =
    let bounds = valid_asid_bounds asid v in
    all_below-at 32 i (readable asid)
      (skip_zero asid (all_below 32 (readable asid)) bounds.0
        (all_below-at 9 asid (λ a. (a == 0) || all_below 32 (readable a)) all_readable bounds.1))
      w

init_pages_lem :
    (asid n i : ℕ) (t : ℕ → PteEntry)
    → init_pages asid n t i
      ≡ (if ltb i n then init_page_table_entry (kuseg + i * pagesize) asid else t i)
unfolding init_pages
init_pages_lem asid zero i t = ground arith
init_pages_lem asid (suc n) i t = ground (arith, init_pages_lem asid n i t)

init_page_table_lem :
    (s : Support) (asid i : ℕ)
    → i < 32
    → (init_page_table s asid).sup_private_pg_tbl i ≡ init_page_table_entry (page_address i) asid
unfolding init_page_table
init_page_table_lem s asid i w = ground (arith, init_pages_lem asid 31 i s.sup_private_pg_tbl)

vm_entry : ℕ → ℕ → PteEntry
vm_entry asid i = record { pte_entry_hi = vm_entry_hi asid i; pte_entry_lo = dirtyon }

init_vm_pages_lem :
    (asid n i : ℕ) (t : ℕ → PteEntry)
    → n ≤ 31
    → init_vm_pages asid n t i ≡ (if ltb i n then vm_entry asid i else t i)
unfolding init_vm_pages vm_entry
init_vm_pages_lem asid zero i t w = ground arith
init_vm_pages_lem asid (suc n) i t w = ground (arith, init_vm_pages_lem asid n i t (omega arith))

init_pagetable_lem :
    (asid i : ℕ) (t : ℕ → PteEntry) → i < 32 → init_pagetable t asid i ≡ vm_entry asid i
unfolding init_pagetable vm_entry
init_pagetable_lem asid i t w = ground (arith, init_vm_pages_lem asid 31 i t (omega arith))

-- The entry of the i-th page of a process.
pub record IsEntry (asid i : ℕ) (e : PteEntry) : Type 0 where
  -- a page fault with its EntryHI reads block i
  pub block : (f : State) → f.entry_hi ≡ e.pte_entry_hi → get_flash_block (missing_page f) ≡ i
  -- a TLB miss with its EntryHI finds place i
  pub refill : bit_and e.pte_entry_hi getpageno / 2 ^ 12 % maxpages ≡ i
  pub owner : asid_of e.pte_entry_hi ≡ asid
  -- writable, not valid, private
  pub lo : e.pte_entry_lo ≡ dirtyon

-- In the page table of a process with a valid ASID the i-th entry carries that ASID and the number
-- of page i: the pager finds block i of the flash device from it, the refill handler place i of the
-- table, and it is writable and not valid.
pub init_page_table-IsEntry :
    (s : Support) (asid i : ℕ)
    → valid_asid asid ≡ true
    → i < 32
    → IsEntry asid i ((init_page_table s asid).sup_private_pg_tbl i)
unfolding init_page_table_entry missing_page
init_page_table-IsEntry s asid i v w =
    let ok = entry-readable asid i v w in
    rw (init_page_table_lem s asid i w) (record {
      block = λ f e. ap (λ hi. get_flash_block (page_number hi)) e ∙ ground arith;
      refill = ground arith;
      owner = ground arith;
      lo = refl;
    })

-- `initPagetable` of vmSupport.c and `initPageTable` of helpers.c build the same table.
pub init_pagetable-init_page_table :
    (s : Support) (asid i : ℕ)
    → valid_asid asid ≡ true
    → i < 32
    → init_pagetable s.sup_private_pg_tbl asid i ≡ (init_page_table s asid).sup_private_pg_tbl i
unfolding init_page_table_entry vm_entry
init_pagetable-init_page_table s asid i v w =
    let ok = entry-readable asid i v w in
    let same : vm_entry_hi asid i ≡ make_private_entry_hi (page_address i) asid = ground arith in
    init_pagetable_lem asid i s.sup_private_pg_tbl w
    ∙ ap (λ hi. record { pte_entry_hi = hi; pte_entry_lo = dirtyon }) same
    ∙ sym (init_page_table_lem s asid i w)
