-- ===== src/Level/Mutex.antt =====
-- `pager` and `sys2`: the mutex of the swap pool is given back on every path.
use pand_ossh.Common.{
  Bool-cases, Option, arith, bit_and, bit_or, inl, inr, is_neg, is_some, leb, neg32, none, refl,
  some, sub32, subst, true, update, ℕ, ◌<◌, ◌==◌, ◌>>=◌, ◌||◌, ◌≡◌,
}
use pand_ossh.Machine.{maxpages, PteEntry}
use pand_ossh.Level.Locks.{
  update-IsMapped, set_pte-Counts, Mapped, unlock-Counts, lock-Counts, free_frames-Counts,
  Counts-same, Counts-trans, call-Counts, Counts-refl, unlock_of, Counts, IsPrivate,
}
use pand_ossh.Level.{
  set_pte, validon, dirtyon, get_pte, poolsize, term_process, not_mie, passeren, call_effect,
  shell_asid, verhogen, Level, Services,
}
use pand_ossh.Level.Calls.{release_swap_mutex, sys2, awaited_by}
use pand_ossh.Level.Vm.{
  invalidate, drop_page, evict, free_frames, get_flash_block, get_flash_register, start_flash,
  free_swap_frames, read_write_flashdrive, refresh_tlb, install,
}

free_swap_frames-Counts :
    (E : Services) (s x asid : ℕ) (l : Level)
    → IsPrivate E s x
    → Counts E s x 1 1 l (free_swap_frames E asid l)
unfolding free_swap_frames
free_swap_frames-Counts E s x asid l h =
    let l1 = call_effect E (passeren E.swap_semaphore) l in
    let l2 = record l1 { status = bit_and l1.status not_mie } in
    let l3 = free_frames asid poolsize l2 in
    let l4 = record l3 { tlb = E.cleared; status = l1.status } in
    let inner : Counts E s x 0 0 l1 l4 =
      Counts-same E s x 0 0 l2 l1 l3 l4 (refl, refl, refl) (refl, refl, refl) (λ h. h) (λ h. h)
        (free_frames-Counts E s x asid poolsize l2) in
    Counts-trans E s x 1 0 0 1 l l4 _
      (Counts-trans E s x 1 0 0 0 l l1 l4 (lock-Counts E s x l h) inner) (unlock-Counts E s x l4 h)

-- The semaphore that waits for a process is not the mutex.
awaited-unlock :
    (E : Services) (s x asid : ℕ) → IsPrivate E s x → unlock_of E (verhogen (awaited_by E asid)) ≡ 0
unfolding awaited_by
awaited-unlock E s x asid h = elim (Bool-cases (asid == shell_asid)) [
  | inl shell ↦ rw shell (ground (arith, h.master))
  | inr other ↦ rw other (ground (arith, h.shell))
]

-- A process that does not hold the mutex takes it and gives it back while it ends.
pub sys2-Counts :
    (E : Services) (s x : ℕ) (l : Level)
    → IsPrivate E s x
    → sub32 (l.supports s).sup_asid 1 ≡ x
    → l.holding_swap_mutex x ≡ 0
    → Counts E s x 1 1 l (sys2 E s l).0
unfolding sys2 release_swap_mutex
sys2-Counts E s x l h own free =
    let asid = (l.supports s).sup_asid in
    let l1 = call_effect E (verhogen (awaited_by E asid)) l in
    let l2 = free_swap_frames E asid l1 in
    let woken : Counts E s x 0 0 l l1 =
      subst (λ n. Counts E s x 0 n l l1) (awaited-unlock E s x asid h)
        (call-Counts E s x (verhogen (awaited_by E asid)) l h) in
    let freed : Counts E s x 1 1 l l2 =
      Counts-trans E s x 0 1 0 1 l l1 l2 woken (free_swap_frames-Counts E s x asid l1 h) in
    rw (own, free) (Counts-trans E s x 1 0 1 0 l l2 _ freed (call-Counts E s x term_process l2 h))

start_flash-Counts :
    (E : Services) (s x : ℕ) (r : Option ℕ) (block frame op : ℕ) (l : Level)
    → IsPrivate E s x
    → Counts E s x 0 0 l (start_flash E r block frame op l).1
unfolding start_flash
start_flash-Counts E s x none block frame op l h = Counts-refl E s x l
start_flash-Counts E s x (some reg) block frame op l h =
    elim (Bool-cases (is_neg block || leb maxpages block)) [
      | inl bad ↦ rw bad (Counts-refl E s x l)
      | inr good ↦ rw good (
          Counts-same E s x 0 0 _ l _ _ (refl, refl, refl) (refl, refl, refl) (λ h. h) (λ h. h)
            (call-Counts E s x _ _ h))
    ]

pub read_write_flashdrive-Counts :
    (E : Services) (s x asid vpn frame op : ℕ) (l : Level)
    → IsPrivate E s x
    → Counts E s x 0 0 l (read_write_flashdrive E asid vpn frame op l).1
unfolding read_write_flashdrive
read_write_flashdrive-Counts E s x asid vpn frame op l h =
    start_flash-Counts E s x (get_flash_register asid) (get_flash_block vpn) frame op l h

refresh_tlb-Counts :
    (E : Services) (s x : ℕ) (e : PteEntry) (l : Level) → Counts E s x 0 0 l (refresh_tlb E e l)
unfolding refresh_tlb
refresh_tlb-Counts E s x e l =
    elim (Bool-cases (bit_and (E.probe l.tlb e.pte_entry_hi) 0x80000000 == 0)) [
      | inl cached ↦ rw cached (record {
        locked = omega arith;
        unlocked = omega arith;
        flag = refl;
        asid = refl;
        pool = λ h. h;
      })
      | inr absent ↦ rw absent (record {
        locked = omega arith;
        unlocked = omega arith;
        flag = refl;
        asid = refl;
        pool = λ h. h;
      })
    ]

pub install-Counts :
    (E : Services) (s x i missing frame : ℕ) (l : Level)
    → Counts E s x 0 0 l (install E s i missing frame l)
unfolding install
install-Counts E s x i missing frame l =
    let p : ℕ × ℕ = (s, get_flash_block missing) in
    let l1 = record l {
      swap_pool =
          update l.swap_pool i
            (record { sw_asid = (l.supports s).sup_asid; sw_page_no = missing; sw_pte = some p });
      status = bit_and l.status not_mie;
    } in
    let e = record (get_pte p l1) { pte_entry_lo = bit_or (bit_or frame dirtyon) validon } in
    let l2 = set_pte p e l1 in
    let l3 = refresh_tlb E e l2 in
    Counts-same E s x 0 0 l1 l l3 _ (refl, refl, refl) (refl, refl, refl)
      (λ h. (update-IsMapped l.swap_pool i _ (inr refl) h.0, h.1)) (λ h. h)
      (Counts-trans E s x 0 0 0 0 l1 l2 l3 (set_pte-Counts E s x p e l1)
        (refresh_tlb-Counts E s x e l2))

-- Making room in the pool makes no call on the mutex, and does not go through a null pointer.
abbrev pub Counted : Services → ℕ → ℕ → Level → Option Level → Type 0
Counted E s x l none = ⊥
Counted E s x l (some m) = Counts E s x 0 0 l m

drop_page-Counts :
    (E : Services) (s x : ℕ) (o : Option (ℕ × ℕ)) (l : Level)
    → is_some o ≡ true
    → Counted E s x l (drop_page E o l)
unfolding drop_page invalidate
drop_page-Counts E s x none l e = ground arith
drop_page-Counts E s x (some p) l e =
    let l1 = record l { status = bit_and l.status not_mie } in
    let l2 = invalidate p l1 in
    Counts-same E s x 0 0 l1 l _ _ (refl, refl, refl) (refl, refl, refl) (λ h. h) (λ h. h)
      (Counts-trans E s x 0 0 0 0 l1 l2 _ (set_pte-Counts E s x p _ l1)
        (refresh_tlb-Counts E s x _ l2))

write_back-Counts :
    (E : Services) (s x a k frame : ℕ) (l : Level) (o : Option Level)
    → IsPrivate E s x
    → Counted E s x l o
    → Counted E s x l (o >>= λ l1. some (read_write_flashdrive E a k frame 3 l1).1)
write_back-Counts E s x a k frame l none h c = c
write_back-Counts E s x a k frame l (some l1) h c =
    Counts-trans E s x 0 0 0 0 l l1 _ c (read_write_flashdrive-Counts E s x a k frame 3 l1 h)

pub evict-Counts :
    (E : Services) (s x i frame : ℕ) (l : Level)
    → IsPrivate E s x
    → Mapped l
    → i < poolsize
    → Counted E s x l (evict E i frame l)
unfolding evict
evict-Counts E s x i frame l h mapped w = elim (Bool-cases ((l.swap_pool i).sw_asid == neg32 1)) [
  | inl free ↦ rw free (Counts-refl E s x l)
  | inr owned ↦
      let there : is_some (l.swap_pool i).sw_pte ≡ true = ground (arith, mapped.0 i w) in
      rw owned (
        write_back-Counts E s x _ _ frame l _ h
          (drop_page-Counts E s x (l.swap_pool i).sw_pte l there))
]
