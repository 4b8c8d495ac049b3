-- ===== src/Level/Unlock.antt =====
-- `pager` gives the mutex of the swap pool back on every path.
use pand_ossh.Common.{
  Bool-cases, Option, ap, arith, bit_and, inl, inr, neg32, none, refl, some, sub32, suc, update,
  zero, ℕ, ◌+◌, ◌<◌, ◌==◌, ◌>>=◌, ◌∙◌, ◌≡◌,
}
use pand_ossh.Level.Choice.{pick_frame-Picked, in_turn, first_free, Picked}
use pand_ossh.Level.Mutex.{
  evict-Counts, read_write_flashdrive-Counts, sys2-Counts, Counted, install-Counts,
}
use pand_ossh.Level.Locks.{
  lock-Counts, Counts-trans, call-Counts, Mapped, Counts-refl, unlock-Counts, unlocks, locks,
  Counts, IsPrivate,
}
use pand_ossh.Level.Calls.{program_trap_handler}
use pand_ossh.Level.Pager.{fault_of, frame_address, pager, load_page, finish_fault, unlock_swap}
use pand_ossh.Level.{
  Call, passeren, Swap, poolsize, call_effect, get_support_ptr, call, End, Level, Services,
}
use pand_ossh.Level.Vm.{
  init_frames, init_swap_pool, evict, find_free_frame, read_write_flashdrive, install, pick_frame,
}

-- One more V than P, the flag is down, and the pool stays well formed.
abbrev Released : Services → ℕ → Level → Level → Type 0
Released E x l m =
    (locks E m.trace + 1 + unlocks E l.trace ≡ locks E l.trace + unlocks E m.trace)
    × (m.holding_swap_mutex x ≡ 0)
    × (Mapped l → Mapped m)

unlock_swap-Counts :
    (E : Services) (s x : ℕ) (l : Level)
    → IsPrivate E s x
    → sub32 (l.supports s).sup_asid 1 ≡ x
    → Counts E s x 0 1
        (record l { holding_swap_mutex = update l.holding_swap_mutex x 0 })
        (unlock_swap E s l)
unfolding unlock_swap
unlock_swap-Counts E s x l h own = rw own (unlock-Counts E s x _ h)

finish_fault-Released :
    (E : Services) (s x i missing frame status : ℕ) (l : Level)
    → IsPrivate E s x
    → sub32 (l.supports s).sup_asid 1 ≡ x
    → Released E x l (finish_fault E s i missing frame status l).0
unfolding finish_fault program_trap_handler
finish_fault-Released E s x i missing frame status l h own = elim (Bool-cases (status == 1)) [
  | inl ready ↦
      let m = install E s i missing frame l in
      let put = install-Counts E s x i missing frame l in
      let own1 : sub32 (m.supports s).sup_asid 1 ≡ x = ap (λ a. sub32 a 1) (put.asid) ∙ own in
      let back = unlock_swap-Counts E s x m h own1 in
      rw ready (
        omega (arith, put.locked, put.unlocked, back.locked, back.unlocked),
        ground (arith, back.flag),
        λ m. back.pool (put.pool m),
      )
  | inr failed ↦
      let m = unlock_swap E s l in
      let back = unlock_swap-Counts E s x l h own in
      let own1 : sub32 (m.supports s).sup_asid 1 ≡ x = ap (λ a. sub32 a 1) (back.asid) ∙ own in
      let down : m.holding_swap_mutex x ≡ 0 = ground (arith, back.flag) in
      let ended = sys2-Counts E s x m h own1 down in
      rw failed (
        omega (arith, back.locked, back.unlocked, ended.locked, ended.unlocked),
        ended.flag ∙ down,
        λ m. ended.pool (back.pool m),
      )
]

abbrev Releases : Services → ℕ → Level → Option End → Type 0
Releases E x l none = ⊥
Releases E x l (some e) = Released E x l e.0

pick_frame-Counts :
    (E : Services) (s x : ℕ) (o : Option ℕ) (l : Level) → Counts E s x 0 0 l (pick_frame o l).1
unfolding pick_frame
pick_frame-Counts E s x none l = record {
  locked = omega arith;
  unlocked = omega arith;
  flag = refl;
  asid = refl;
  pool = λ h. (h.0, omega arith);
}
pick_frame-Counts E s x (some i) l = Counts-refl E s x l

-- The frame that is picked is one of the pool.
Picked-below : (l m : Level) (i : ℕ) → Mapped l → Picked l i m → i < poolsize
Picked-below l m i h (first_free w free least) = w
Picked-below l m i h (in_turn owned here turn) = omega (arith, here, h.1)

read_page-Releases :
    (E : Services) (s x i missing frame : ℕ) (l : Level) (o : Option Level)
    → IsPrivate E s x
    → sub32 (l.supports s).sup_asid 1 ≡ x
    → Counted E s x l o
    → Releases E x l (
        o >>= λ l1.
        let r = read_write_flashdrive E (l1.supports s).sup_asid missing frame 2 l1 in
        some (finish_fault E s i missing frame r.0 r.1))
read_page-Releases E s x i missing frame l none h own c = c
read_page-Releases E s x i missing frame l (some l1) h own c =
    let r = read_write_flashdrive E (l1.supports s).sup_asid missing frame 2 l1 in
    let read = read_write_flashdrive-Counts E s x (l1.supports s).sup_asid missing frame 2 l1 h in
    let both = Counts-trans E s x 0 0 0 0 l l1 r.1 c read in
    let own1 : sub32 (r.1.supports s).sup_asid 1 ≡ x = ap (λ a. sub32 a 1) (both.asid) ∙ own in
    let last = finish_fault-Released E s x i missing frame r.0 r.1 h own1 in
    (omega (arith, both.locked, both.unlocked, last.0), last.1, λ m. last.2 (both.pool m))

Releases-from :
    (E : Services) (s x : ℕ) (l m : Level) (o : Option End)
    → Counts E s x 0 0 l m
    → Releases E x m o
    → Releases E x l o
Releases-from E s x l m none c r = r
Releases-from E s x l m (some e) c r =
    (omega (arith, c.locked, c.unlocked, r.0), r.1, λ m. r.2 (c.pool m))

load_page-Releases :
    (E : Services) (s x missing : ℕ) (l : Level)
    → IsPrivate E s x
    → sub32 (l.supports s).sup_asid 1 ≡ x
    → Mapped l
    → Releases E x l (load_page E s missing l)
unfolding load_page
load_page-Releases E s x missing l h own mapped =
    let o = find_free_frame l.swap_pool 0 poolsize in
    let m = (pick_frame o l).1 in
    let i = (pick_frame o l).0 in
    let frame = frame_address i in
    let picked = pick_frame-Counts E s x o l in
    let below = Picked-below l m i mapped (pick_frame-Picked l) in
    let own1 : sub32 (m.supports s).sup_asid 1 ≡ x = ap (λ a. sub32 a 1) picked.asid ∙ own in
    Releases-from E s x l m _ picked (
      read_page-Releases E s x i missing frame m (evict E i frame m) h own1
        (evict-Counts E s x i frame m h (picked.pool mapped) below))

-- As often given back as taken, the flag is down, and the pool is well formed.
abbrev pub Unlocked : Services → ℕ → Level → Option End → Type 0
Unlocked E x l none = ⊥
Unlocked E x l (some e) =
    (locks E e.0.trace + unlocks E l.trace ≡ locks E l.trace + unlocks E e.0.trace)
    × (e.0.holding_swap_mutex x ≡ 0)
    × Mapped e.0

load-Unlocked :
    (E : Services) (x : ℕ) (l m : Level) (o : Option End)
    → locks E m.trace ≡ 1 + locks E l.trace
    → unlocks E m.trace ≡ unlocks E l.trace
    → Mapped m
    → Releases E x m o
    → Unlocked E x l o
load-Unlocked E x l m none a b h r = r
load-Unlocked E x l m (some e) a b h r = (omega (arith, r.0), r.1, r.2 h)

-- The pool is well formed: its frames that have owners have page table entries, and the turn is a
-- frame. The calls, and what other processes do during them, leave the caller's own data (its calls,
-- its flag, the ASID in its support structure) and keep the pool well formed, and the mutex is not the
-- semaphore of the instantiator or of the shell. Then a page fault of a process that does not hold the
-- mutex of the swap pool never goes through a null pointer, whichever frame it takes and whatever the
-- flash device answers, and by the time it resumes or ends the process it has given the mutex back as
-- often as taken, with its flag down, and the pool is well formed.
pub pager-Unlocks :
    (E : Services) (x : ℕ) (l : Level)
    → IsPrivate E (call E get_support_ptr l).0 x
    → Mapped l
    → sub32 (l.supports (call E get_support_ptr l).0).sup_asid 1 ≡ x
    → l.holding_swap_mutex x ≡ 0
    → Unlocked E x l (pager E l)
unfolding pager program_trap_handler
pager-Unlocks E x l h mapped own free =
    let s = (call E get_support_ptr l).0 in
    let l1 = (call E get_support_ptr l).1 in
    let asked = call-Counts E s x get_support_ptr l h in
    let own1 : sub32 (l1.supports s).sup_asid 1 ≡ x = ap (λ a. sub32 a 1) (asked.asid) ∙ own in
    let free1 : l1.holding_swap_mutex x ≡ 0 = asked.flag ∙ free in
    elim (Bool-cases (bit_and (fault_of s l1).cause E.platform.cause_exccode_mask == E.exc_mod)) [
      | inl trap ↦
          let ended = sys2-Counts E s x l1 h own1 free1 in
          rw trap (
            omega (arith, asked.locked, asked.unlocked, ended.locked, ended.unlocked),
            ended.flag ∙ free1,
            ended.pool (asked.pool mapped),
          )
      | inr fault ↦
          let l2 = call_effect E (passeren E.swap_semaphore) l1 in
          let taken = lock-Counts E s x l1 h in
          let own2 : sub32 (l2.supports s).sup_asid 1 ≡ x =
            ap (λ a. sub32 a 1) (taken.asid) ∙ own1 in
          let l3 = record l2 {
            holding_swap_mutex = update l2.holding_swap_mutex (sub32 (l2.supports s).sup_asid 1) 1;
          } in
          let mapped3 : Mapped l3 = taken.pool (asked.pool mapped) in
          rw fault (
            load-Unlocked E x l l3 _ (omega (arith, asked.locked, taken.locked))
              (omega (arith, asked.unlocked, taken.unlocked)) mapped3
              (load_page-Releases E s x _ l3 h own2 mapped3))
    ]

-- The loop of `initSwapPool`.
init_frames_free : (n i : ℕ) (t : ℕ → Swap) → i < n → (init_frames n t i).sw_asid ≡ neg32 1
unfolding init_frames
init_frames_free zero i t w = absurd (omega (arith, w))
init_frames_free (suc n) i t w = elim (Bool-cases (i == n)) [
  | inl here ↦ rw here refl
  | inr other ↦ rw other (init_frames_free n i t (ground (arith, w, other)))
]

-- The turn is a frame, as fifoCont = 0 is, and calls keep the pool well formed. Then `initSwapPool`
-- leaves the pool well formed, whatever it held before.
pub init_swap_pool-Mapped :
    (E : Services) (l : Level)
    → ((c : Call) (m : Level) → Mapped m → Mapped (E.syscall c m).1)
    → l.fifo_cont < poolsize
    → Mapped (init_swap_pool E l)
unfolding init_swap_pool call
init_swap_pool-Mapped E l keeps turn =
    keeps _ _ ((λ i w. inl (init_frames_free poolsize i l.swap_pool w)), turn)
