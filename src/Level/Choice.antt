-- ===== src/Level/Choice.antt =====
-- The frame that `pager` of phase3/src/vmSupport.c takes, and the flash device that it talks to.
use pand_ossh.Syscall.{io_index}
use pand_ossh.Interrupts.{dev_addr}
use pand_ossh.Level.Uproc.{valid_asid}
use pand_ossh.Nucleus.Routing.{simple, io_index_lem, IsLayout}
use pand_ossh.Machine.{Platform}
use pand_ossh.Level.Vm.{find_free_frame, get_flash_register, pick_frame}
use pand_ossh.Level.{poolsize, Level, Swap}
use pand_ossh.Common.{
  Bool-cases, Option, arith, inl, inr, neg32, none, refl, some, suc, true, zero, ℕ, ◌%◌, ◌*◌, ◌+◌,
  ◌-◌, ◌<◌, ◌==◌, ◌≡◌, ◌≢◌, ◌≤◌,
}

-- What the search from frame j over n frames finds.
abbrev Finds : (ℕ → Swap) → ℕ → ℕ → Option ℕ → Type 0
Finds pool j n none = (x : ℕ) → j ≤ x → x < j + n → (pool x).sw_asid ≢ neg32 1
Finds pool j n (some i) =
    (j ≤ i)
    × (i < j + n)
    × ((pool i).sw_asid ≡ neg32 1)
    × ((x : ℕ) → j ≤ x → x < i → (pool x).sw_asid ≢ neg32 1)

Finds-next :
    (pool : ℕ → Swap) (j n : ℕ) (o : Option ℕ)
    → (pool j).sw_asid ≢ neg32 1
    → Finds pool (j + 1) n o
    → Finds pool j (suc n) o
Finds-next pool j n none ne f = λ x a b. elim (Bool-cases (x == j)) [
  | inl here ↦ λ e. ne (ground arith)
  | inr after ↦ f x (ground arith) (omega arith)
]
Finds-next pool j n (some i) ne f = (
  omega (arith, f.0),
  omega (arith, f.1),
  f.2,
  λ x a b. elim (Bool-cases (x == j)) [
    | inl here ↦ λ e. ne (ground arith)
    | inr after ↦ f.3 x (ground arith) b
  ],
)

find_free_frame-Finds : (pool : ℕ → Swap) (j n : ℕ) → Finds pool j n (find_free_frame pool j n)
unfolding find_free_frame
find_free_frame-Finds pool j zero = λ x a b. ground arith
find_free_frame-Finds pool j (suc n) = elim (Bool-cases ((pool j).sw_asid == neg32 1)) [
  | inl free ↦ rw free (omega arith, omega arith, ground arith, λ x a b. ground arith)
  | inr owned ↦
      rw owned (Finds-next pool j n _ (ground arith) (find_free_frame-Finds pool (j + 1) n))
]

-- How the pager picks a frame.
pub data Picked (l : Level) : ℕ → Level → Type 0 where
  first_free :
      {i : ℕ}
      → i < poolsize
      → (l.swap_pool i).sw_asid ≡ neg32 1
      → ((x : ℕ) → x < i → (l.swap_pool x).sw_asid ≢ neg32 1)
      → Picked l i l
  in_turn :
      {i : ℕ} {m : Level}
      → ((x : ℕ) → x < poolsize → (l.swap_pool x).sw_asid ≢ neg32 1)
      → i ≡ l.fifo_cont
      → m ≡ record l { fifo_cont = (l.fifo_cont + 1) % poolsize }
      → Picked l i m

pick-Picked :
    (l : Level) (o : Option ℕ)
    → Finds l.swap_pool 0 poolsize o
    → Picked l (pick_frame o l).0 (pick_frame o l).1
unfolding pick_frame
pick-Picked l none f = in_turn (λ x w. f x (omega arith) (omega arith)) refl refl
pick-Picked l (some i) f = first_free (omega (arith, f.1)) f.2 (λ x w. f.3 x (omega arith) w)

-- The pager takes the first free frame of the pool; only when all 16 have owners does it take the
-- next in turn, and moves the turn on.
pub pick_frame-Picked :
    (l : Level)
    → Picked l
        (pick_frame (find_free_frame l.swap_pool 0 poolsize) l).0
        (pick_frame (find_free_frame l.swap_pool 0 poolsize) l).1
pick_frame-Picked l = pick-Picked l _ (find_free_frame-Finds l.swap_pool 0 poolsize)

-- The flash device of a process: its registers are those of device asid - 1 on line 4, and a DoIO
-- on its command register waits on the semaphore of that device.
pub get_flash_register-Routes :
    (P : Platform) (asid : ℕ)
    → IsLayout P
    → valid_asid asid ≡ true
    → (get_flash_register asid ≡ some (dev_addr 4 (asid - 1)))
      × (io_index P (dev_addr 4 (asid - 1) + 4) ≡ (4 - 3) * 8 + (asid - 1))
unfolding get_flash_register
get_flash_register-Routes P asid l v = (
  ground arith,
  io_index_lem P 4 (asid - 1) _ _ l (omega arith) (ground arith) (simple (omega arith) refl refl),
)
