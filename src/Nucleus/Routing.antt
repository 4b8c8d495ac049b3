-- ===== src/Nucleus/Routing.antt =====
-- The interrupts of the devices in phase2/src/interrupts.c: the semaphore that is signalled, as NSYS5
-- computes it from the command register, and what the signal does.
use pand_ossh.Asl.Waiting.{waiting}
use pand_ossh.Machine.{store}
use pand_ossh.Pcb.{insert_proc_q}
use pand_ossh.Common.{
  List, [], add32, arith, bit_and, some, sub32, suc, ℕ, ◌*◌, ◌+◌, ◌-◌, ◌<◌, ◌^◌, ◌∷◌, ◌≡◌, ◌≢◌, ◌≤◌,
}
use pand_ossh.Machine.{set_reg, wordlen, Run, nsuppsem, Kernel, Platform}
use pand_ossh.Interrupts.{go_on, dev_addr}
use pand_ossh.Syscall.{io_index}

-- The constants of uriscv that the computations use; the table of semaphores does not wrap.
pub record IsLayout (P : Platform) : Type 0 where
  pub devregsize : P.devregsize ≡ 16
  pub devperint : P.devperint ≡ 8
  pub table : P.device_semaphores + suc nsuppsem * wordlen ≤ 2 ^ 32

-- The command registers of the devices.
pub data IsCommand (line dev : ℕ) : ℕ → ℕ → Type 0 where
  simple :
      {a i : ℕ}
      → line < 8
      → a ≡ dev_addr line dev + 0x4
      → i ≡ (line - 3) * 8 + dev
      → IsCommand line dev a i
  transmit :
      {a i : ℕ}
      → line ≡ 7
      → a ≡ dev_addr line dev + 0xC
      → i ≡ (line - 3) * 8 + dev + 8
      → IsCommand line dev a i

-- NSYS5 takes the index (line - 3) * 8 + device, and 8 more for a terminal's transmitter.
pub io_index_lem :
    (P : Platform) (line dev a i : ℕ)
    → IsLayout P
    → 3 ≤ line
    → dev < 8
    → IsCommand line dev a i
    → io_index P a ≡ i
unfolding io_index
io_index_lem P line dev a i l low d (simple high e f) = ground (arith, l.devregsize, l.devperint)
io_index_lem P line dev a i l low d (transmit high e f) = ground (arith, l.devregsize, l.devperint)

-- `&device_semaphores[...]` of NSYS5, for a command register.
abbrev pub sem_of : Platform → ℕ → ℕ
sem_of P a = add32 P.device_semaphores (io_index P a * wordlen)

-- The status register and the command register of the operation that a device reports. A terminal
-- reports a completed transmission first, then a received character.
pub data Reports (k : Kernel) (line dev : ℕ) : (status a : ℕ) → Type 0 where
  simple_device : line ≢ 7 → Reports k line dev (dev_addr line dev) (dev_addr line dev + 0x4)
  transmission :
      line ≡ 7
      → bit_and (k.mem (dev_addr line dev + 0x8)) 0xFF ≡ 5
      → Reports k line dev (dev_addr line dev + 0x8) (dev_addr line dev + 0xC)
  reception :
      line ≡ 7
      → bit_and (k.mem (dev_addr line dev + 0x8)) 0xFF ≢ 5
      → bit_and (k.mem (dev_addr line dev)) 0xFF ≡ 5
      → Reports k line dev (dev_addr line dev) (dev_addr line dev + 0x4)

-- The V on a device's semaphore: the process that waited first gets the status in a0 and is ready, and
-- one process fewer waits; or nobody waited, and the value grows.
pub data Completed (P : Platform) (sem status : ℕ) (k k' : Kernel) : Type 0 where
  woken :
      (p : ℕ) (rest : List ℕ)
      → waiting sem k.asl ≡ p ∷ rest
      → waiting sem k'.asl ≡ rest
      → ((b : ℕ) → b ≢ sem → waiting b k'.asl ≡ waiting b k.asl)
      → (k'.pcb_table p).p_s ≡ set_reg P.reg_a0 status (k.pcb_table p).p_s
      → k'.ready_queue ≡ insert_proc_q k'.pcb_table p k.ready_queue
      → k'.soft_block_count ≡ sub32 k.soft_block_count 1
      → k'.mem ≡ k.mem
      → Completed P sem status k k'
  raised :
      waiting sem k.asl ≡ [] → k' ≡ store sem (add32 (k.mem sem) 1) k → Completed P sem status k k'

-- The handler goes on after the V.
abbrev Signals : Platform → (sem status : ℕ) → Kernel → Run → Type 0
Signals P sem status k r = (k' : Kernel) × Completed P sem status k k' × (r ≡ some (go_on P k'))

-- What `deviceInterruptHandler` does for a device. Where a terminal reports neither a transmission nor a
-- reception it goes on; otherwise it acknowledges the command register, and signals the semaphore on
-- which NSYS5 with that register waits.
pub data Served (P : Platform) (line dev : ℕ) (k : Kernel) (r : Run) : Type 0 where
  silent :
      line ≡ 7
      → bit_and (k.mem (dev_addr line dev + 0x8)) 0xFF ≢ 5
      → bit_and (k.mem (dev_addr line dev)) 0xFF ≢ 5
      → r ≡ some (go_on P k)
      → Served P line dev k r
  signalled :
      (status a : ℕ) (k' : Kernel)
      → Reports k line dev status a
      → Completed P (sem_of P a) (k.mem status) (store a P.ack k) k'
      → r ≡ some (go_on P k')
      → Served P line dev k r
