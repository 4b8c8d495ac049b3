-- ===== src/Asl/Untouched.antt =====
-- What no operation of phase1/asl.c changes.
use pand_ossh.Machine.{Semd, Pcb, Kernel}
use pand_ossh.Common.{List, refl, ℕ, ◌≡◌}

pub record Untouched (k k' : Kernel) : Type 0 where
  pub pcb_free : k'.pcb_free ≡ k.pcb_free
  pub ready_queue : k'.ready_queue ≡ k.ready_queue
  pub process_count : k'.process_count ≡ k.process_count
  pub soft_block_count : k'.soft_block_count ≡ k.soft_block_count
  pub curr_proc : k'.curr_proc ≡ k.curr_proc
  pub next_pid : k'.next_pid ≡ k.next_pid
  pub mem : k'.mem ≡ k.mem
  pub exc_state : k'.exc_state ≡ k.exc_state

pub relisted :
    (k : Kernel) (t : ℕ → Pcb) (ss : List Semd) (free : List ℕ)
    → Untouched k (record k { pcb_table = t; asl = ss; semd_free = free })
relisted k t ss free = record {
  pcb_free = refl;
  ready_queue = refl;
  process_count = refl;
  soft_block_count = refl;
  curr_proc = refl;
  next_pid = refl;
  mem = refl;
  exc_state = refl;
}
