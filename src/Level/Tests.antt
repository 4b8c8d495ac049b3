-- ===== src/Level/Tests.antt =====
-- A small support level, and the theorems on it at that level.
use pand_ossh.Common.{
  Bool, [], ap, arith, bit_and, false, if◌then◌else◌, inr, refl, some, subst, suc, sym, true, zero,
  ℕ, ◌%◌, ◌*◌, ◌+◌, ◌-◌, ◌/◌, ◌<◌, ◌==◌, ◌^◌, ◌∷◌, ◌≡◌, ◌≢◌,
}
use pand_ossh.Level.Reading.{read_terminal-Reads}
use pand_ossh.Level.Kept.{Reads, receipts, Delivers}
use pand_ossh.Nucleus.Tests.{platform, blank_state, blank_support}
use pand_ossh.Level.Pager.{pager}
use pand_ossh.Level.Frames.{free_swap_frames-Frees, FreesUnderMutex}
use pand_ossh.Level.Choice.{pick_frame-Picked, Picked}
use pand_ossh.Level.Locks.{Mapped, IsPrivate}
use pand_ossh.Level.Terminal.{
  write_terminal-Sends, sent, sys4_wraps, sys4-Checked, Transmits, Checked,
}
use pand_ossh.Level.Calls.{read_terminal, give_back, sys4, write_terminal}
use pand_ossh.Level.Unlock.{init_swap_pool-Mapped, pager-Unlocks, Unlocked}
use pand_ossh.Level.Vm.{init_swap_pool, find_free_frame, pick_frame}
use pand_ossh.Level.{
  call, passeren, verhogen, do_io, create_process, get_support_ptr, term_process, poolsize, Call,
  Level, Services,
}

-- Every call answers `v`, but for the address of the support structure, and changes nothing.
abbrev answers : ℕ → Call → Level → ℕ × Level
answers v get_support_ptr l = (1000, l)
answers v _ l = (v, l)

abbrev services : ℕ → Services
services v = record {
  platform = platform;
  syscall = answers v;
  probe = λ t hi. 0x80000000;
  slot = λ i. i / 2 ^ 8 % 16;
  cleared = λ _. record { pte_entry_hi = 0; pte_entry_lo = 0 };
  exc_mod = 24;
  terminal = 0x10000254;
  swap_semaphore = 4;
  master_semaphore = 8;
  shell_semaphore = 12;
  term_write_semaphore = 16;
  term_read_semaphore = 20;
  support_pool = 1000;
  support_size = 0x2000;
  stack_tlb_end = 0x400;
  stack_gen_end = 0x800;
  pager_address = 0x20002000;
  general_handler_address = 0x20003000;
  proc_state = 500;
}

-- All frames belong to process 2; process 1 has a page fault on page 3, and the string of `sys4`
-- has the given address and length.
abbrev level : ℕ → ℕ → Level
level str len = record {
  swap_pool = λ i. record { sw_asid = 2; sw_page_no = 0x80000 + i; sw_pte = some (0x3000, i) };
  holding_swap_mutex = λ _. 0;
  fifo_cont = 15;
  supports = λ _. record blank_support {
    sup_except_state =
        λ _. record blank_state { entry_hi = 0x80003040; gpr = λ r. if r == 10 then str else len };
  };
  states = λ _. blank_state;
  mem = λ _. 0;
  chars = λ a. a % 26 + 65;
  status = 0x1808;
  entry_hi = 0;
  entry_lo = 0;
  index = 0;
  tlb = λ _. record { pte_entry_hi = 0; pte_entry_lo = 0 };
  trace = [];
}

abbrev pub somewhere : Level
somewhere = level 0x80001000 5

answers_same : (v : ℕ) (c : Call) (l : Level) → (answers v c l).1 ≡ l
answers_same v (passeren a) l = refl
answers_same v (verhogen a) l = refl
answers_same v (do_io a b) l = refl
answers_same v (create_process a b d) l = refl
answers_same v get_support_ptr l = refl
answers_same v term_process l = refl

level-IsPrivate : IsPrivate (services 1) (call (services 1) get_support_ptr somewhere).0 0
level-IsPrivate = record {
  trace = λ c l. ap (λ (m : Level). m.trace) (answers_same 1 c l);
  flag = λ c l. ap (λ (m : Level). m.holding_swap_mutex 0) (answers_same 1 c l);
  asid = λ c l. ap (λ (m : Level). (m.supports _).sup_asid) (answers_same 1 c l);
  mapped = λ c l m. subst Mapped (sym (answers_same 1 c l)) m;
  master = λ e. omega (arith, e);
  shell = λ e. omega (arith, e);
}

free_swap_frames-Frees_example : FreesUnderMutex (services 1) 2 somewhere
free_swap_frames-Frees_example = free_swap_frames-Frees (services 1) 2 somewhere

pager-Unlocks_example : Unlocked (services 1) 0 somewhere (pager (services 1) somewhere)
pager-Unlocks_example =
    pager-Unlocks (services 1) 0 somewhere level-IsPrivate ((λ i w. inr refl), omega arith) refl
      refl

init_swap_pool-Mapped_example : Mapped (init_swap_pool (services 1) somewhere)
init_swap_pool-Mapped_example =
    init_swap_pool-Mapped (services 1) somewhere level-IsPrivate.mapped (omega arith)

level-Transmits : Transmits (services 5)
level-Transmits = record {
  trace = λ c l. ap (λ (m : Level). m.trace) (answers_same 5 c l);
  chars = λ c l. ap (λ (m : Level). m.chars) (answers_same 5 c l);
  done = λ a v l. refl;
}

write_terminal-Sends_example :
    ((write_terminal (services 5) 0x80001000 5 somewhere).0 ≡ 5)
    × ((write_terminal (services 5) 0x80001000 5 somewhere).1.trace
        ≡ verhogen 16 ∷ sent (services 5) somewhere.chars 0x80001000 0 5 (passeren 16 ∷ []))
write_terminal-Sends_example =
    write_terminal-Sends (services 5) 0x80001000 5 somewhere level-Transmits

sys4-Checked_example :
    Checked (services 5) 1000 somewhere 0x80001000 5 (sys4 (services 5) 1000 somewhere)
sys4-Checked_example = sys4-Checked (services 5) 1000 0x80001000 5 somewhere refl refl (omega arith)

sys4_wraps_example :
    sys4 (services 5) 1000 (level (2 ^ 32 - 16) 16)
    ≡ give_back
        (services 5)
        1000
        (write_terminal (services 5) (2 ^ 32 - 16) 16 (level (2 ^ 32 - 16) 16)).0
        (write_terminal (services 5) (2 ^ 32 - 16) 16 (level (2 ^ 32 - 16) 16)).1
sys4_wraps_example =
    sys4_wraps (services 5) 1000 16 (level (2 ^ 32 - 16) 16) (omega arith) (omega arith) refl refl

pick_frame-Picked_example :
    Picked somewhere
      (pick_frame (find_free_frame somewhere.swap_pool 0 poolsize) somewhere).0
      (pick_frame (find_free_frame somewhere.swap_pool 0 poolsize) somewhere).1
pick_frame-Picked_example = pick_frame-Picked somewhere

-- "hi" is typed.
abbrev letter : Bool → Bool → ℕ
letter true second = 104
letter false true = 105
letter false false = 10

abbrev pub typed : ℕ → ℕ
typed i = letter (i == 1) (i == 2)

abbrev typing : Call → Level → ℕ × Level
typing (do_io a v) l = (5 + 2 ^ 8 * typed (receipts 0x10000258 l.trace), l)
typing c l = (5, l)

abbrev pub keyboard : Services
keyboard = record (services 5) { syscall = typing }

typing_same : (c : Call) (l : Level) → (typing c l).1 ≡ l
typing_same (do_io a v) l = refl
typing_same (passeren a) l = refl
typing_same (verhogen a) l = refl
typing_same (create_process a b c) l = refl
typing_same get_support_ptr l = refl
typing_same term_process l = refl

letter_status :
    (first second : Bool)
    → (bit_and (5 + 2 ^ 8 * letter first second) 0xFF ≡ 5)
      × (bit_and ((5 + 2 ^ 8 * letter first second) / 2 ^ 8) 0xFF ≡ letter first second)
letter_status true second = (refl, refl)
letter_status false true = (refl, refl)
letter_status false false = (refl, refl)

pub keyboard-Delivers : Delivers keyboard typed
keyboard-Delivers = record {
  trace = λ c l. ap (λ (m : Level). m.trace) (typing_same c l);
  chars = λ c l. ap (λ (m : Level). m.chars) (typing_same c l);
  done = λ l. (letter_status _ _).0;
  char = λ l. (letter_status _ _).1;
}

pub no_newline : (j : ℕ) → j < 2 → typed (1 + j) ≢ 10
no_newline zero w = λ e. omega (arith, e)
no_newline (suc zero) w = λ e. omega (arith, e)
no_newline (suc (suc j)) w = absurd (omega (arith, w))

read_terminal-Reads_example :
    Reads keyboard typed 0x80001000 1 2 0
      (record somewhere { trace = passeren 20 ∷ [] })
      (read_terminal keyboard 10 0x80001000 somewhere)
read_terminal-Reads_example =
    read_terminal-Reads keyboard typed 10 0x80001000 2 somewhere keyboard-Delivers (omega arith)
      no_newline refl
