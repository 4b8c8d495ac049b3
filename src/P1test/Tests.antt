-- ===== src/P1test/Tests.antt =====
-- A terminal that transmits every character, and phase1/p1test.c at it.
use pand_ossh.Common.{◌∷◌, [], refl, none, ◌<◌, ◌≡◌, length, arith, ℕ, zero, suc}
use pand_ossh.Nucleus.Tests.{loaded}
use pand_ossh.P1test.{
  Transmitter, Sent, Bench, termprint, Step, next, stopped, fault, addokbuf, adderrbuf, store,
  still_busy, print_cycle, busy_wait,
}
use pand_ossh.P1test.Transmit.{termprint-Printed, Printed, Answers, status_at, termprint_hangs}
use pand_ossh.P1test.Drive.{
  p1test, alloc_test, queue_test, priority_test, tree_test, asl_test, alloc_all, free_all,
  insert_all, take_all, out_test, adopt_all, drop_all, block_all, move_all, head_test,
}
use pand_ossh.Machine.{Platform}
use pand_ossh.Pcb.{
  alloc_pcb, init_pcb, init_pcbs, free_pcb, add_entries, insert_proc_q, head_proc_q, remove_proc_q,
  out_proc_q, empty_proc_q, empty_child, insert_child, remove_child, detach_first, out_child,
  leave_parent, mk_empty_proc_q,
}
use pand_ossh.Asl.{
  init_asl, insert_blocked, insert_active, activate, set_sem_add, remove_blocked, find_semd,
  take_first, shrink, out_blocked, find_waiting, head_blocked,
}

-- A transmitter that is BUSY for one reading after each command.
abbrev reading : ℕ → ℕ → ℕ
reading n zero = 3
reading n (suc i) = 5

abbrev transmitter : Transmitter
transmitter = record {
  ready_code = 1;
  busy_code = 3;
  devperint = 8;
  status = reading;
  readings = 2;
}

stays_busy : (n i : ℕ) → i < 1 → status_at transmitter n i ≡ 3
stays_busy n zero w = refl
stays_busy n (suc i) w = absurd (omega (arith, w))

transmitter-Answers : Answers transmitter
transmitter-Answers = record {
  busy_for = λ n. 1;
  answer = λ n. 5;
  in_time = λ n. omega arith;
  stays_busy = stays_busy;
  answers = λ n. refl;
  ends = λ n. refl;
}

-- One that is ready, and stays BUSY after its first command.
abbrev dead_status : ℕ → ℕ → ℕ
dead_status zero i = 1
dead_status (suc n) i = 3

abbrev silent : Sent
silent = record { commands = []; count = 0; reads = 1 }

abbrev bench : Bench
bench = record {
  kernel = loaded;
  okbuf = λ i. 0;
  mp = 0;
  errbuf = λ i. 0;
  sent = silent;
  procp = λ i. none;
  p = none;
  q = none;
  firstproc = none;
  midproc = none;
  lastproc = none;
  qa = [];
}

termprint-Printed_example :
    Printed transmitter transmitter-Answers
      (72 ∷ 105 ∷ [])
      0
      silent
      (termprint transmitter (72 ∷ 105 ∷ []) 0 silent)
termprint-Printed_example =
    termprint-Printed transmitter transmitter-Answers (72 ∷ 105 ∷ []) 0 silent

termprint_hangs_example :
    termprint (record transmitter { status = dead_status; readings = 1000 }) (72 ∷ []) 0 silent
    ≡ none
termprint_hangs_example =
    termprint_hangs (record transmitter { status = dead_status }) 1000 72 [] 0 silent refl
      (λ i. refl)

-- The end of a run: okbuf has room, its text ends with a NUL, and errbuf is as it was; no PCB is free,
-- and of the semaphore descriptors 9 are active and 11 free.
abbrev Passes : Bench → Step (Unit {0}) → Type 0
Passes b (next u t) =
    (t.mp < 2048)
    × (t.okbuf t.mp ≡ 0)
    × (t.errbuf ≡ b.errbuf)
    × (t.kernel.pcb_free ≡ [])
    × (length t.kernel.asl ≡ 9)
    × (length t.kernel.semd_free ≡ 11)
Passes b (stopped t) = ⊥
Passes b still_busy = ⊥
Passes b fault = ⊥

-- A run of the whole test program.
p1test_run :
    (P : Platform)
    → Passes bench (p1test P transmitter (record { sem = 0x20002000; onesem = 0x20003000 }) bench)
unfolding alloc_test alloc_all free_all addokbuf adderrbuf store alloc_pcb init_pcb init_pcbs
    free_pcb add_entries p1test queue_test priority_test tree_test asl_test insert_all take_all
    out_test adopt_all drop_all block_all move_all head_test insert_proc_q head_proc_q remove_proc_q
    out_proc_q empty_proc_q empty_child insert_child remove_child detach_first out_child
    leave_parent init_asl insert_blocked insert_active activate set_sem_add remove_blocked find_semd
    take_first shrink out_blocked find_waiting head_blocked mk_empty_proc_q termprint print_cycle
    busy_wait
p1test_run P = (omega arith, refl, refl, refl, refl, refl)
