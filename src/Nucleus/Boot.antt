-- ===== src/Nucleus/Boot.antt =====
-- `main` of phase2/src/initial.c establishes the invariant and starts the first process.
use pand_ossh.Nucleus.Create.{enrolled-Inv}
use pand_ossh.Nucleus.Dispatch.{dispatch-Inv, dispatch_first}
use pand_ossh.Scheduler.{dispatch, start}
use pand_ossh.Pcb.Alloc.{alloc_pcb-Allocates, Allocates}
use pand_ossh.Common.{
  ==_self, Option, [], add32, ap, arith, copies, if◌then◌else◌, length, ltb, none, refl, some, suc,
  sym, zero, ℕ, ◌<◌, ◌>>=◌, ◌∙◌, ◌∷◌, ◌≡◌,
}
use pand_ossh.Nucleus.Places.{Inv-same, on_cpu, Inv}
use pand_ossh.Asl.{init_asl}
use pand_ossh.Machine.{
  Pcb, load_state, modify_pcb, Outcome, Run, maxproc, psecond, Kernel, Platform,
}
use pand_ossh.Initial.{alloc_first_pcb, main, first_pcb, IsLoaded, init_vector}
use pand_ossh.Pcb.{alloc_pcb, mk_empty_proc_q, insert_proc_q, init_pcbs, add_entries}

pub copies-add_entries : (a n : ℕ) → copies a (add_entries n) ≡ (if ltb a n then 1 else 0)
unfolding add_entries
copies-add_entries a zero = ground arith
copies-add_entries a (suc n) = ground (arith, copies-add_entries a n)

pub length-add_entries : (n : ℕ) → length (add_entries n) ≡ n
unfolding add_entries
length-add_entries zero = refl
length-add_entries (suc n) = ap suc (length-add_entries n)

-- The kernel between `initVector` and `allocFirstPcb`.
abbrev pub initialised : Platform → Kernel → Kernel
initialised P k =
    record (init_vector P (init_asl (init_pcbs (record k { ready_queue = mk_empty_proc_q })))) {
      interval = psecond;
    }

initialised-Inv : (P : Platform) (k : Kernel) → IsLoaded k → Inv (initialised P k)
unfolding init_vector init_asl init_pcbs mk_empty_proc_q
initialised-Inv P k l = record {
  lists = record { distinct = tt; non_empty = tt; total = length-add_entries maxproc };
  once = λ a. ground (arith, copies-add_entries a maxproc, ap (on_cpu a) l.curr_proc);
  counted = omega (arith, l.process_count, length-add_entries maxproc);
}

-- What `main` does behind `allocFirstPcb`.
abbrev pub launched : Platform → ℕ × Kernel → Kernel
launched P (p, k) = record k {
  ready_queue = insert_proc_q k.pcb_table p k.ready_queue;
  process_count = add32 k.process_count 1;
}

-- How `main` hands the processor on: one process runs, it is the first ever, it starts at `test`,
-- and every other PCB is free.
pub record Started (P : Platform) (k : Kernel) (o : Outcome) : Type 0 where
  pub p : ℕ
  pub inv : Inv k
  pub current : k.curr_proc ≡ some p
  pub alone : k.ready_queue ≡ []
  pub one : k.process_count ≡ 1
  pub pid : (k.pcb_table p).p_pid ≡ 1
  pub pc : (k.pcb_table p).p_s.pc_epc ≡ P.test
  pub loaded : o ≡ load_state (k.pcb_table p).p_s

abbrev pub Starts : Platform → Run → Type 0
Starts P none = ⊥
Starts P (some (k, o)) = Started P k o

first_pcb_pid : (P : Platform) (k : Kernel) (b : Pcb) → (first_pcb P k b).p_pid ≡ b.p_pid
unfolding first_pcb
first_pcb_pid P k b = refl

first_pcb_pc : (P : Platform) (k : Kernel) (b : Pcb) → (first_pcb P k b).p_s.pc_epc ≡ P.test
unfolding first_pcb
first_pcb_pc P k b = refl

start-Started :
    (P : Platform) (p : ℕ) (k : Kernel)
    → Inv k
    → k.curr_proc ≡ none
    → k.ready_queue ≡ p ∷ []
    → k.process_count ≡ 1
    → (k.pcb_table p).p_pid ≡ 1
    → (k.pcb_table p).p_s.pc_epc ≡ P.test
    → Started P (dispatch P k).0 (dispatch P k).1
unfolding start
start-Started P p k v idle ready one pid pc =
    let e = dispatch_first P k p [] ready in
    record {
      p = p;
      inv = dispatch-Inv P k v idle;
      current = ap (λ (r : Kernel × Outcome). r.0.curr_proc) e;
      alone = ap (λ (r : Kernel × Outcome). r.0.ready_queue) e;
      one = ap (λ (r : Kernel × Outcome). r.0.process_count) e ∙ one;
      pid = ap (λ (r : Kernel × Outcome). (r.0.pcb_table p).p_pid) e ∙ pid;
      pc = ap (λ (r : Kernel × Outcome). (r.0.pcb_table p).p_s.pc_epc) e ∙ pc;
      loaded =
          ap (λ (r : Kernel × Outcome). r.1) e
          ∙ sym (ap (λ (r : Kernel × Outcome). load_state (r.0.pcb_table p).p_s) e);
    }

launched-Starts :
    (P : Platform) (k3 : Kernel) (r : Option ℕ × Kernel)
    → Inv k3
    → k3.curr_proc ≡ none
    → k3.ready_queue ≡ []
    → k3.process_count ≡ 0
    → k3.next_pid ≡ 1
    → 0 < length k3.pcb_free
    → Allocates P k3 r
    → Starts P (
        (r.0 >>= λ p. some (p, modify_pcb p (first_pcb P k3) r.1)) >>= λ r.
        some (dispatch P (launched P r)))
unfolding insert_proc_q
launched-Starts P k3 (none, k1) v idle empty zero_count first free h =
    absurd (omega (arith, ap length h.0))
launched-Starts P k3 (some p, k1) v idle empty zero_count first free (rest, h) =
    let k4 = modify_pcb p (first_pcb P k3) k1 in
    let k5 = launched P (p, k4) in
    let b = k1.pcb_table p in
    let same : k5.pcb_table p ≡ first_pcb P k3 b = rw (==_self p) in
    start-Started P p k5
      (Inv-same _ k5 refl refl refl refl refl refl (enrolled-Inv P k4.pcb_table p rest k3 k1 h v))
      (h.curr_proc ∙ idle) (ap (insert_proc_q k4.pcb_table p) (h.ready_queue ∙ empty))
      (ap (λ n. add32 n 1) (h.process_count ∙ zero_count))
      (ap (λ (b : Pcb). b.p_pid) same ∙ first_pcb_pid P k3 b ∙ h.pid ∙ first)
      (ap (λ (b : Pcb). b.p_s.pc_epc) same ∙ first_pcb_pc P k3 b)

-- From the globals as they are loaded, `main` ends without a fault with the invariant established:
-- one process, of PID 1, is on the CPU and starts at `test`, and no other PCB is in use.
pub main-Starts : (P : Platform) (k : Kernel) → IsLoaded k → Starts P (main P k)
unfolding main alloc_first_pcb init_vector init_asl init_pcbs mk_empty_proc_q
main-Starts P k l =
    launched-Starts P (initialised P k) (alloc_pcb P (initialised P k)) (initialised-Inv P k l)
      l.curr_proc refl l.process_count l.next_pid (omega (arith, length-add_entries maxproc))
      (alloc_pcb-Allocates P (initialised P k))
