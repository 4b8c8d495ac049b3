-- ===== src/Nucleus/Agrees.antt =====
-- Who runs when the kernel hands the processor on: a process when it loads a state, nobody when it
-- waits.
use pand_ossh.Asl.Waiting.{waiting}
use pand_ossh.Asl.{remove_blocked}
use pand_ossh.Common.{
  Bool, Bool-cases, List, Option, Option-cases, [], ap, bit_and, false, if◌then◌else◌, inl, inr,
  is_pos, is_some, leb, length, none, refl, some, subst, suc, sym, true, ℕ, ◌&&◌, ◌==◌, ◌>>=◌, ◌∷◌,
  ◌≡◌, ◌≢◌, ◌⊎◌,
}
use pand_ossh.Nucleus.Dispatch.{dispatch_first, dispatch-idle}
use pand_ossh.Nucleus.Timers.{insert_proc_q_ne}
use pand_ossh.Exceptions.{resume}
use pand_ossh.Interrupts.{
  unblock_all, complete, map_addr, dev_no, ack_device, int_line_no, device_interrupt_handler, Ack,
  go_on, plt_interrupt_handler, serve_device, requeue_current, interrupt_handler, requeue,
  it_interrupt_handler,
}
use pand_ossh.Machine.{
  store, psecond, nsuppsem, device_sem, Kernel, Outcome, Platform, Run, halted, load_context,
  load_state, panicked, returned, waits,
}
use pand_ossh.Scheduler.{dispatch, start, idle}

abbrev pub Agrees : Option ℕ → Outcome → Type 0
Agrees o (load_state s) = is_some o ≡ true
Agrees o (load_context c) = is_some o ≡ true
Agrees o waits = is_some o ≡ false
Agrees o halted = Unit {0}
Agrees o panicked = Unit {0}
Agrees o returned = Unit {0}

-- So it is at the end of the run, if it does not fault.
abbrev pub Coherent : Run → Type 0
Coherent none = Unit {0}
Coherent (some (k, o)) = Agrees k.curr_proc o

abbrev pub Busy : Option Kernel → Type 0
Busy none = Unit {0}
Busy (some k) = is_some k.curr_proc ≡ true

pub if-Coherent : (b : Bool) (x y : Run) → Coherent x → Coherent y → Coherent (if b then x else y)
if-Coherent true x y hx hy = hx
if-Coherent false x y hx hy = hy

pub split-Coherent :
    (b : Bool) (x y : Run) → (b ≡ true → Coherent x) → Coherent y → Coherent (if b then x else y)
split-Coherent true x y hx hy = hx refl
split-Coherent false x y hx hy = hy

pub bind-Coherent :
    {A : Type 0} (m : Option A) (f : A → Run) → ((a : A) → Coherent (f a)) → Coherent (m >>= f)
bind-Coherent none f h = tt
bind-Coherent (some a) f h = h a

pub resume-Coherent : (m : Option Kernel) → Busy m → Coherent (resume m)
unfolding resume
resume-Coherent none h = h
resume-Coherent (some k) h = h

idle-Agrees : (k : Kernel) → k.curr_proc ≡ none → Agrees (idle k).0.curr_proc (idle k).1
unfolding idle
idle-Agrees k e = elim (Bool-cases (k.process_count == 0)) [
  | inl empty ↦ rw empty tt
  | inr busy ↦ rw busy (elim (Bool-cases (is_pos k.soft_block_count)) [
    | inl soft ↦ rw soft (ap is_some e)
    | inr dead ↦ rw dead tt
  ])
]

start-Agrees : (P : Platform) (p : ℕ) (q : List ℕ) (k : Kernel) → Coherent (some (start P p q k))
unfolding start
start-Agrees P p q k = refl

-- The scheduler, with nobody on the CPU or somebody ready.
pub dispatch-Coherent :
    (P : Platform) (k : Kernel)
    → (k.curr_proc ≡ none) ⊎ (k.ready_queue ≢ [])
    → Coherent (some (dispatch P k))
dispatch-Coherent P k h = go k.ready_queue refl
  where
    go : (q : List ℕ) → k.ready_queue ≡ q → Coherent (some (dispatch P k))
    go [] e = elim h [
      | inl none_runs ↦
          subst (λ r. Coherent (some r)) (sym (dispatch-idle P k e)) (idle-Agrees k none_runs)
      | inr ne ↦ absurd (ne e)
    ]
    go (p ∷ q) e =
        subst (λ r. Coherent (some r)) (sym (dispatch_first P k p q e)) (start-Agrees P p q k)

requeue-Coherent :
    (P : Platform) (c : ℕ) (k : Kernel) → Coherent (some (dispatch P (requeue P c k)))
unfolding requeue
requeue-Coherent P c k = dispatch-Coherent P _ (inr (insert_proc_q_ne _ c k.ready_queue))

-- The choice of `go_on`.
abbrev picked : Platform → Kernel → Option ℕ → Kernel × Outcome
picked P k o = elim o [ none ↦ dispatch P k | some c ↦ (k, load_state k.exc_state) ]

go_on-none : (P : Platform) (k : Kernel) → k.curr_proc ≡ none → go_on P k ≡ dispatch P k
unfolding go_on
go_on-none P k e = ap (λ (o : Option ℕ). picked P k o) e

go_on-some :
    (P : Platform) (c : ℕ) (k : Kernel)
    → k.curr_proc ≡ some c
    → go_on P k ≡ (k, load_state k.exc_state)
unfolding go_on
go_on-some P c k e = ap (λ (o : Option ℕ). picked P k o) e

go_on-Coherent : (P : Platform) (k : Kernel) → Coherent (some (go_on P k))
go_on-Coherent P k = elim (Option-cases k.curr_proc) [
  | inl e ↦ subst (λ r. Coherent (some r)) (sym (go_on-none P k e)) (dispatch-Coherent P k (inl e))
  | inr (c, e) ↦ subst (λ r. Coherent (some r)) (sym (go_on-some P c k e)) (ap is_some e)
]

plt-Coherent : (P : Platform) (k : Kernel) → Coherent (plt_interrupt_handler P k)
unfolding plt_interrupt_handler
plt-Coherent P k = bind-Coherent k.curr_proc _ (λ c. requeue-Coherent P c _)

requeue_current-Coherent :
    (P : Platform) (o : Option ℕ) (k : Kernel)
    → k.curr_proc ≡ o
    → Coherent (some (dispatch P (requeue_current P o k)))
unfolding requeue_current
requeue_current-Coherent P none k e = dispatch-Coherent P k (inl e)
requeue_current-Coherent P (some c) k e = requeue-Coherent P c k

it-Coherent : (P : Platform) (k : Kernel) → Coherent (it_interrupt_handler P k)
unfolding it_interrupt_handler
it-Coherent P k =
    let sem = device_sem P nsuppsem in
    let k1 = record k { interval = psecond } in
    bind-Coherent (unblock_all (suc (length (waiting sem k.asl))) sem k1)
      (λ k2. some (dispatch P (requeue_current P k2.curr_proc (store sem 0 k2))))
      (λ k2. requeue_current-Coherent P k2.curr_proc (store sem 0 k2) refl)

serve_device-Coherent : (P : Platform) (o : Option Ack) (k : Kernel) → Coherent (serve_device P o k)
unfolding serve_device
serve_device-Coherent P none k = go_on-Coherent P k
serve_device-Coherent P (some (status, idx, k1)) k =
    bind-Coherent (remove_blocked (device_sem P idx) k1)
      (λ r. some (go_on P (complete P (device_sem P idx) status r)))
      (λ r. go_on-Coherent P (complete P (device_sem P idx) status r))

found_device-Coherent :
    (P : Platform) (line : ℕ) (o : Option ℕ) (k : Kernel)
    → Coherent
        (elim o [ none ↦ some (go_on P k) | some dev ↦ serve_device P (ack_device P line dev k) k ])
found_device-Coherent P line none k = go_on-Coherent P k
found_device-Coherent P line (some dev) k = serve_device-Coherent P (ack_device P line dev k) k

found_line-Coherent :
    (P : Platform) (o : Option ℕ) (k : Kernel)
    → Coherent (elim o [
      | none ↦ some (go_on P k)
      | some line ↦ elim (dev_no (k.mem (map_addr line))) [
        | none ↦ some (go_on P k)
        | some dev ↦ serve_device P (ack_device P line dev k) k
      ]
    ])
found_line-Coherent P none k = go_on-Coherent P k
found_line-Coherent P (some line) k =
    found_device-Coherent P line (dev_no (k.mem (map_addr line))) k

pub interrupt-Coherent : (P : Platform) (k : Kernel) → Coherent (interrupt_handler P k)
unfolding interrupt_handler device_interrupt_handler
interrupt-Coherent P k =
    let code = bit_and k.exc_state.cause P.cause_exccode_mask in
    if-Coherent (code == 7) _ _ (plt-Coherent P k) (
      if-Coherent (code == 3) _ _ (it-Coherent P k) (
        if-Coherent (leb 17 code && leb code 21) _ _ (found_line-Coherent P (int_line_no code) k)
          tt))
