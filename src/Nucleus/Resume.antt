-- ===== src/Nucleus/Resume.antt =====
-- A process that leaves the CPU and comes back: the state that was saved is the state that is loaded.
use pand_ossh.Common.{
  ==_self, List, Option, ap, bind_some, false, is_pos, none, refl, some, subst, sym, ℕ, ◌>>=◌, ◌∙◌,
  ◌∷◌, ◌≡◌,
}
use pand_ossh.Nucleus.Yield.{save-SameState}
use pand_ossh.Nucleus.Dispatch.{dispatch-Kept, dispatch_first}
use pand_ossh.Nucleus.Blocking.{insert_blocked-Queued}
use pand_ossh.Auxfun.{copy_state-SameState, SameState}
use pand_ossh.Nucleus.Places.{Inv-same, Inv}
use pand_ossh.Scheduler.{dispatch, start}
use pand_ossh.Syscall.{nsys10, nsys7, nsys5, nsys3, block_on, save}
use pand_ossh.Machine.{Outcome, Pcb, load_state, State, Run, Platform, Kernel}
use pand_ossh.Interrupts.{plt_interrupt_handler, requeue}

-- The ways to leave the CPU and stay alive.
pub data Leaving : Type 0 where
  passeren : ℕ → Leaving
  do_io : ℕ → ℕ → Leaving
  wait_clock yield time_slice : Leaving

-- The handler of each.
abbrev leave : Platform → Leaving → Kernel → Run
leave P (passeren a) k = nsys3 P a k
leave P (do_io a v) k = nsys5 P a v k
leave P wait_clock k = nsys7 P k
leave P yield k = nsys10 P k
leave P time_slice k = plt_interrupt_handler P k

-- Passeren takes the CPU away only from a semaphore that is not positive.
abbrev pub Gives : Leaving → Kernel → Type 0
Gives (passeren a) k = is_pos (k.mem a) ≡ false
Gives _ k = Unit {0}

-- c runs, with the state s as edited.
abbrev pub Resumes : Platform → ℕ → (State → State) → State → Run → Type 0
Resumes P c edit s none = ⊥
Resumes P c edit s (some (k, o)) =
    (t : State) × (o ≡ load_state (edit t)) × (k.curr_proc ≡ some c) × SameState P t s

-- The handler, then what the others do, then the scheduler.
abbrev pub leave_and_return : Platform → Leaving → (Kernel → Kernel) → Kernel → Run
leave_and_return P how others k = leave P how k >>= λ r. some (dispatch P (others r.0))

module _ (P : Platform) (c : ℕ) (others : Kernel → Kernel) (edit : State → State) (q : List ℕ)
    (keeps : (k : Kernel) → ((others k).pcb_table c).p_s ≡ edit (k.pcb_table c).p_s)
    (first : (k : Kernel) → (others k).ready_queue ≡ c ∷ q) where
  dispatched-Resumes :
      (s : State) (k : Kernel)
      → SameState P (k.pcb_table c).p_s s
      → Resumes P c edit s (some (dispatch P (others (dispatch P k).0)))
  unfolding start
  dispatched-Resumes s k saved =
      let e = dispatch_first P (others (dispatch P k).0) c q (first _) in
      let kept = ap (λ (t : ℕ → Pcb). (t c).p_s) (dispatch-Kept P k).pcb_table in
      (
        (k.pcb_table c).p_s,
        ap (λ (r : Kernel × Outcome). r.1) e ∙ ap load_state (keeps _ ∙ ap edit kept),
        ap (λ (r : Kernel × Outcome). r.0.curr_proc) e,
        saved,
      )

  left-Resumes :
      (s : State) (o : Option ℕ) (f : ℕ → Kernel)
      → o ≡ some c
      → SameState P ((f c).pcb_table c).p_s s
      → Resumes P c edit s
          ((o >>= λ d. some (dispatch P (f d))) >>= λ r. some (dispatch P (others r.0)))
  left-Resumes s o f e saved =
      subst (λ (r : Run). Resumes P c edit s (r >>= λ r. some (dispatch P (others r.0))))
        (sym (bind_some _ e)) (dispatched-Resumes s (f c) saved)

-- `insertBlocked` changes the semaphore that the PCB names, and nothing else of it.
block_on_state :
    (a c : ℕ) (k : Kernel)
    → Inv k
    → k.curr_proc ≡ some c
    → ((block_on a c k).pcb_table c).p_s ≡ (k.pcb_table c).p_s
unfolding block_on
block_on_state a c k v e =
    let t = (insert_blocked-Queued a c k v e).table in
    ap (λ (f : ℕ → Pcb). (f c).p_s) t ∙ rw (==_self c) refl

parked :
    (P : Platform) (a c n : ℕ) (k : Kernel)
    → Inv k
    → k.curr_proc ≡ some c
    → SameState P
        ((block_on a c (record (save P c k) { soft_block_count = n })).pcb_table c).p_s
        k.exc_state
unfolding save
parked P a c n k v e =
    let s = record (save P c k) { soft_block_count = n } in
    subst (λ t. SameState P t k.exc_state)
      (sym (block_on_state a c s (Inv-same k s refl refl refl refl refl refl v) e))
      (save-SameState P c k)

requeue-SameState :
    (P : Platform) (c : ℕ) (k : Kernel) → SameState P ((requeue P c k).pcb_table c).p_s k.exc_state
unfolding requeue
requeue-SameState P c k = rw (==_self c) (copy_state-SameState P (k.pcb_table c).p_s k.exc_state)

-- A process leaves the CPU for a semaphore, for a device, for the clock, by yielding or at the end of
-- its time slice; the others do whatever they do, but end with it first in the ready queue, and its
-- saved state edited (a device's handler writes the result into it). Then nothing faults, and the
-- scheduler lets it run on in the state in which it left, as edited.
pub leave_and_return-Resumes :
    (P : Platform) (how : Leaving) (c : ℕ) (k : Kernel) (others : Kernel → Kernel)
    (edit : State → State) (q : List ℕ)
    → Inv k
    → k.curr_proc ≡ some c
    → Gives how k
    → ((k1 : Kernel) → ((others k1).pcb_table c).p_s ≡ edit (k1.pcb_table c).p_s)
    → ((k1 : Kernel) → (others k1).ready_queue ≡ c ∷ q)
    → Resumes P c edit k.exc_state (leave_and_return P how others k)
unfolding nsys3 nsys5 nsys7 nsys10 plt_interrupt_handler save
leave_and_return-Resumes P (passeren a) c k others edit q v e down keeps first = rw down (
    left-Resumes P c others edit q keeps first k.exc_state _ _ e
      (parked P a c k.soft_block_count k v e))
leave_and_return-Resumes P (do_io a w) c k others edit q v e g keeps first =
    left-Resumes P c others edit q keeps first k.exc_state _ _ e (parked P _ c _ k v e)
leave_and_return-Resumes P wait_clock c k others edit q v e g keeps first =
    left-Resumes P c others edit q keeps first k.exc_state _ _ e (parked P _ c _ k v e)
leave_and_return-Resumes P yield c k others edit q v e g keeps first =
    left-Resumes P c others edit q keeps first k.exc_state _ _ e (save-SameState P c k)
leave_and_return-Resumes P time_slice c k others edit q v e g keeps first =
    left-Resumes P c others edit q keeps first k.exc_state _ _ e (requeue-SameState P c _)
