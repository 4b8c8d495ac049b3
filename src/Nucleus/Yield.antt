-- ===== src/Nucleus/Yield.antt =====
-- NSYS10 of phase2/src/syscall.c: who runs next.
use pand_ossh.Auxfun.{copy_state-SameState, SameState}
use pand_ossh.Nucleus.Dispatch.{dispatch_first}
use pand_ossh.Scheduler.{start}
use pand_ossh.Pcb.{insert_proc_q, remove_proc_q}
use pand_ossh.Machine.{load_state, Run, Kernel, Platform}
use pand_ossh.Syscall.{nsys10, yield_queue, save}
use pand_ossh.Common.{==_self, List, [], ap, bind_some, none, refl, some, ℕ, ◌∙◌, ◌∷◌, ◌≡◌}

-- The process that yields stands in the ready queue as `insertProcQ` puts it, and `h` runs.
pub record Yielded (P : Platform) (c h : ℕ) (q : List ℕ) (k : Kernel) (r : Run) : Type 0 where
  pub after : Kernel
  pub ran : r ≡ some (after, load_state (after.pcb_table h).p_s)
  pub current : after.curr_proc ≡ some h
  pub queue : after.ready_queue ≡ q
  pub state : SameState P (after.pcb_table c).p_s k.exc_state

pub save-SameState :
    (P : Platform) (c : ℕ) (k : Kernel) → SameState P ((save P c k).pcb_table c).p_s k.exc_state
unfolding save
save-SameState P c k = rw (==_self c) (copy_state-SameState P (k.pcb_table c).p_s k.exc_state)

yielded :
    (P : Platform) (c h : ℕ) (q : List ℕ) (k : Kernel)
    → k.curr_proc ≡ some c
    → yield_queue (save P c k).pcb_table c (remove_proc_q (save P c k).ready_queue) ≡ h ∷ q
    → Yielded P c h q k (nsys10 P k)
unfolding nsys10 start
yielded P c h q k e f =
    let s = save P c k in
    let k2 = record s {
      ready_queue = yield_queue s.pcb_table c (remove_proc_q s.ready_queue);
      curr_proc = none;
    } in
    record {
      after = (start P h q k2).0;
      ran = bind_some _ e ∙ ap some (dispatch_first P k2 h q f);
      current = refl;
      queue = refl;
      state = save-SameState P c k;
    }

-- Yield with a process ready runs the head of the ready queue, also when the caller has a higher
-- priority, and puts the caller into the rest of the queue by its priority; the caller's state is
-- saved.
pub nsys10-Yielded :
    (P : Platform) (c h : ℕ) (q : List ℕ) (k : Kernel)
    → k.curr_proc ≡ some c
    → k.ready_queue ≡ h ∷ q
    → Yielded P c h (insert_proc_q (save P c k).pcb_table c q) k (nsys10 P k)
unfolding yield_queue remove_proc_q save
nsys10-Yielded P c h q k e f =
    yielded P c h _ k e (ap (λ l. yield_queue (save P c k).pcb_table c (remove_proc_q l)) f)

-- Yield with nobody ready runs the caller again.
pub nsys10_alone :
    (P : Platform) (c : ℕ) (k : Kernel)
    → k.curr_proc ≡ some c
    → k.ready_queue ≡ []
    → Yielded P c c [] k (nsys10 P k)
unfolding yield_queue remove_proc_q save insert_proc_q
nsys10_alone P c k e f =
    yielded P c c [] k e (ap (λ l. yield_queue (save P c k).pcb_table c (remove_proc_q l)) f)
