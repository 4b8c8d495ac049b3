-- ===== src/Nucleus/Doomed.antt =====
-- The end of the running process: NSYS2 on itself, and an exception that nobody above handles.
use pand_ossh.Common.{
  Option, ap, arith, none, not_contains-copies, some, subst, sym, ℕ, ◌>>=◌, ◌∙◌, ◌≡◌,
}
use pand_ossh.Nucleus.Dispatch.{dispatch-Inv}
use pand_ossh.Nucleus.Ended.{unless_in}
use pand_ossh.Scheduler.{dispatch}
use pand_ossh.Nucleus.Kill.{Terminated, terminate-Terminates, Stands, Terminates}
use pand_ossh.Nucleus.Withdraw.{ready, waits_on, running, IsPlaced}
use pand_ossh.Nucleus.Tree.{copies-root, members, root, Tree}
use pand_ossh.Nucleus.Places.{Preserves, Inv}
use pand_ossh.Terminate.{terminate, nsys2}
use pand_ossh.Machine.{State, Kernel, Platform}

-- The running process c and its descendants stand in the kernel.
abbrev pub Doomed : ℕ → Kernel → Type 0
Doomed c k = (x : Tree) × (root x ≡ c) × Stands x k

IsPlaced-exc :
    (k : Kernel) (s : State) (q : ℕ) → IsPlaced k q → IsPlaced (record k { exc_state = s }) q
IsPlaced-exc k s q (running e) = running e
IsPlaced-exc k s q (waits_on other ne here) = waits_on other ne here
IsPlaced-exc k s q (ready other z here) = ready other z here

-- The saved state does not matter.
pub Doomed-exc :
    (c : ℕ) (k : Kernel) (s : State) → Doomed c k → Doomed c (record k { exc_state = s })
Doomed-exc c k s (x, e, h) = (
  x,
  e,
  record {
    family = h.family;
    placed = record {
      placed = λ q w. IsPlaced-exc k s q (h.placed.placed q w);
      once = h.placed.once;
    };
  },
)

-- Once the running process ended, nobody runs.
pub Terminated-idle :
    (x : Tree) (k k1 : Kernel)
    → k.curr_proc ≡ some (root x)
    → Terminated x k k1
    → k1.curr_proc ≡ none
Terminated-idle x k k1 e h =
    let gone : unless_in (members x) (some (root x)) ≡ none =
      ground (arith, copies-root x, not_contains-copies (root x) (members x)) in
    h.ended.current ∙ ap (unless_in (members x)) e ∙ gone

dispatched-Preserves :
    (P : Platform) (x : Tree) (k : Kernel) (o : Option Kernel)
    → k.curr_proc ≡ some (root x)
    → Terminates x k o
    → Preserves (o >>= λ k1. some (dispatch P k1))
dispatched-Preserves P x k none e h = h
dispatched-Preserves P x k (some k1) e h =
    dispatch-Inv P k1 h.ended.inv (Terminated-idle x k k1 e h)

-- NSYS2 on the caller ends, for every tree of descendants: the scheduler picks another process, no PCB is
-- lost or doubled, and `processCount` stays right.
pub nsys2_self-Inv :
    (P : Platform) (c : ℕ) (k : Kernel)
    → Inv k
    → k.curr_proc ≡ some c
    → Doomed c k
    → Preserves (nsys2 P 0 k)
unfolding nsys2
nsys2_self-Inv P c k v e (x, r, s) =
    let me : k.curr_proc ≡ some (root x) = e ∙ ap some (sym r) in
    dispatched-Preserves P x k (terminate P k.curr_proc k) me
      (subst (λ o. Terminates x k (terminate P o k)) (sym me) (terminate-Terminates P x k v s))
