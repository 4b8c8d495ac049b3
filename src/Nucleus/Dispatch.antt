-- ===== src/Nucleus/Dispatch.antt =====
-- What the scheduler keeps.
use pand_ossh.Common.{List, [], ap, arith, copies, none, refl, ℕ, ◌∙◌, ◌∷◌, ◌≡◌, ◌≢◌}
use pand_ossh.Pcb.{remove_proc_q}
use pand_ossh.Nucleus.Places.{IsValid-same, on_cpu, Inv, places}
use pand_ossh.Machine.{Platform, Kernel}
use pand_ossh.Scheduler.{start, idle, dispatch, dispatch_from}

-- The scheduler moves PCBs between the ready queue and the CPU, and nothing else.
pub record Kept (k k' : Kernel) : Type 0 where
  pub asl : k'.asl ≡ k.asl
  pub semd_free : k'.semd_free ≡ k.semd_free
  pub pcb_free : k'.pcb_free ≡ k.pcb_free
  pub pcb_table : k'.pcb_table ≡ k.pcb_table
  pub process_count : k'.process_count ≡ k.process_count
  pub soft_block_count : k'.soft_block_count ≡ k.soft_block_count
  pub mem : k'.mem ≡ k.mem

idle-Kept : (k : Kernel) → Kept k (idle k).0
unfolding idle
idle-Kept k = ground arith

idle-places : (k : Kernel) (a : ℕ) → places a (idle k).0 ≡ places a k
unfolding idle
idle-places k a = ground arith

dispatch_from-Kept :
    (P : Platform) (q : List ℕ) (k : Kernel) → Kept k (dispatch_from P (remove_proc_q q) k).0
unfolding dispatch_from remove_proc_q
dispatch_from-Kept P [] k = idle-Kept k
dispatch_from-Kept P (p ∷ q) k = record {
  asl = refl;
  semd_free = refl;
  pcb_free = refl;
  pcb_table = refl;
  process_count = refl;
  soft_block_count = refl;
  mem = refl;
}

pub dispatch-Kept : (P : Platform) (k : Kernel) → Kept k (dispatch P k).0
unfolding dispatch
dispatch-Kept P k = dispatch_from-Kept P k.ready_queue k

dispatch_from-places :
    (P : Platform) (q : List ℕ) (k : Kernel) (a : ℕ)
    → k.ready_queue ≡ q
    → k.curr_proc ≡ none
    → places a (dispatch_from P (remove_proc_q q) k).0 ≡ places a k
unfolding dispatch_from remove_proc_q
dispatch_from-places P [] k a e f = idle-places k a
dispatch_from-places P (p ∷ q) k a e f = ground (arith, ap (copies a) e, ap (on_cpu a) f)

dispatch-places :
    (P : Platform) (k : Kernel) (a : ℕ)
    → k.curr_proc ≡ none
    → places a (dispatch P k).0 ≡ places a k
unfolding dispatch
dispatch-places P k a e = dispatch_from-places P k.ready_queue k a refl e

-- With nobody on the CPU the scheduler keeps the invariant.
pub dispatch-Inv : (P : Platform) (k : Kernel) → Inv k → k.curr_proc ≡ none → Inv (dispatch P k).0
dispatch-Inv P k v e =
    let kept = dispatch-Kept P k in
    record {
      lists = IsValid-same k (dispatch P k).0 kept.asl kept.semd_free v.lists;
      once = λ a. dispatch-places P k a e ∙ v.once a;
      counted = rw (kept.process_count, kept.pcb_free) v.counted;
    }

dispatch_from_current :
    (P : Platform) (q : List ℕ) (k : Kernel)
    → q ≢ []
    → dispatch_from P (remove_proc_q q) k
      ≡ dispatch_from P (remove_proc_q q) (record k { curr_proc = none })
unfolding dispatch_from remove_proc_q
dispatch_from_current P [] k h = absurd (h refl)
dispatch_from_current P (p ∷ q) k h = refl

-- With a process ready the scheduler does not look at who ran before. So the invariant may count
-- the process on the CPU as gone.
pub dispatch_ready-Inv :
    (P : Platform) (k : Kernel)
    → k.ready_queue ≢ []
    → Inv (record k { curr_proc = none })
    → Inv (dispatch P k).0
unfolding dispatch
dispatch_ready-Inv P k h v =
    rw (dispatch_from_current P k.ready_queue k h)
      (dispatch-Inv P (record k { curr_proc = none }) v refl)

-- So whoever ran before loses that place.
pub dispatch_ready-places :
    (P : Platform) (k : Kernel) (a : ℕ)
    → k.ready_queue ≢ []
    → places a (dispatch P k).0 ≡ places a (record k { curr_proc = none })
unfolding dispatch
dispatch_ready-places P k a h =
    rw (dispatch_from_current P k.ready_queue k h)
      (dispatch-places P (record k { curr_proc = none }) a refl)

-- With a process ready the scheduler starts the first.
pub dispatch_first :
    (P : Platform) (k : Kernel) (p : ℕ) (q : List ℕ)
    → k.ready_queue ≡ p ∷ q
    → dispatch P k ≡ start P p q k
unfolding dispatch dispatch_from remove_proc_q
dispatch_first P k p q e = ap (λ l. dispatch_from P (remove_proc_q l) k) e

-- With none ready it halts, waits or panics.
pub dispatch-idle : (P : Platform) (k : Kernel) → k.ready_queue ≡ [] → dispatch P k ≡ idle k
unfolding dispatch dispatch_from remove_proc_q
dispatch-idle P k e = ap (λ l. dispatch_from P (remove_proc_q l) k) e
