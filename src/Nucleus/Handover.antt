-- ===== src/Nucleus/Handover.antt =====
-- Who runs when a system call or a trap hands the processor on.
use pand_ossh.Scheduler.{dispatch}
use pand_ossh.Nucleus.Kill.{terminate-Terminates, Terminates}
use pand_ossh.Nucleus.Doomed.{Terminated-idle, Doomed-exc, Doomed}
use pand_ossh.Terminate.{terminate, nsys2}
use pand_ossh.Nucleus.Create.{create_places}
use pand_ossh.Nucleus.Entry.{IsServed}
use pand_ossh.Asl.{remove_blocked}
use pand_ossh.Nucleus.Places.{Inv-same, Inv}
use pand_ossh.Pcb.{alloc_pcb}
use pand_ossh.Nucleus.Agrees.{
  resume-Coherent, dispatch-Coherent, interrupt-Coherent, if-Coherent, split-Coherent,
  bind-Coherent, Coherent, Busy,
}
use pand_ossh.Asl.Remove.{remove_blocked-Removed, Removed}
use pand_ossh.Asl.Insert.{IsValid}
use pand_ossh.Pcb.Alloc.{alloc_pcb-Allocates, Allocates}
use pand_ossh.Nucleus.Tree.{root, Tree}
use pand_ossh.Exceptions.{
  privileged, advance_pc, pass_up, pass_up_or_die, serve, exc_tlb_handler, exc_trap_handler,
  exception_handler, syscall_handler,
}
use pand_ossh.Machine.{
  general_except, pgfault_except, mstatus_mpp_u, mstatus_mpp_mask, Kernel, Platform,
}
use pand_ossh.Syscall.{
  nsys9, nsys8, block_on, nsys6, nsys5, nsys10, nsys7, nsys3, create, nsys4, wake, nsys1,
}
use pand_ossh.Common.{
  Bool, Option, ap, bind_some, bit_and, false, if◌then◌else◌, inl, is_neg, is_pos, is_some, leb,
  neg32, none, refl, some, subst, sym, true, ℕ, ◌&&◌, ◌==◌, ◌>>=◌, ◌||◌, ◌∙◌, ◌≡◌,
}

create_current :
    (P : Platform) (a1 a2 a3 : ℕ) (k : Kernel) (r : Option ℕ × Kernel)
    → Allocates P k r
    → (create P a1 a2 a3 r).1.curr_proc ≡ k.curr_proc
unfolding create
create_current P a1 a2 a3 k (none, k1) h = ap (λ (j : Kernel). j.curr_proc) h.1
create_current P a1 a2 a3 k (some p, k1) (rest, h) =
    (create_places P a1 a2 a3 p k1).curr_proc ∙ h.curr_proc

pub nsys1_current :
    (P : Platform) (a1 a2 a3 : ℕ) (k : Kernel) → (nsys1 P a1 a2 a3 k).1.curr_proc ≡ k.curr_proc
unfolding nsys1
nsys1_current P a1 a2 a3 k = create_current P a1 a2 a3 k (alloc_pcb P k) (alloc_pcb-Allocates P k)

wake-Busy :
    (a : ℕ) (k : Kernel) (r : Option (Option ℕ × Kernel))
    → is_some k.curr_proc ≡ true
    → Removed a k r
    → Busy (r >>= λ x. some (wake a x))
unfolding wake
wake-Busy a k none b h = tt
wake-Busy a k (some (none, k1)) b h = ap (λ (j : Kernel). is_some j.curr_proc) h.0 ∙ b
wake-Busy a k (some (some p, k1)) b (rest, pop) = ap is_some pop.others.curr_proc ∙ b

pub nsys4-Busy : (a1 : ℕ) (k : Kernel) → IsValid k → is_some k.curr_proc ≡ true → Busy (nsys4 a1 k)
unfolding nsys4
nsys4-Busy a1 k v b = wake-Busy a1 k (remove_blocked a1 k) b (remove_blocked-Removed a1 k v)

pub bind-Busy :
    {A : Type 0} (m : Option A) (f : A → Option Kernel) → ((a : A) → Busy (f a)) → Busy (m >>= f)
bind-Busy none f h = tt
bind-Busy (some a) f h = h a

terminated-Coherent :
    (P : Platform) (x : Tree) (k : Kernel) (o : Option Kernel)
    → k.curr_proc ≡ some (root x)
    → Terminates x k o
    → Coherent (o >>= λ k1. some (dispatch P k1))
terminated-Coherent P x k none e h = tt
terminated-Coherent P x k (some k1) e h = dispatch-Coherent P k1 (inl (Terminated-idle x k k1 e h))

module _ (P : Platform) (c : ℕ) (k : Kernel) (v : Inv k) (e : k.curr_proc ≡ some c) where
  busy : is_some k.curr_proc ≡ true
  busy = ap is_some e

  pub nsys3-Coherent : (a1 : ℕ) → Coherent (nsys3 P a1 k)
  unfolding nsys3 block_on
  nsys3-Coherent a1 =
      if-Coherent (is_pos (k.mem a1)) _ _ busy
        (bind-Coherent k.curr_proc _ (λ d. dispatch-Coherent P _ (inl refl)))

  pub nsys5-Coherent : (a1 a2 : ℕ) → Coherent (nsys5 P a1 a2 k)
  unfolding nsys5 block_on
  nsys5-Coherent a1 a2 = bind-Coherent k.curr_proc _ (λ d. dispatch-Coherent P _ (inl refl))

  pub nsys7-Coherent : Coherent (nsys7 P k)
  unfolding nsys7 block_on
  nsys7-Coherent = bind-Coherent k.curr_proc _ (λ d. dispatch-Coherent P _ (inl refl))

  pub nsys10-Coherent : Coherent (nsys10 P k)
  unfolding nsys10
  nsys10-Coherent = bind-Coherent k.curr_proc _ (λ d. dispatch-Coherent P _ (inl refl))

  nsys2-Coherent : Doomed c k → Coherent (nsys2 P 0 k)
  unfolding nsys2
  nsys2-Coherent (x, r, s) =
      let me : k.curr_proc ≡ some (root x) = e ∙ ap some (sym r) in
      terminated-Coherent P x k (terminate P k.curr_proc k) me
        (subst (λ o. Terminates x k (terminate P o k)) (sym me) (terminate-Terminates P x k v s))

  pub pass_up-Coherent :
      (t : ℕ)
      → (((k.pcb_table c).p_support_struct == 0) ≡ true → Doomed c k)
      → Coherent (pass_up_or_die P t k)
  unfolding pass_up_or_die pass_up
  pass_up-Coherent t dies = subst Coherent (sym (bind_some _ e)) (
      split-Coherent ((k.pcb_table c).p_support_struct == 0) _ _ (λ h. nsys2-Coherent (dies h))
        busy)

  serve-Coherent :
      (a0 a1 a2 a3 : ℕ)
      → ((a0 == neg32 2) ≡ true → (a1 ≡ 0) × Doomed c k)
      → (((k.pcb_table c).p_support_struct == 0) ≡ true → Doomed c k)
      → Coherent (serve P a0 a1 a2 a3 k)
  unfolding serve exc_trap_handler nsys6 nsys8 nsys9
  serve-Coherent a0 a1 a2 a3 ends dies =
      if-Coherent (a0 == neg32 1) _ _
        (resume-Coherent _ (ap is_some (nsys1_current P a1 a2 a3 k) ∙ busy))
        (split-Coherent (a0 == neg32 2) _ _
          (λ h. subst (λ a. Coherent (nsys2 P a k)) (sym (ends h).0) (nsys2-Coherent (ends h).1))
          (if-Coherent (a0 == neg32 3) _ _ (nsys3-Coherent a1) (
            if-Coherent (a0 == neg32 4) _ _ (resume-Coherent _ (nsys4-Busy a1 k v.lists busy)) (
              if-Coherent (a0 == neg32 5) _ _ (nsys5-Coherent a1 a2) (
                if-Coherent (a0 == neg32 6) _ _
                  (resume-Coherent _ (bind-Busy k.curr_proc _ (λ d. busy)))
                  (if-Coherent (a0 == neg32 7) _ _ nsys7-Coherent (
                    if-Coherent (a0 == neg32 8) _ _
                      (resume-Coherent _ (bind-Busy k.curr_proc _ (λ d. busy)))
                      (if-Coherent (a0 == neg32 9) _ _
                        (resume-Coherent _ (bind-Busy k.curr_proc _ (λ d. busy)))
                        (if-Coherent (a0 == neg32 10) _ _ nsys10-Coherent
                          (pass_up-Coherent general_except dies))))))))))

advanced-Coherent :
    (P : Platform) (c : ℕ) (k : Kernel) (b : Bool) (a0 a1 a2 a3 : ℕ)
    → Inv k
    → k.curr_proc ≡ some c
    → (((k.pcb_table c).p_support_struct == 0) ≡ true → Doomed c k)
    → ((a0 == neg32 2) ≡ true → (a1 ≡ 0) × Doomed c k)
    → Coherent (serve P a0 a1 a2 a3 (if b then advance_pc k else k))
advanced-Coherent P c k true a0 a1 a2 a3 v e s n =
    serve-Coherent P c (advance_pc k) (Inv-same k _ refl refl refl refl refl refl v) e a0 a1 a2 a3
      (λ h. ((n h).0, Doomed-exc c k _ (n h).1)) (λ h. Doomed-exc c k _ (s h))
advanced-Coherent P c k false a0 a1 a2 a3 v e s n = serve-Coherent P c k v e a0 a1 a2 a3 n s

syscall-Coherent :
    (P : Platform) (c : ℕ) (k : Kernel) → IsServed P c k → Coherent (syscall_handler P k)
unfolding syscall_handler exc_trap_handler
syscall-Coherent P c k h =
    if-Coherent
      (is_neg (k.exc_state.gpr P.reg_a0)
        && (bit_and mstatus_mpp_mask k.exc_state.status == mstatus_mpp_u))
      _ _
      (pass_up-Coherent P c (privileged k) (Inv-same k _ refl refl refl refl refl refl h.inv)
        h.current general_except (λ b. Doomed-exc c k _ (h.dies b)))
      (advanced-Coherent P c k _ _ _ _ _ h.inv h.current h.dies h.ends)

pub exception-Coherent :
    (P : Platform) (c : ℕ) (k : Kernel) → IsServed P c k → Coherent (exception_handler P k)
unfolding exception_handler exc_tlb_handler exc_trap_handler
exception-Coherent P c k h =
    let code = bit_and k.exc_state.cause P.cause_exccode_mask in
    if-Coherent (P.cause_is_int k.exc_state.cause) _ _ (interrupt-Coherent P k) (
      if-Coherent (leb 24 code && leb code 28) _ _
        (pass_up-Coherent P c k h.inv h.current pgfault_except h.dies)
        (if-Coherent ((code == 8) || (code == 11)) _ _ (syscall-Coherent P c k h)
          (pass_up-Coherent P c k h.inv h.current general_except h.dies)))

pub interrupted-Coherent :
    (P : Platform) (k : Kernel)
    → P.cause_is_int k.exc_state.cause ≡ true
    → Coherent (exception_handler P k)
unfolding exception_handler
interrupted-Coherent P k int = rw int (interrupt-Coherent P k)
