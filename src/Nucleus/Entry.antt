-- ===== src/Nucleus/Entry.antt =====
-- Every entry into the kernel keeps the invariant, but for the termination of another process.
use pand_ossh.Terminate.{nsys2}
use pand_ossh.Nucleus.Doomed.{nsys2_self-Inv, Doomed, Doomed-exc}
use pand_ossh.Common.{
  Bool, Bool-cases, Option, bind_some, bit_and, false, if◌then◌else◌, inl, inr, is_neg, leb, neg32,
  none, refl, some, subst, sym, true, ℕ, ◌&&◌, ◌==◌, ◌||◌, ◌≡◌, ◌≢◌,
}
use pand_ossh.Nucleus.Services.{nsys10-Inv, nsys7-Inv, nsys5-Inv, nsys4-Inv, nsys3-Inv}
use pand_ossh.Nucleus.Create.{nsys1-Inv}
use pand_ossh.Nucleus.Devices.{interrupt_handler-Inv}
use pand_ossh.Syscall.{nsys9, nsys8, nsys6}
use pand_ossh.Nucleus.Places.{split-Preserves, if-Preserves, Inv-same, Preserves, PreservesK, Inv}
use pand_ossh.Exceptions.{
  exception_handler, privileged, pass_up, pass_up_or_die, advance_pc, serve, exc_tlb_handler,
  exc_trap_handler, resume, syscall_handler,
}
use pand_ossh.Machine.{
  mstatus_mpp_u, general_except, pgfault_except, mstatus_mpp_mask, set_exc_a0, Platform, Kernel,
}

-- What the handlers need: a process runs; if it has no support structure, or ends itself, it stands
-- in the kernel with its descendants; and it does not ask for the end of another process.
pub record IsServed (P : Platform) (c : ℕ) (k : Kernel) : Type 0 where
  pub inv : Inv k
  pub current : k.curr_proc ≡ some c
  pub dies : ((k.pcb_table c).p_support_struct == 0) ≡ true → Doomed c k
  pub ends :
      (k.exc_state.gpr P.reg_a0 == neg32 2) ≡ true → (k.exc_state.gpr P.reg_a1 ≡ 0) × Doomed c k

pub resume-Preserves : (m : Option Kernel) → PreservesK m → Preserves (resume m)
unfolding resume
resume-Preserves none h = h
resume-Preserves (some k) h = h

pub exc_a0-Inv : (P : Platform) (v : ℕ) (k : Kernel) → Inv k → Inv (set_exc_a0 P v k)
exc_a0-Inv P v k h = Inv-same k _ refl refl refl refl refl refl h

module _ (P : Platform) (c : ℕ) (k : Kernel) (v : Inv k) (e : k.curr_proc ≡ some c) where
  pub nsys6-Inv : PreservesK (nsys6 P k)
  unfolding nsys6
  nsys6-Inv = subst PreservesK (sym (bind_some _ e)) (Inv-same k _ refl refl refl refl refl refl v)

  pub nsys8-Inv : PreservesK (nsys8 P k)
  unfolding nsys8
  nsys8-Inv = subst PreservesK (sym (bind_some _ e)) (exc_a0-Inv P _ k v)

  pub nsys9-Inv : (a1 : ℕ) → PreservesK (nsys9 P a1 k)
  unfolding nsys9
  nsys9-Inv a1 = subst PreservesK (sym (bind_some _ e)) (exc_a0-Inv P _ k v)

  pub pass_up-Inv :
      (t : ℕ)
      → (((k.pcb_table c).p_support_struct == 0) ≡ true → Doomed c k)
      → Preserves (pass_up_or_die P t k)
  unfolding pass_up_or_die pass_up
  pass_up-Inv t dies =
      subst Preserves (sym (bind_some _ e))
        (elim (Bool-cases ((k.pcb_table c).p_support_struct == 0)) [
          | inl bare ↦ rw bare (nsys2_self-Inv P c k v e (dies bare))
          | inr supported ↦ rw supported (Inv-same k _ refl refl refl refl refl refl v)
        ])

  nsys2-Inv : (a1 : ℕ) → (a1 ≡ 0) × Doomed c k → Preserves (nsys2 P a1 k)
  nsys2-Inv a1 (z, d) = subst (λ a. Preserves (nsys2 P a k)) (sym z) (nsys2_self-Inv P c k v e d)

  -- One more `if` of a `switch`.
  serve-Inv :
      (a0 a1 a2 a3 : ℕ)
      → ((a0 == neg32 2) ≡ true → (a1 ≡ 0) × Doomed c k)
      → (((k.pcb_table c).p_support_struct == 0) ≡ true → Doomed c k)
      → Preserves (serve P a0 a1 a2 a3 k)
  unfolding serve exc_trap_handler
  serve-Inv a0 a1 a2 a3 ends s =
      if-Preserves (a0 == neg32 1) _ _
        (resume-Preserves _ (exc_a0-Inv P _ _ (nsys1-Inv P a1 a2 a3 k v)))
        (split-Preserves (a0 == neg32 2) _ _ (λ h. nsys2-Inv a1 (ends h))
          (if-Preserves (a0 == neg32 3) _ _ (nsys3-Inv P a1 c k v e) (
            if-Preserves (a0 == neg32 4) _ _ (resume-Preserves _ (nsys4-Inv a1 k v)) (
              if-Preserves (a0 == neg32 5) _ _ (nsys5-Inv P a1 a2 c k v e) (
                if-Preserves (a0 == neg32 6) _ _ (resume-Preserves _ nsys6-Inv) (
                  if-Preserves (a0 == neg32 7) _ _ (nsys7-Inv P c k v e) (
                    if-Preserves (a0 == neg32 8) _ _ (resume-Preserves _ nsys8-Inv) (
                      if-Preserves (a0 == neg32 9) _ _ (resume-Preserves _ (nsys9-Inv a1)) (
                        if-Preserves (a0 == neg32 10) _ _ (nsys10-Inv P c k v e)
                          (pass_up-Inv general_except s))))))))))

advance-Inv : (k : Kernel) (b : Bool) → Inv k → Inv (if b then advance_pc k else k)
advance-Inv k true v = Inv-same k _ refl refl refl refl refl refl v
advance-Inv k false v = v

advanced :
    (P : Platform) (c : ℕ) (k : Kernel) (b : Bool) (a0 a1 a2 a3 : ℕ)
    → Inv k
    → k.curr_proc ≡ some c
    → (((k.pcb_table c).p_support_struct == 0) ≡ true → Doomed c k)
    → ((a0 == neg32 2) ≡ true → (a1 ≡ 0) × Doomed c k)
    → Preserves (serve P a0 a1 a2 a3 (if b then advance_pc k else k))
advanced P c k true a0 a1 a2 a3 v e s n =
    serve-Inv P c (advance_pc k) (advance-Inv k true v) e a0 a1 a2 a3
      (λ h. ((n h).0, Doomed-exc c k _ (n h).1)) (λ h. Doomed-exc c k _ (s h))
advanced P c k false a0 a1 a2 a3 v e s n = serve-Inv P c k v e a0 a1 a2 a3 n s

-- SYSCALL, for each service and for the numbers that are passed up.
syscall_handler-Inv :
    (P : Platform) (c : ℕ) (k : Kernel) → IsServed P c k → Preserves (syscall_handler P k)
unfolding syscall_handler exc_trap_handler
syscall_handler-Inv P c k h =
    if-Preserves
      (is_neg (k.exc_state.gpr P.reg_a0)
        && (bit_and mstatus_mpp_mask k.exc_state.status == mstatus_mpp_u))
      _ _
      (pass_up-Inv P c (privileged k) (Inv-same k _ refl refl refl refl refl refl h.inv) h.current
        general_except (λ b. Doomed-exc c k _ (h.dies b)))
      (advanced P c k _ _ _ _ _ h.inv h.current h.dies h.ends)

-- Every exception of a running process, interrupts included, ends without a fault in a kernel with
-- the invariant: no PCB is lost or doubled, and `processCount` stays right. If the process has no
-- support structure, or calls NSYS2, it stands in the kernel with its descendants, each where its PCB
-- says, and NSYS2 is for the caller itself.
pub exception_handler-Inv :
    (P : Platform) (c : ℕ) (k : Kernel) → IsServed P c k → Preserves (exception_handler P k)
unfolding exception_handler exc_tlb_handler exc_trap_handler
exception_handler-Inv P c k h =
    let code = bit_and k.exc_state.cause P.cause_exccode_mask in
    if-Preserves (P.cause_is_int k.exc_state.cause) _ _
      (interrupt_handler-Inv P k h.inv (λ _. (c, h.current)))
      (if-Preserves (leb 24 code && leb code 28) _ _
        (pass_up-Inv P c k h.inv h.current pgfault_except h.dies)
        (if-Preserves ((code == 8) || (code == 11)) _ _ (syscall_handler-Inv P c k h)
          (pass_up-Inv P c k h.inv h.current general_except h.dies)))

-- While the CPU is idle, every interrupt but that of the processor timer does so too.
pub idle_interrupt-Inv :
    (P : Platform) (k : Kernel)
    → Inv k
    → P.cause_is_int k.exc_state.cause ≡ true
    → bit_and k.exc_state.cause P.cause_exccode_mask ≢ 7
    → Preserves (exception_handler P k)
unfolding exception_handler
idle_interrupt-Inv P k v int other = rw int (interrupt_handler-Inv P k v (λ e. absurd (other e)))
