-- ===== src/Nucleus/Steady.antt =====
-- The exceptions that end no process: they end without a fault, keep the invariant and `softBlock_count`,
-- and leave an outcome that fits the current process.
use pand_ossh.Nucleus.Services.{nsys7-Inv, nsys5-Inv, nsys4-Inv, nsys3-Inv, nsys10-Inv}
use pand_ossh.Nucleus.Agrees.{resume-Coherent, interrupt-Coherent, Coherent, Busy}
use pand_ossh.Nucleus.Devices.{interrupt_handler-Inv}
use pand_ossh.Nucleus.Handover.{
  nsys7-Coherent, nsys5-Coherent, nsys4-Busy, nsys3-Coherent, nsys10-Coherent, pass_up-Coherent,
  nsys1_current, bind-Busy,
}
use pand_ossh.Nucleus.Doomed.{Doomed}
use pand_ossh.Interrupts.{interrupt_handler}
use pand_ossh.Nucleus.Entry.{
  nsys6-Inv, resume-Preserves, nsys9-Inv, pass_up-Inv, exc_a0-Inv, nsys8-Inv,
}
use pand_ossh.Common.{
  Bool, Bool-cases, Option, add32, ap, arith, bind_some, bit_and, false, if◌then◌else◌, inl, inr,
  is_neg, is_some, leb, neg32, none, refl, some, subst, suc, sym, true, ℕ, ◌&&◌, ◌*◌, ◌<◌, ◌==◌,
  ◌^◌, ◌||◌, ◌∙◌, ◌≡◌, ◌⊎◌,
}
use pand_ossh.Nucleus.Count.{
  CountsK, Counted-same, nsys3-Counted, nsys4-Counted, nsys5-Counted, nsys7-Counted,
}
use pand_ossh.Nucleus.Ticks.{interrupt_handler-Counted}
use pand_ossh.Nucleus.Soft.{soft_blocked-le, Counts, dispatch-Counts, Counted, IsOther}
use pand_ossh.Nucleus.Create.{nsys1-Inv, create_places}
use pand_ossh.Nucleus.Places.{Preserves, PreservesK, Inv, Inv-same}
use pand_ossh.Pcb.Alloc.{alloc_pcb-Allocates, Allocates}
use pand_ossh.Pcb.{alloc_pcb}
use pand_ossh.Syscall.{create, nsys1, nsys6, nsys8, nsys9, nsys10, save, io_index}
use pand_ossh.Exceptions.{
  exception_handler, privileged, pass_up, pass_up_or_die, advance_pc, serve, exc_tlb_handler,
  exc_trap_handler, resume, syscall_handler,
}
use pand_ossh.Machine.{
  mstatus_mpp_u, general_except, pgfault_except, mstatus_mpp_mask, Platform, Kernel, Run,
  device_sem, nsuppsem, wordlen,
}

-- A call that the count of blocked processes allows for: P and V are not on the semaphores of devices
-- and of the clock, DoIO is on a register of a device, and no process is ended.
pub record IsSteady (P : Platform) (a0 a1 : ℕ) : Type 0 where
  pub no_end : (a0 == neg32 2) ≡ false
  pub passes : (a0 == neg32 3) ≡ true → IsOther P a1
  pub signals : (a0 == neg32 4) ≡ true → IsOther P a1
  pub waits_for :
      (a0 == neg32 5) ≡ true
      → (j : ℕ) × (j < suc nsuppsem)
        × (add32 P.device_semaphores (io_index P a1 * wordlen) ≡ device_sem P j)

-- The number of a service of the nucleus.
abbrev pub IsService : ℕ → Type 0
IsService a0 = (leb (neg32 10) a0 ≡ true) × (a0 < 2 ^ 32)

-- The cause is that of a SYSCALL, from user mode or from kernel mode.
abbrev pub is_call : Platform → Kernel → Bool
is_call P k =
    let code = bit_and k.exc_state.cause P.cause_exccode_mask in (code == 8) || (code == 11)

-- The process was in user mode.
abbrev pub user_mode : Kernel → Bool
user_mode k = bit_and mstatus_mpp_mask k.exc_state.status == mstatus_mpp_u

-- The call that a process makes is steady.
abbrev pub CallsSteadily : Platform → Kernel → Type 0
CallsSteadily P k = IsSteady P (k.exc_state.gpr P.reg_a0) (k.exc_state.gpr P.reg_a1)

-- Why an exception of c does not end it: it is interrupted; or it has a support structure; or it calls
-- a service in kernel mode. What a SYSCALL in kernel mode asks for is steady.
pub data IsHandled (P : Platform) (c : ℕ) (k : Kernel) : Type 0 where
  interrupted_by : P.cause_is_int k.exc_state.cause ≡ true → IsHandled P c k
  supported_by :
      ((k.pcb_table c).p_support_struct == 0) ≡ false
      → (is_call P k ≡ true → user_mode k ≡ false → CallsSteadily P k)
      → IsHandled P c k
  serviced_by :
      is_call P k ≡ true
      → user_mode k ≡ false
      → IsService (k.exc_state.gpr P.reg_a0)
      → CallsSteadily P k
      → IsHandled P c k

-- What a run keeps.
pub record Keeps (P : Platform) (r : Run) : Type 0 where
  pub inv : Preserves r
  pub fits : Coherent r
  pub counts : Counts P r

-- Both branches of an `if`, each under its condition.
either :
    (M : Run → Type 0) (b : Bool) (x y : Run)
    → (b ≡ true → M x)
    → (b ≡ false → M y)
    → M (if b then x else y)
either M true x y h g = h refl
either M false x y h g = g refl

create-Counted :
    (P : Platform) (a1 a2 a3 : ℕ) (k : Kernel) (r : Option ℕ × Kernel)
    → Counted P k
    → Allocates P k r
    → Counted P (create P a1 a2 a3 r).1
unfolding create
create-Counted P a1 a2 a3 k (none, k1) n h = subst (Counted P) (sym h.1) n
create-Counted P a1 a2 a3 k (some p, k1) n (rest, h) =
    let s = create_places P a1 a2 a3 p k1 in
    Counted-same P k (create P a1 a2 a3 (some p, k1)).1 (s.asl ∙ h.asl)
      (s.soft_block_count ∙ h.soft_block_count) n

resume-Counted : (P : Platform) (m : Option Kernel) → CountsK P m → Counts P (resume m)
unfolding resume
resume-Counted P none h = h
resume-Counted P (some k) h = (h, tt)

module _ (P : Platform) (c : ℕ) (k : Kernel) (v : Inv k) (n : Counted P k)
    (e : k.curr_proc ≡ some c) where
  nsys1-Counted : (a1 a2 a3 : ℕ) → Counted P (nsys1 P a1 a2 a3 k).1
  unfolding nsys1
  nsys1-Counted a1 a2 a3 = create-Counted P a1 a2 a3 k (alloc_pcb P k) n (alloc_pcb-Allocates P k)

  busy : is_some k.curr_proc ≡ true
  busy = ap is_some e

  nsys6-Counted : CountsK P (nsys6 P k)
  unfolding nsys6
  nsys6-Counted = subst (CountsK P) (sym (bind_some _ e)) n

  nsys8-Counted : CountsK P (nsys8 P k)
  unfolding nsys8
  nsys8-Counted = subst (CountsK P) (sym (bind_some _ e)) n

  nsys9-Counted : (a1 : ℕ) → CountsK P (nsys9 P a1 k)
  unfolding nsys9
  nsys9-Counted a1 = subst (CountsK P) (sym (bind_some _ e)) n

  nsys10-Counted : Counts P (nsys10 P k)
  unfolding nsys10 save
  nsys10-Counted =
      subst (Counts P) (sym (bind_some _ e)) (dispatch-Counts P _ (soft_blocked-le P k v) n)

  pass_up-Keeps :
      (t : ℕ) → ((k.pcb_table c).p_support_struct == 0) ≡ false → Keeps P (pass_up_or_die P t k)
  unfolding pass_up_or_die pass_up
  pass_up-Keeps t supported =
      let dies : ((k.pcb_table c).p_support_struct == 0) ≡ true → Doomed c k =
        λ bare. absurd (cc (bare, supported)) in
      record {
        inv = pass_up-Inv P c k v e t dies;
        fits = pass_up-Coherent P c k v e t dies;
        counts = subst (Counts P) (sym (bind_some _ e)) (rw supported (n, tt));
      }

  -- The services that resume the caller.
  resumed-Keeps : (m : Option Kernel) → PreservesK m → Busy m → CountsK P m → Keeps P (resume m)
  resumed-Keeps m i b h = record {
    inv = resume-Preserves m i;
    fits = resume-Coherent m b;
    counts = resume-Counted P m h;
  }

  -- NSYS8 to NSYS10, and what is no service.
  last_services :
      (a0 a1 : ℕ)
      → (((k.pcb_table c).p_support_struct == 0) ≡ false) ⊎ IsService a0
      → (a0 == neg32 1) ≡ false
      → (a0 == neg32 2) ≡ false
      → (a0 == neg32 3) ≡ false
      → (a0 == neg32 4) ≡ false
      → (a0 == neg32 5) ≡ false
      → (a0 == neg32 6) ≡ false
      → (a0 == neg32 7) ≡ false
      → Keeps P (
          if a0 == neg32 8
          then resume (nsys8 P k)
          else if a0 == neg32 9
          then resume (nsys9 P a1 k)
          else if a0 == neg32 10
          then nsys10 P k
          else pass_up_or_die P general_except k)
  unfolding nsys8 nsys9
  last_services a0 a1 way h1 h2 h3 h4 h5 h6 h7 =
      let K = Keeps P in
      either K (a0 == neg32 8) _ _
        (λ h.
          resumed-Keeps _ (nsys8-Inv P c k v e) (bind-Busy k.curr_proc _ (λ d. busy)) nsys8-Counted)
        (λ h8.
          either K (a0 == neg32 9) _ _
            (λ h.
              resumed-Keeps _ (nsys9-Inv P c k v e a1) (bind-Busy k.curr_proc _ (λ d. busy))
                (nsys9-Counted a1))
            (λ h9.
              either K (a0 == neg32 10) _ _
                (λ h. record {
                  inv = nsys10-Inv P c k v e;
                  fits = nsys10-Coherent P c k v e;
                  counts = nsys10-Counted;
                })
                (λ h10. elim way [
                  | inl supported ↦ pass_up-Keeps general_except supported
                  | inr r ↦
                      absurd (ground (arith, r.0, r.1, h1, h2, h3, h4, h5, h6, h7, h8, h9, h10))
                ])))

  serve-Keeps :
      (a0 a1 a2 a3 : ℕ)
      → IsSteady P a0 a1
      → (((k.pcb_table c).p_support_struct == 0) ≡ false) ⊎ IsService a0
      → Keeps P (serve P a0 a1 a2 a3 k)
  unfolding serve exc_trap_handler nsys6 nsys8 nsys9
  serve-Keeps a0 a1 a2 a3 s way =
      let K = Keeps P in
      either K (a0 == neg32 1) _ _
        (λ h.
          resumed-Keeps _ (exc_a0-Inv P _ _ (nsys1-Inv P a1 a2 a3 k v))
            (ap is_some (nsys1_current P a1 a2 a3 k) ∙ busy) (nsys1-Counted a1 a2 a3))
        (λ h1.
          either K (a0 == neg32 2) _ _ (λ h. absurd (cc (h, s.no_end)))
            (λ h2.
              either K (a0 == neg32 3) _ _
                (λ h. record {
                  inv = nsys3-Inv P a1 c k v e;
                  fits = nsys3-Coherent P c k v e a1;
                  counts = nsys3-Counted P a1 c k v e (s.passes h) n;
                })
                (λ h3.
                  either K (a0 == neg32 4) _ _
                    (λ h.
                      resumed-Keeps _ (nsys4-Inv a1 k v) (nsys4-Busy a1 k v.lists busy)
                        (nsys4-Counted P a1 k v (s.signals h) n))
                    (λ h4.
                      either K (a0 == neg32 5) _ _
                        (λ h.
                          let w = s.waits_for h in
                          record {
                            inv = nsys5-Inv P a1 a2 c k v e;
                            fits = nsys5-Coherent P c k v e a1 a2;
                            counts = nsys5-Counted P a1 a2 c w.0 k v e w.1 w.2 n;
                          })
                        (λ h5.
                          either K (a0 == neg32 6) _ _
                            (λ h.
                              resumed-Keeps _ (nsys6-Inv P c k v e)
                                (bind-Busy k.curr_proc _ (λ d. busy)) nsys6-Counted)
                            (λ h6.
                              either K (a0 == neg32 7) _ _
                                (λ h. record {
                                  inv = nsys7-Inv P c k v e;
                                  fits = nsys7-Coherent P c k v e;
                                  counts = nsys7-Counted P c k v e n;
                                })
                                (λ h7. last_services a0 a1 way h1 h2 h3 h4 h5 h6 h7)))))))

advanced-Keeps :
    (P : Platform) (c : ℕ) (k : Kernel) (b : Bool) (a0 a1 a2 a3 : ℕ)
    → Inv k
    → Counted P k
    → k.curr_proc ≡ some c
    → IsSteady P a0 a1
    → (((k.pcb_table c).p_support_struct == 0) ≡ false) ⊎ IsService a0
    → Keeps P (serve P a0 a1 a2 a3 (if b then advance_pc k else k))
advanced-Keeps P c k true a0 a1 a2 a3 v n e s way =
    serve-Keeps P c (advance_pc k) (Inv-same k (advance_pc k) refl refl refl refl refl refl v) n e
      a0 a1 a2 a3 s way
advanced-Keeps P c k false a0 a1 a2 a3 v n e s way = serve-Keeps P c k v n e a0 a1 a2 a3 s way

-- A number that is not negative is none of a service.
positive-IsSteady : (P : Platform) (a0 a1 : ℕ) → is_neg a0 ≡ false → IsSteady P a0 a1
positive-IsSteady P a0 a1 h = record {
  no_end = ground (arith, h);
  passes = λ e. absurd (ground (arith, h, e));
  signals = λ e. absurd (ground (arith, h, e));
  waits_for = λ e. absurd (ground (arith, h, e));
}

module _ (P : Platform) (c : ℕ) (k : Kernel) (v : Inv k) (n : Counted P k)
    (e : k.curr_proc ≡ some c) where
  -- SYSCALL by a process with a support structure.
  supported_call-Keeps :
      ((k.pcb_table c).p_support_struct == 0) ≡ false
      → (user_mode k ≡ false → CallsSteadily P k)
      → Keeps P (syscall_handler P k)
  unfolding syscall_handler exc_trap_handler
  supported_call-Keeps supported steady =
      let a0 = k.exc_state.gpr P.reg_a0 in
      either (Keeps P) (is_neg a0 && user_mode k) _ _
        (λ _.
          pass_up-Keeps P c (privileged k) (Inv-same k _ refl refl refl refl refl refl v) n e
            general_except supported)
        (λ h.
          let s : CallsSteadily P k = elim (Bool-cases (user_mode k)) [
            | inl user ↦ positive-IsSteady P a0 _ (ground (arith, h, user))
            | inr kernel ↦ steady kernel
          ] in
          advanced-Keeps P c k (is_neg a0 && leb (neg32 10) a0) _ _ _ _ v n e s (inl supported))

  -- The number of a service, in kernel mode.
  service-Keeps :
      user_mode k ≡ false
      → IsService (k.exc_state.gpr P.reg_a0)
      → CallsSteadily P k
      → Keeps P (syscall_handler P k)
  unfolding syscall_handler exc_trap_handler
  service-Keeps kernel number s =
      let a0 = k.exc_state.gpr P.reg_a0 in
      either (Keeps P) (is_neg a0 && user_mode k) _ _
        (λ user. absurd (ground (arith, user, kernel)))
        (λ _. advanced-Keeps P c k (is_neg a0 && leb (neg32 10) a0) _ _ _ _ v n e s (inr number))

  interrupted-Keeps : P.devperint ≡ 8 → Keeps P (interrupt_handler P k)
  interrupted-Keeps eight = record {
    inv = interrupt_handler-Inv P k v (λ _. (c, e));
    fits = interrupt-Coherent P k;
    counts = interrupt_handler-Counted P k eight v n (λ _. (c, e));
  }

  -- A process runs, an exception that does not end it comes, and `softBlock_count` is right. Then the
  -- handler keeps all of this.
  pub exception_handler-Keeps : P.devperint ≡ 8 → IsHandled P c k → Keeps P (exception_handler P k)
  unfolding exception_handler exc_tlb_handler exc_trap_handler
  exception_handler-Keeps eight (interrupted_by int) = rw int (interrupted-Keeps eight)
  exception_handler-Keeps eight (supported_by supported steady) =
      let code = bit_and k.exc_state.cause P.cause_exccode_mask in
      let K = Keeps P in
      either K (P.cause_is_int k.exc_state.cause) _ _ (λ _. interrupted-Keeps eight)
        (λ _.
          either K (leb 24 code && leb code 28) _ _
            (λ _. pass_up-Keeps P c k v n e pgfault_except supported)
            (λ _.
              either K (is_call P k) _ _ (λ h. supported_call-Keeps supported (steady h))
                (λ _. pass_up-Keeps P c k v n e general_except supported)))
  exception_handler-Keeps eight (serviced_by call kernel number s) =
      let code = bit_and k.exc_state.cause P.cause_exccode_mask in
      let not_tlb : (leb 24 code && leb code 28) ≡ false = ground (arith, call) in
      either (Keeps P) (P.cause_is_int k.exc_state.cause) _ _ (λ _. interrupted-Keeps eight)
        (λ _. rw (not_tlb, call) (service-Keeps kernel number s))
