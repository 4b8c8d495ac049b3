-- ===== src/Nucleus/Tests/Processes.antt =====
-- The processes of the small kernel: 17 runs and has the children 18 and 19.
use pand_ossh.Common.{
  ==_iff, Bool-cases, [], arith, copies, if◌then◌else◌, inl, inr, neg32, none, refl, some, subst,
  sym, update, ℕ, ◌++◌, ◌<◌, ◌==◌, ◌∷◌, ◌≡◌,
}
use pand_ossh.Nucleus.Steady.{IsHandled, serviced_by}
use pand_ossh.Nucleus.Deadlock.{steady, booted_up, exception_handler-Settles, Settles}
use pand_ossh.Nucleus.Reach.{
  Between, called, booted, exception_handler-Continues, Reach, Continues, MayCall,
}
use pand_ossh.Auxfun.{copy_gprs}
use pand_ossh.Scheduler.{start, dispatch_from, dispatch}
use pand_ossh.Pcb.{
  zero_state, mk_empty_proc_q, remove_proc_q, insert_proc_q, init_pcb, alloc_pcb, add_entries,
  init_pcbs,
}
use pand_ossh.Asl.{init_asl}
use pand_ossh.Terminate.{terminate}
use pand_ossh.Nucleus.Entry.{exception_handler-Inv}
use pand_ossh.Exceptions.{exception_handler}
use pand_ossh.Nucleus.Tests.{table, platform, loaded, blank_state, busy-Inv, busy}
use pand_ossh.Nucleus.Resume.{leave_and_return-Resumes, leave_and_return, Resumes, passeren}
use pand_ossh.Nucleus.Doomed.{Doomed-exc, Doomed}
use pand_ossh.Initial.{first_pcb, init_vector, alloc_first_pcb, main}
use pand_ossh.Nucleus.Kill.{terminate-Terminates, Stands, Terminates}
use pand_ossh.Nucleus.Places.{Inv-same, Inv, Preserves}
use pand_ossh.Machine.{State, modify_pcb, load_state, Kernel}
use pand_ossh.Nucleus.Tree.{forest_members, size, members, Tree, Family, node, bare, grow}
use pand_ossh.Nucleus.Search.{find_pcb_by_pid-Searched, Searched}
use pand_ossh.Terminate.{find_pcb_by_pid, search_fuel}
use pand_ossh.Nucleus.Withdraw.{IsPlaced, running, ready, waits_on}

abbrev family : Tree
family = node 17 (grow (node 18 bare) (grow (node 19 bare) bare))

busy-IsPlaced : (q : ℕ) → 0 < copies q (18 ∷ 19 ∷ 17 ∷ []) → IsPlaced busy q
busy-IsPlaced q w = elim (Bool-cases (q == 17)) [
  | inl e ↦ subst (IsPlaced busy) (sym ((==_iff q 17).0 e)) (running refl)
  | inr not_17 ↦ elim (Bool-cases (q == 18)) [
    | inl e ↦ subst (IsPlaced busy) (sym ((==_iff q 18).0 e)) (ready refl refl refl)
    | inr not_18 ↦
        let e : q ≡ 19 = ground arith in
        subst (IsPlaced busy) (sym e) (waits_on refl (λ z. omega (arith, z)) refl)
  ]
]

busy-Stands : Stands family busy
unfolding Family members
busy-Stands = record {
  family = (refl, ((refl, tt), ((refl, tt), tt)));
  placed = record { placed = busy-IsPlaced; once = λ q. ground arith };
}

terminate-Terminates_example : Terminates family busy (terminate platform (some 17) busy)
terminate-Terminates_example = terminate-Terminates platform family busy busy-Inv busy-Stands

-- PID 20 is that of 19.
find_pcb_by_pid-Searched_example :
    Searched table 20
      (forest_members (grow family bare)
        ++ (forest_members (grow (node 18 bare) bare) ++ (19 ∷ [])))
      (find_pcb_by_pid search_fuel 20 busy)
unfolding Family size
find_pcb_by_pid-Searched_example =
    find_pcb_by_pid-Searched 20 busy (grow family bare) (grow (node 18 bare) bare) refl refl
      ((refl, ((refl, tt), ((refl, tt), tt))), tt) ((refl, tt), tt) (omega arith, tt)
      (omega arith, tt)

-- 17 calls NSYS2 on itself.
abbrev ending : Kernel
ending = record busy {
  exc_state = record blank_state {
    cause = 8;
    status = 0x1800;
    gpr = λ i. if i == 9 then neg32 2 else 0;
  };
}

ending-Doomed : Doomed 17 ending
ending-Doomed = Doomed-exc 17 busy _ (family, refl, busy-Stands)

ending-Inv : Inv ending
ending-Inv = Inv-same busy ending refl refl refl refl refl refl busy-Inv

exception_handler-Inv_example : Preserves (exception_handler platform ending)
exception_handler-Inv_example = exception_handler-Inv platform 17 ending (record {
  inv = ending-Inv;
  current = refl;
  dies = λ h. ending-Doomed;
  ends = λ h. (refl, ending-Doomed);
})

-- 17 comes back alone in the ready queue, with a result in its first register.
abbrev served_state : State → State
served_state s = record s { gpr = update s.gpr 9 1 }

abbrev woken : Kernel → Kernel
woken k =
    modify_pcb 17 (λ b. record b { p_s = served_state b.p_s }) (record k { ready_queue = 17 ∷ [] })

leave_and_return-Resumes_example :
    Resumes platform 17 served_state blank_state
      (leave_and_return platform (passeren 100) woken (record busy { exc_state = blank_state }))
leave_and_return-Resumes_example =
    leave_and_return-Resumes platform (passeren 100) 17 (record busy { exc_state = blank_state })
      woken served_state [] (Inv-same busy _ refl refl refl refl refl refl busy-Inv) refl refl
      (λ k1. refl) (λ k1. refl)

-- The kernel once it has booted: the first process, 19, runs.
abbrev booted_kernel : Kernel
unfolding main
booted_kernel = elim (main platform loaded) [ none ↦ loaded | some (k, o) ↦ k ]

record IsBooted (k : Kernel) : Type 0 where
  starts : main platform loaded ≡ some (k, load_state (k.pcb_table 19).p_s)
  current : k.curr_proc ≡ some 19
  children : (k.pcb_table 19).p_child ≡ []

booted_kernel-IsBooted : IsBooted booted_kernel
unfolding main alloc_first_pcb init_vector init_asl init_pcbs add_entries alloc_pcb init_pcb
    first_pcb insert_proc_q dispatch dispatch_from start remove_proc_q mk_empty_proc_q zero_state
    copy_gprs
booted_kernel-IsBooted = record { starts = refl; current = refl; children = refl }

booted_Reach : Reach platform booted_kernel (load_state (booted_kernel.pcb_table 19).p_s)
booted_Reach =
    booted
      (record { process_count = refl; soft_block_count = refl; curr_proc = refl; next_pid = refl })
      booted_kernel-IsBooted.starts

-- The first process yields (service -10) in kernel mode.
abbrev yielding : Kernel
yielding = record booted_kernel {
  exc_state = record blank_state {
    cause = 8;
    status = 0x1800;
    gpr = λ i. if i == 9 then neg32 10 else 0;
  };
}

first_IsPlaced : (q : ℕ) → 0 < copies q (19 ∷ []) → IsPlaced yielding q
first_IsPlaced q w =
    let e : q ≡ 19 = elim (Bool-cases (q == 19)) [
      | inl e ↦ (==_iff q 19).0 e
      | inr other ↦ ground arith
    ] in
    subst (IsPlaced yielding) (sym e) (running booted_kernel-IsBooted.current)

first_Doomed : Doomed 19 yielding
unfolding Family members
first_Doomed = (
  node 19 bare,
  refl,
  record {
    family = (booted_kernel-IsBooted.children, tt);
    placed = record { placed = first_IsPlaced; once = λ q. ground arith };
  },
)

first_MayCall : (c : ℕ) → yielding.curr_proc ≡ some c → MayCall platform c yielding
first_MayCall c e =
    let same : 19 ≡ c = cc (booted_kernel-IsBooted.current, e) in
    subst (λ d. MayCall platform d yielding) same
      (record { dies = λ h. first_Doomed; ends = λ h. absurd (cc h) })

yielding-Between : Between booted_kernel yielding
yielding-Between = record {
  pcb_table = refl;
  pcb_free = refl;
  next_pid = refl;
  asl = refl;
  semd_free = refl;
  ready_queue = refl;
  process_count = refl;
  soft_block_count = refl;
  curr_proc = refl;
}

exception_handler-Continues_example : Continues (exception_handler platform yielding)
exception_handler-Continues_example =
    exception_handler-Continues platform booted_kernel yielding
      (load_state (booted_kernel.pcb_table 19).p_s) booted_Reach yielding-Between
      (called refl first_MayCall)

-- The call is one of a service, and on no semaphore.
first_IsHandled : (c : ℕ) → yielding.curr_proc ≡ some c → IsHandled platform c yielding
first_IsHandled c e =
    serviced_by refl refl (refl, omega arith)
      (record {
        no_end = refl;
        passes = λ h. absurd (cc h);
        signals = λ h. absurd (cc h);
        waits_for = λ h. absurd (cc h);
      })

exception_handler-Settles_example : Settles platform (exception_handler platform yielding)
exception_handler-Settles_example =
    exception_handler-Settles platform booted_kernel yielding
      (load_state (booted_kernel.pcb_table 19).p_s) refl
      (booted_up
        (record {
          process_count = refl;
          soft_block_count = refl;
          curr_proc = refl;
          next_pid = refl;
        })
        booted_kernel-IsBooted.starts)
      yielding-Between (steady refl first_IsHandled)
