-- ===== src/Pcb/Queue.antt =====
-- Laws of the process queues of phase1/pcb.c: priority order, and what each operation keeps.
use pand_ossh.Common.{
  ℕ, ◌+◌, ◌≤◌, ◌<◌, ◌≡◌, refl, ap, inl, inr, true, none, some, List, [], ◌∷◌, ◌++◌, arith,
  if◌then◌else◌, ◌==◌, copies, contains, biased, slt32, Bool-cases, copies-remove,
}
use pand_ossh.Machine.{Pcb}
use pand_ossh.Pcb.{insert_proc_q, remove_proc_q, out_proc_q}

-- The priority of a PCB, as a number that grows with the `int`.
abbrev pub prio : (ℕ → Pcb) → ℕ → ℕ
prio t p = biased (t p).p_prio

-- Every PCB on the queue has at most the priority n.
abbrev pub AllLe : (ℕ → Pcb) → ℕ → List ℕ → Type 0
AllLe t n [] = Unit {0}
AllLe t n (q ∷ qs) = (prio t q ≤ n) × AllLe t n qs

-- Priorities fall along the queue.
abbrev pub IsOrdered : (ℕ → Pcb) → List ℕ → Type 0
IsOrdered t [] = Unit {0}
IsOrdered t (q ∷ qs) = AllLe t (prio t q) qs × IsOrdered t qs

-- The PCBs of at least, and of less than, the priority of p, in their order.
abbrev pub at_least : (ℕ → Pcb) → ℕ → List ℕ → List ℕ
at_least t p [] = []
at_least t p (q ∷ qs) =
    if slt32 (t q).p_prio (t p).p_prio then at_least t p qs else q ∷ at_least t p qs

abbrev pub lower : (ℕ → Pcb) → ℕ → List ℕ → List ℕ
lower t p [] = []
lower t p (q ∷ qs) = if slt32 (t q).p_prio (t p).p_prio then q ∷ lower t p qs else lower t p qs

module _ (t : ℕ → Pcb) where
  AllLe-mono : (m n : ℕ) (qs : List ℕ) → m ≤ n → AllLe t m qs → AllLe t n qs
  AllLe-mono m n [] h a = tt
  AllLe-mono m n (q ∷ qs) h a = (omega arith, AllLe-mono m n qs h a.1)

  AllLe-insert :
      (n p : ℕ) (qs : List ℕ) → prio t p ≤ n → AllLe t n qs → AllLe t n (insert_proc_q t p qs)
  unfolding insert_proc_q
  AllLe-insert n p [] h a = (h, tt)
  AllLe-insert n p (q ∷ qs) h a = elim (Bool-cases (slt32 (t q).p_prio (t p).p_prio)) [
    | inl less ↦ rw less (h, a)
    | inr more ↦ rw more (a.0, AllLe-insert n p qs h a.1)
  ]

  -- `insertProcQ` keeps a queue in the order of priorities.
  pub insert_proc_q-IsOrdered :
      (p : ℕ) (qs : List ℕ) → IsOrdered t qs → IsOrdered t (insert_proc_q t p qs)
  unfolding insert_proc_q
  insert_proc_q-IsOrdered p [] o = (tt, tt)
  insert_proc_q-IsOrdered p (q ∷ qs) o = elim (Bool-cases (slt32 (t q).p_prio (t p).p_prio)) [
    | inl less ↦ rw less ((ground arith, AllLe-mono (prio t q) (prio t p) qs (ground arith) o.0), o)
    | inr more ↦
        rw more (AllLe-insert (prio t q) p qs (ground arith) o.0, insert_proc_q-IsOrdered p qs o.1)
  ]

  at_least-AllLe :
      (p : ℕ) (qs : List ℕ) (n : ℕ) → AllLe t n qs → n < prio t p → at_least t p qs ≡ []
  at_least-AllLe p [] n a h = refl
  at_least-AllLe p (q ∷ qs) n a h = ground (arith, at_least-AllLe p qs n a.1 h)

  lower-AllLe : (p : ℕ) (qs : List ℕ) (n : ℕ) → AllLe t n qs → n < prio t p → lower t p qs ≡ qs
  lower-AllLe p [] n a h = refl
  lower-AllLe p (q ∷ qs) n a h = ground (arith, lower-AllLe p qs n a.1 h)

  -- On a queue in priority order `insertProcQ` puts the PCB behind all of at least its priority and
  -- before all of a lower one, and leaves the order of the others alone.
  pub insert_proc_q_splits :
      (p : ℕ) (qs : List ℕ)
      → IsOrdered t qs
      → insert_proc_q t p qs ≡ at_least t p qs ++ p ∷ lower t p qs
  unfolding insert_proc_q
  insert_proc_q_splits p [] o = refl
  insert_proc_q_splits p (q ∷ qs) o = elim (Bool-cases (slt32 (t q).p_prio (t p).p_prio)) [
    | inl less ↦
        let h : prio t q < prio t p = ground arith in
        rw (less, at_least-AllLe p qs (prio t q) o.0 h, lower-AllLe p qs (prio t q) o.0 h)
    | inr more ↦ rw more (ap (◌∷◌ q) (insert_proc_q_splits p qs o.1))
  ]

  pub copies-insert_proc_q :
      (a p : ℕ) (qs : List ℕ)
      → copies a (insert_proc_q t p qs) ≡ (if p == a then 1 else 0) + copies a qs
  unfolding insert_proc_q
  copies-insert_proc_q a p [] = refl
  copies-insert_proc_q a p (q ∷ qs) = ground (arith, copies-insert_proc_q a p qs)

  AllLe-contains : (n p : ℕ) (qs : List ℕ) → AllLe t n qs → contains p qs ≡ true → prio t p ≤ n
  AllLe-contains n p [] a h = ground arith
  AllLe-contains n p (q ∷ qs) a h = ground (arith, AllLe-contains n p qs a.1)

  -- `removeProcQ` on a queue in priority order takes a PCB that no other on the queue outranks, and
  -- leaves the others in order.
  pub remove_proc_q_max :
      (p q : ℕ) (qs : List ℕ)
      → IsOrdered t qs
      → (remove_proc_q qs).0 ≡ some p
      → contains q qs ≡ true
      → (prio t q ≤ prio t p) × IsOrdered t (remove_proc_q qs).1
  unfolding remove_proc_q
  remove_proc_q_max p q [] o e h = cc
  remove_proc_q_max p q (x ∷ xs) o e h = (ground (arith, AllLe-contains (prio t x) q xs o.0), o.1)

pub copies-remove_proc_q :
    (a : ℕ) (qs : List ℕ)
    → copies a qs
      ≡ copies a (remove_proc_q qs).1
        + (elim (remove_proc_q qs).0 [ none ↦ 0 | some p ↦ (if p == a then 1 else 0) ])
unfolding remove_proc_q
copies-remove_proc_q a [] = refl
copies-remove_proc_q a (q ∷ qs) = omega arith

-- `outProcQ` finds a PCB exactly when it is on the queue, takes one occurrence of it out, and
-- changes nothing else.
pub out_proc_q_lem :
    (p a : ℕ) (qs : List ℕ)
    → ((out_proc_q p qs).0 ≡ (if contains p qs then some p else none))
      × (copies a (out_proc_q p qs).1 + (if contains p qs then (if p == a then 1 else 0) else 0)
          ≡ copies a qs)
unfolding out_proc_q
out_proc_q_lem p a qs = (ground arith, ground (arith, copies-remove p a qs))
