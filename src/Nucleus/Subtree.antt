-- ===== src/Nucleus/Subtree.antt =====
-- `terminateProcess` of phase2/src/syscall.c over the tree of a process: it ends, and what it leaves.
use pand_ossh.Asl.Waiting.{waiting}
use pand_ossh.Common.{
  Bool-cases, List, Option, [], ap, arith, contains, copies, copies-append, false, if◌then◌else◌,
  inl, inr, none, refl, some, true, ℕ, ◌++◌, ◌+◌, ◌<◌, ◌==◌, ◌>>=◌, ◌∙◌, ◌∷◌, ◌≡◌, ◌≢◌, ◌≤◌,
}
use pand_ossh.Asl.{out_blocked}
use pand_ossh.Nucleus.Leaves.{end_process-Ended}
use pand_ossh.Nucleus.Places.{table-SamePlaces, Inv}
use pand_ossh.Nucleus.Ended.{Ended-from, Ended-trans, Ended-IsPlaced, Ended}
use pand_ossh.Nucleus.Withdraw.{
  out_blocked-Left, waits_on, ready, is_current-some, running, IsPlaced,
}
use pand_ossh.Pcb.{leave_parent, out_child, free_pcb, remove_child}
use pand_ossh.Machine.{Pcb, Platform, set_pcb, Kernel}
use pand_ossh.Terminate.{is_device_semaphore, end_process, withdraw}
use pand_ossh.Nucleus.Tree.{
  Family-same, Families-same, copies-root, Families, Family, roots, root, grow, grow, node,
  forest_members, Tree, Forest, members,
}

-- The kernel after `removeChild(p)` took the first child c.
abbrev pub taken : (p c : ℕ) → List ℕ → Kernel → Kernel
taken p c cs k =
    let k' = set_pcb p (record (k.pcb_table p) { p_child = cs }) k in
    set_pcb c (record (k'.pcb_table c) { p_parent = none }) k'

pub remove_child-first :
    (p c : ℕ) (cs : List ℕ) (k : Kernel)
    → (k.pcb_table p).p_child ≡ c ∷ cs
    → remove_child (some p) k ≡ (some c, taken p c cs k)
unfolding remove_child
remove_child-first p c cs k e = rw e

pub remove_child-last :
    (p : ℕ) (k : Kernel) → (k.pcb_table p).p_child ≡ [] → remove_child (some p) k ≡ (none, k)
unfolding remove_child
remove_child-last p k e = rw e

pub withdraw_table :
    (P : Platform) (p : ℕ) (k : Kernel)
    → Inv k
    → IsPlaced k p
    → (withdraw P p k).pcb_table ≡ k.pcb_table
unfolding withdraw
withdraw_table P p k v (running e) = rw (is_current-some p k.curr_proc e) refl
withdraw_table P p k v (ready other sem here) =
    let hit : ((k.pcb_table p).p_sem_add == 0) ≡ true = ground arith in rw (other, hit) refl
withdraw_table P p k v (waits_on other sem here) =
    let miss : ((k.pcb_table p).p_sem_add == 0) ≡ false = ground arith in
    let same = (out_blocked-Left p k v.lists here).table in
    rw (other, miss)
      (elim (Bool-cases (is_device_semaphore P ((out_blocked p k).1.pcb_table p).p_sem_add)) [
        | inl dev ↦ rw dev same
        | inr user ↦ rw user same
      ])

-- A process without a parent leaves no trace in the table.
end_process_table :
    (P : Platform) (p : ℕ) (k : Kernel)
    → Inv k
    → IsPlaced k p
    → (k.pcb_table p).p_parent ≡ none
    → (end_process P p k).pcb_table ≡ k.pcb_table
unfolding end_process free_pcb out_child leave_parent
end_process_table P p k v h orphan =
    let same = withdraw_table P p k v h in
    let e : ((withdraw P p k).pcb_table p).p_parent ≡ none =
      ap (λ (t : ℕ → Pcb). (t p).p_parent) same ∙ orphan in
    rw e same

-- Everybody in the list is where his PCB says, and nobody is in it twice.
pub record Placed (ms : List ℕ) (k : Kernel) : Type 0 where
  pub placed : (q : ℕ) → 0 < copies q ms → IsPlaced k q
  pub once : (q : ℕ) → copies q ms ≤ 1

-- The process and its descendants ended; the other PCBs are untouched.
abbrev pub ProcessEnds : Tree → Kernel → Option Kernel → Type 0
ProcessEnds x k none = ⊥
ProcessEnds x k (some k') =
    Ended (members x) k k' × ((q : ℕ) → copies q (members x) ≡ 0 → k'.pcb_table q ≡ k.pcb_table q)

-- The descendants of p ended; p has no children any more.
abbrev pub ChildrenEnd : ℕ → Forest → Kernel → Option Kernel → Type 0
ChildrenEnd p f k none = ⊥
ChildrenEnd p f k (some k') =
    Ended (forest_members f) k k'
    × ((q : ℕ) → q ≢ p → copies q (forest_members f) ≡ 0 → k'.pcb_table q ≡ k.pcb_table q)
    × (k'.pcb_table p ≡ record (k.pcb_table p) { p_child = [] })

pub own-ProcessEnds :
    (P : Platform) (p : ℕ) (f : Forest) (k : Kernel) (o : Option Kernel)
    → Placed (members (node p f)) k
    → (k.pcb_table p).p_parent ≡ none
    → ChildrenEnd p f k o
    → ProcessEnds (node p f) k (o >>= λ k1. some (end_process P p k1))
unfolding members
own-ProcessEnds P p f k none h orphan c = c
own-ProcessEnds P p f k (some k1) h orphan (ended, others, own) =
    let apart : copies p (forest_members f) ≡ 0 =
      ground (arith, h.once p, copies-append p (forest_members f) (p ∷ [])) in
    let here : IsPlaced k p =
      h.placed p (ground (arith, copies-append p (forest_members f) (p ∷ []))) in
    let here1 : IsPlaced k1 p =
      Ended-IsPlaced (forest_members f) k k1 p ended apart (ap (λ (b : Pcb). b.p_sem_add) own)
        here in
    let last = end_process-Ended P p k1 ended.inv here1 in
    let same =
      end_process_table P p k1 ended.inv here1 (ap (λ (b : Pcb). b.p_parent) own ∙ orphan) in
    (
      Ended-trans (forest_members f) (p ∷ []) k k1 _ ended last,
      λ q z.
          ap (λ (t : ℕ → Pcb). t q) same
          ∙ others q (ground (arith, copies-append q (forest_members f) (p ∷ [])))
              (omega (arith, copies-append q (forest_members f) (p ∷ []))),
    )

-- A change of the table that leaves `p_semAdd`.
IsPlaced-table :
    (k : Kernel) (t : ℕ → Pcb) (q : ℕ)
    → (t q).p_sem_add ≡ (k.pcb_table q).p_sem_add
    → IsPlaced k q
    → IsPlaced (record k { pcb_table = t }) q
IsPlaced-table k t q sem (running e) = running e
IsPlaced-table k t q sem (waits_on other ne here) =
    waits_on other (rw sem ne) (ap (λ b. contains q (waiting b k.asl)) sem ∙ here)
IsPlaced-table k t q sem (ready other z here) = ready other (sem ∙ z) here

-- A process p whose first child is the root of x; all of them are placed.
module _ (p : ℕ) (x : Tree) (f : Forest) (k : Kernel)
    (h : Placed (members (node p (grow x f))) k) where
  counts :
      (q : ℕ) → copies q (members x) + copies q (forest_members f) + (if p == q then 1 else 0) ≤ 1
  unfolding members
  counts q = ground (
    arith,
    h.once q,
    copies-append q (members x ++ forest_members f) (p ∷ []),
    copies-append q (members x) (forest_members f),
  )

  present :
      (q : ℕ)
      → 0 < copies q (members x) + copies q (forest_members f) + (if p == q then 1 else 0)
      → IsPlaced k q
  unfolding members
  present q w = h.placed q (
      ground (
        arith,
        copies-append q (members x ++ forest_members f) (p ∷ []),
        copies-append q (members x) (forest_members f),
      ))

  root_apart : (q : ℕ) → copies q (members x) ≡ 0 → (q == root x) ≡ false
  root_apart q z = ground (arith, copies-root x)

  taken-child :
      (q : ℕ)
      → q ≢ p
      → ((taken p (root x) (roots f) k).pcb_table q).p_child ≡ (k.pcb_table q).p_child
  taken-child q ne = ground arith

  taken_sem :
      (q : ℕ) → ((taken p (root x) (roots f) k).pcb_table q).p_sem_add ≡ (k.pcb_table q).p_sem_add
  taken_sem q = ground arith

  taken-present :
      (q : ℕ)
      → 0 < copies q (members x) + copies q (forest_members f) + (if p == q then 1 else 0)
      → IsPlaced (taken p (root x) (roots f) k) q
  taken-present q w = IsPlaced-table k _ q (taken_sem q) (present q w)

  pub taken-Placed : Placed (members x) (taken p (root x) (roots f) k)
  taken-Placed = record {
    placed = λ q w. taken-present q (omega (arith, w));
    once = λ q. omega (arith, counts q);
  }

  pub taken-Family : Family k.pcb_table x → Family (taken p (root x) (roots f) k).pcb_table x
  taken-Family = Family-same k.pcb_table _ x (λ q w. taken-child q (ground (arith, counts q)))

  pub orphan : ((taken p (root x) (roots f) k).pcb_table (root x)).p_parent ≡ none
  orphan = ground arith

  -- The kernel k2 once the first child with its descendants ended.
  module _ (k2 : Kernel) (ended : Ended (members x) (taken p (root x) (roots f) k) k2)
      (others : (q : ℕ)
        → copies q (members x) ≡ 0
        → k2.pcb_table q ≡ (taken p (root x) (roots f) k).pcb_table q) where
    p_apart : copies p (members x) ≡ 0
    p_apart = ground (arith, counts p)

    pub rest-own : k2.pcb_table p ≡ record (k.pcb_table p) { p_child = roots f }
    rest-own = others p p_apart ∙ ground (arith, root_apart p p_apart)

    pub rest-Families : Families k.pcb_table f → Families k2.pcb_table f
    rest-Families = Families-same k.pcb_table k2.pcb_table f (λ q w.
        ap (λ (b : Pcb). b.p_child) (others q (omega (arith, counts q)))
        ∙ taken-child q (ground (arith, counts q)))

    pub rest-Placed : Placed (members (node p f)) k2
    unfolding members
    rest-Placed = record {
      placed = λ q w.
          let n = copies-append q (forest_members f) (p ∷ []) in
          let apart : copies q (members x) ≡ 0 = ground (arith, n, counts q) in
          Ended-IsPlaced (members x) _ k2 q ended apart
            (ap (λ (b : Pcb). b.p_sem_add) (others q apart)) (taken-present q (ground (arith, n)));
      once = λ q. ground (arith, copies-append q (forest_members f) (p ∷ []), counts q);
    }

    pub rest-ChildrenEnd : (o : Option Kernel) → ChildrenEnd p f k2 o → ChildrenEnd p (grow x f) k o
    unfolding members
    rest-ChildrenEnd none c = c
    rest-ChildrenEnd (some k3) (e, far, own) = (
      Ended-from _ k (taken p (root x) (roots f) k) k3 (table-SamePlaces k _)
          (Ended-trans (members x) (forest_members f) _ k2 k3 ended e),
      λ q ne z.
          let n = copies-append q (members x) (forest_members f) in
          let apart : copies q (members x) ≡ 0 = omega (arith, n) in
          far q ne (omega (arith, n)) ∙ others q apart ∙ ground (arith, root_apart q apart),
      own ∙ ap (λ (b : Pcb). record b { p_child = [] }) rest-own,
    )
