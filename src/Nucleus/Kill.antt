-- ===== src/Nucleus/Kill.antt =====
-- NSYS2 of phase2/src/syscall.c on the caller, with the tree of its descendants.
use pand_ossh.Nucleus.Capacity.{total, length-total}
use pand_ossh.Nucleus.Total.{children-End, Family-children}
use pand_ossh.Common.{
  Bool-cases, List, Option, [], ap, arith, copies, copies-append, inl, inr, length, length-append,
  ltb, none, refl, remove, some, suc, sym, zero, ℕ, ◌*◌, ◌+◌, ◌>>=◌, ◌∙◌, ◌∷◌, ◌≡◌, ◌≢◌, ◌≤◌,
}
use pand_ossh.Nucleus.Leaves.{end_process-Ended}
use pand_ossh.Nucleus.Withdraw.{IsPlaced-used, IsPlaced}
use pand_ossh.Nucleus.Ended.{Ended-trans, Ended-IsPlaced, Ended}
use pand_ossh.Nucleus.Places.{Inv}
use pand_ossh.Nucleus.Subtree.{withdraw_table, ChildrenEnd, Placed}
use pand_ossh.Machine.{Pcb, maxproc, Kernel, Platform}
use pand_ossh.Terminate.{terminate_process, withdraw, end_process, terminate}
use pand_ossh.Pcb.{out_child, free_pcb, leave_parent}
use pand_ossh.Nucleus.Tree.{
  forest_size, forest_members, size, root, Family, Forest, members, Tree, node, bare, grow,
}

-- The tree x of processes stands in the kernel, each of them where its PCB says.
pub record Stands (x : Tree) (k : Kernel) : Type 0 where
  pub family : Family k.pcb_table x
  pub placed : Placed (members x) k

-- The processes of the tree ended, its parent has one child less, and all other PCBs are untouched.
pub record Terminated (x : Tree) (k k' : Kernel) : Type 0 where
  pub ended : Ended (members x) k k'
  pub parent :
      (q : ℕ)
      → (k.pcb_table (root x)).p_parent ≡ some q
      → copies q (members x) ≡ 0
      → (k'.pcb_table q).p_child ≡ remove (root x) (k.pcb_table q).p_child
  pub others :
      (q : ℕ)
      → (k.pcb_table (root x)).p_parent ≢ some q
      → copies q (members x) ≡ 0
      → k'.pcb_table q ≡ k.pcb_table q

abbrev pub Terminates : Tree → Kernel → Option Kernel → Type 0
Terminates x k none = ⊥
Terminates x k (some k') = Terminated x k k'

-- What `outChild` does to the table.
leave_parent_table :
    (p q : ℕ) (o : Option ℕ) (k : Kernel)
    → o ≢ some q
    → q ≢ p
    → (leave_parent p o k).1.pcb_table q ≡ k.pcb_table q
unfolding leave_parent
leave_parent_table p q none k ne far = refl
leave_parent_table p q (some r) k ne far = ground arith

leave_parent-parent :
    (p q : ℕ) (o : Option ℕ) (k : Kernel)
    → o ≡ some q
    → q ≢ p
    → ((leave_parent p o k).1.pcb_table q).p_child ≡ remove p (k.pcb_table q).p_child
unfolding leave_parent
leave_parent-parent p q none k e far = cc
leave_parent-parent p q (some r) k e far = ground arith

module _ (P : Platform) (p q : ℕ) (k : Kernel) (v : Inv k) (h : IsPlaced k p) (far : q ≢ p) where
  same_table : (withdraw P p k).pcb_table ≡ k.pcb_table
  same_table = withdraw_table P p k v h

  end_process_others :
      (k.pcb_table p).p_parent ≢ some q → (end_process P p k).pcb_table q ≡ k.pcb_table q
  unfolding end_process free_pcb out_child
  end_process_others ne =
      leave_parent_table p q _ (withdraw P p k)
        (λ e. ne (ap (λ (t : ℕ → Pcb). (t p).p_parent) (sym same_table) ∙ e)) far
      ∙ ap (λ (t : ℕ → Pcb). t q) same_table

  end_process-parent :
      (k.pcb_table p).p_parent ≡ some q
      → ((end_process P p k).pcb_table q).p_child ≡ remove p (k.pcb_table q).p_child
  unfolding end_process free_pcb out_child
  end_process-parent e =
      leave_parent-parent p q _ (withdraw P p k)
        (ap (λ (t : ℕ → Pcb). (t p).p_parent) same_table ∙ e) far
      ∙ ap (λ (t : ℕ → Pcb). remove p (t q).p_child) same_table

last-Terminates :
    (P : Platform) (p : ℕ) (f : Forest) (k : Kernel) (o : Option Kernel)
    → Placed (members (node p f)) k
    → ChildrenEnd p f k o
    → Terminates (node p f) k (o >>= λ k1. some (end_process P p k1))
unfolding members
last-Terminates P p f k none h c = c
last-Terminates P p f k (some k1) h (ended, others, own) =
    let apart : copies p (forest_members f) ≡ 0 =
      ground (arith, h.once p, copies-append p (forest_members f) (p ∷ [])) in
    let here : IsPlaced k p =
      h.placed p (ground (arith, copies-append p (forest_members f) (p ∷ []))) in
    let here1 : IsPlaced k1 p =
      Ended-IsPlaced (forest_members f) k k1 p ended apart (ap (λ (b : Pcb). b.p_sem_add) own)
        here in
    let up : (k1.pcb_table p).p_parent ≡ (k.pcb_table p).p_parent =
      ap (λ (b : Pcb). b.p_parent) own in
    record {
      ended =
          Ended-trans (forest_members f) (p ∷ []) k k1 _ ended
            (end_process-Ended P p k1 ended.inv here1);
      parent = λ q e z.
          let n = copies-append q (forest_members f) (p ∷ []) in
          let far : q ≢ p = ground (arith, n) in
          end_process-parent P p q k1 ended.inv here1 far (up ∙ e)
          ∙ ap (λ (b : Pcb). remove p b.p_child) (others q far (omega (arith, n)));
      others = λ q ne z.
          let n = copies-append q (forest_members f) (p ∷ []) in
          let far : q ≢ p = ground (arith, n) in
          end_process_others P p q k1 ended.inv here1 far (λ e. ne (sym up ∙ e))
          ∙ others q far (omega (arith, n));
    }

mutual
  unfolding members size

  length-members : (x : Tree) → length (members x) ≡ size x
  length-members (node p f) =
      omega (arith, length-append (forest_members f) (p ∷ []), length-forest_members f)

  length-forest_members : (f : Forest) → length (forest_members f) ≡ forest_size f
  length-forest_members bare = refl
  length-forest_members (grow x f) = omega (
    arith,
    length-append (members x) (forest_members f),
    length-members x,
    length-forest_members f,
  )

total_le : (n : ℕ) (f : ℕ → ℕ) → ((a : ℕ) → f a ≤ 1) → total n f ≤ n
total_le zero f h = omega arith
total_le (suc n) f h = omega (arith, h n, total_le n f h)

Placed-bounded :
    (ms : List ℕ) (k : Kernel) (a : ℕ) → Inv k → Placed ms k → maxproc ≤ a → copies a ms ≡ 0
Placed-bounded ms k a v h w = elim (Bool-cases (ltb 0 (copies a ms))) [
  | inl some_copy ↦
      absurd (ground (arith, v.once a, (IsPlaced-used k a v (h.placed a (ground arith))).0))
  | inr no_copy ↦ ground arith
]

-- A tree of processes that stands in the kernel has at most MAXPROC of them.
size-le : (x : Tree) (k : Kernel) → Inv k → Placed (members x) k → size x ≤ maxproc
size-le x k v h = omega (
  arith,
  length-members x,
  length-total maxproc (members x) (λ a w. Placed-bounded (members x) k a v h w),
  total_le maxproc (λ a. copies a (members x)) h.once,
)

process-Terminates :
    (P : Platform) (n p : ℕ) (f : Forest) (k : Kernel)
    → Inv k
    → Stands (node p f) k
    → 1 + 2 * forest_size f ≤ n
    → Terminates (node p f) k (terminate_process P (suc n) p k)
unfolding terminate_process
process-Terminates P n p f k v s w =
    let fam = Family-children p f k s.family in
    last-Terminates P p f k _ s.placed (children-End P n p f k v fam.0 fam.1 s.placed w)

forest_size-le : (p : ℕ) (f : Forest) → size (node p f) ≤ maxproc → 1 + 2 * forest_size f ≤ 39
unfolding size
forest_size-le p f w = omega (arith, w)

-- `terminateProcess` on a process ends, for every tree of descendants that stands in the kernel: it
-- ends the process and all of them, children before their parent, each is freed and gone from every
-- queue, the other processes keep their places and the order of the queues, the parent loses one
-- child, processCount falls by their number, and the invariant holds.
pub terminate-Terminates :
    (P : Platform) (x : Tree) (k : Kernel)
    → Inv k
    → Stands x k
    → Terminates x k (terminate P (some (root x)) k)
unfolding terminate
terminate-Terminates P (node p f) k v s =
    process-Terminates P 39 p f k v s (forest_size-le p f (size-le (node p f) k v s.placed))
