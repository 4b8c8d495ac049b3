-- ===== src/Nucleus/Total.antt =====
-- `terminateProcess` of phase2/src/syscall.c ends, and takes the process with all its descendants.
use pand_ossh.Common.{
  List, Option, [], ap, arith, none, refl, some, subst, suc, sym, zero, ℕ, ◌*◌, ◌+◌, ◌<◌, ◌>>=◌,
  ◌∷◌, ◌≡◌, ◌≤◌,
}
use pand_ossh.Nucleus.Places.{Inv-same, Inv}
use pand_ossh.Nucleus.Subtree.{
  orphan, taken-Placed, taken-Family, rest-Placed, rest-Families, rest-own, rest-ChildrenEnd,
  remove_child-first, taken, remove_child-last, own-ProcessEnds, ChildrenEnd, Placed, ProcessEnds,
}
use pand_ossh.Terminate.{terminate_children, terminate_process}
use pand_ossh.Machine.{Pcb, Kernel, Platform}
use pand_ossh.Nucleus.Ended.{unless_in}
use pand_ossh.Nucleus.Tree.{
  root, forest_size, roots, Families, Forest, Tree, size, members, Family, node, bare, grow,
}

unless_none : (o : Option ℕ) → o ≡ unless_in [] o
unless_none none = refl
unless_none (some c) = refl

no_children-ChildrenEnd :
    (p : ℕ) (k : Kernel) → Inv k → (k.pcb_table p).p_child ≡ [] → ChildrenEnd p bare k (some k)
unfolding members
no_children-ChildrenEnd p k v e = (
  record {
    inv = v;
    current = unless_none k.curr_proc;
    ready = refl;
    queues = λ b. refl;
    freed = refl;
    counted = omega arith;
  },
  λ q ne z. refl,
  ap (λ (c : List ℕ). record (k.pcb_table p) { p_child = c }) e,
)

-- A tree takes two units of fuel for each process.
no_fuel : (x : Tree) → 2 * size x ≤ 0 → ⊥
unfolding size
no_fuel (node p g) w = omega (arith, w)

children_fuel : (f p : ℕ) (g : Forest) → 2 * size (node p g) ≤ suc f → 1 + 2 * forest_size g ≤ f
unfolding size
children_fuel f p g w = omega (arith, w)

size_pos : (x : Tree) → 0 < size x
unfolding size
size_pos (node p g) = omega arith

tree_fuel :
    (f : ℕ) (x : Tree) (g : Forest) → 1 + 2 * forest_size (grow x g) ≤ suc f → 2 * size x ≤ f
unfolding size
tree_fuel f x g w = omega (arith, w)

forest_fuel :
    (f : ℕ) (x : Tree) (g : Forest)
    → 1 + 2 * forest_size (grow x g) ≤ suc f
    → 1 + 2 * forest_size g ≤ f
unfolding size
forest_fuel f x g w = omega (arith, w, size_pos x)

pub Family-children :
    (p : ℕ) (g : Forest) (k : Kernel)
    → Family k.pcb_table (node p g)
    → ((k.pcb_table p).p_child ≡ roots g) × Families k.pcb_table g
unfolding Family
Family-children p g k h = h

Families-parts :
    (x : Tree) (g : Forest) (k : Kernel)
    → Families k.pcb_table (grow x g)
    → Family k.pcb_table x × Families k.pcb_table g
unfolding Family
Families-parts x g k h = h

go_on :
    (x : Tree) (p : ℕ) (g : Forest) (k k1 : Kernel) (next : Kernel → Option Kernel)
    (o : Option Kernel)
    → ((k2 : Kernel) → ProcessEnds x k1 (some k2) → ChildrenEnd p g k (next k2))
    → ProcessEnds x k1 o
    → ChildrenEnd p g k (o >>= next)
go_on x p g k k1 next none rest h = h
go_on x p g k k1 next (some k2) rest h = rest k2 h

-- One round of the loop over the children.
terminate_children_done :
    (P : Platform) (f p : ℕ) (k : Kernel)
    → (k.pcb_table p).p_child ≡ []
    → terminate_children P (suc f) p k ≡ some k
unfolding terminate_process
terminate_children_done P f p k e = rw (remove_child-last p k e, terminate_children)

terminate_children_next :
    (P : Platform) (f p c : ℕ) (cs : List ℕ) (k : Kernel)
    → (k.pcb_table p).p_child ≡ c ∷ cs
    → terminate_children P (suc f) p k
      ≡ (terminate_process P f c (taken p c cs k) >>= terminate_children P f p)
unfolding terminate_process
terminate_children_next P f p c cs k e =
    let first = remove_child-first p c cs k e in
    rw (first, terminate_children)
      (ap (λ (r : Option ℕ × Kernel). terminate_process P f c r.1 >>= terminate_children P f p)
        first)

module _ (P : Platform) where
  mutual
    unfolding terminate_process

    pub process-Ends :
        (f : ℕ) (x : Tree) (k : Kernel)
        → Inv k
        → Family k.pcb_table x
        → Placed (members x) k
        → (k.pcb_table (root x)).p_parent ≡ none
        → 2 * size x ≤ f
        → ProcessEnds x k (terminate_process P f (root x) k)
    process-Ends zero x k v fam h alone w = absurd (no_fuel x w)
    process-Ends (suc f) (node p g) k v fam h alone w =
        own-ProcessEnds P p g k (terminate_children P f p k) h alone (
          children-End f p g k v (Family-children p g k fam).0 (Family-children p g k fam).1 h
            (children_fuel f p g w))

    pub children-End :
        (f p : ℕ) (g : Forest) (k : Kernel)
        → Inv k
        → (k.pcb_table p).p_child ≡ roots g
        → Families k.pcb_table g
        → Placed (members (node p g)) k
        → 1 + 2 * forest_size g ≤ f
        → ChildrenEnd p g k (terminate_children P f p k)
    children-End zero p g k v e fams h w = absurd (omega (arith, w))
    children-End (suc f) p bare k v e fams h w =
        subst (ChildrenEnd p bare k) (sym (terminate_children_done P f p k e))
          (no_children-ChildrenEnd p k v e)
    children-End (suc f) p (grow x g) k v e fams h w =
        let k1 = taken p (root x) (roots g) k in
        subst (ChildrenEnd p (grow x g) k)
          (sym (terminate_children_next P f p (root x) (roots g) k e))
          (go_on x p (grow x g) k k1 (terminate_children P f p) (terminate_process P f (root x) k1)
            (λ k2 c. rest-ChildrenEnd p x g k h k2 c.0 c.1 (terminate_children P f p k2) (
              children-End f p g k2 c.0.inv
                (ap (λ (b : Pcb). b.p_child) (rest-own p x g k h k2 c.0 c.1))
                (rest-Families p x g k h k2 c.0 c.1 (Families-parts x g k fams).1)
                (rest-Placed p x g k h k2 c.0 c.1) (forest_fuel f x g w)))
            (process-Ends f x k1 (Inv-same k _ refl refl refl refl refl refl v)
              (taken-Family p x g k h (Families-parts x g k fams).0) (taken-Placed p x g k h)
              (orphan p x g k h) (tree_fuel f x g w)))
