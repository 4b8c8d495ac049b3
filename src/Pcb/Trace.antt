-- ===== src/Pcb/Trace.antt =====
-- Any sequence of calls of the tree functions of phase1/pcb.c, on the nodes and on the sequences.
use pand_ossh.Common.{Bool, List, Option, [], ap, copies, none, refl, some, ℕ, ◌+◌, ◌<◌, ◌∷◌, ◌≡◌}
use pand_ossh.Pcb.Nodes.{Layout, Kin, no_child, link_child, unlink_first, unlink_child}
use pand_ossh.Pcb.Kinship.{Represents, IsApart}
use pand_ossh.Pcb.Relink.{
  list_empty-empty_proc_q, link_child-Represents, unlink_child-Agree, unlink_first-Agree,
}
use pand_ossh.Pcb.{empty_child, insert_child, remove_child, out_child}
use pand_ossh.Listx.Sequence.{list_next-Reads}
use pand_ossh.Machine.{Kernel}

-- The calls: `insertChild`, `emptyChild`, `removeChild` and `outChild`.
pub data TreeCall : Type 0 where
  adopt : (r x : ℕ) → TreeCall
  childless : ℕ → TreeCall
  first_child : ℕ → TreeCall
  leave : ℕ → TreeCall

-- What a call answers.
pub data Answer : Type 0 where
  nothing_back : Answer
  truth : Bool → Answer
  pointer : Option ℕ → Answer

abbrev pub on_nodes : Layout → TreeCall → Kin → Answer × Kin
on_nodes Y (adopt r x) f = (nothing_back, link_child Y (some r) (some x) f)
on_nodes Y (childless p) f = (truth (no_child Y (some p) f.links), f)
on_nodes Y (first_child p) f = let a = unlink_first Y (some p) f in (pointer a.0, a.1)
on_nodes Y (leave p) f = let a = unlink_child Y (some p) f in (pointer a.0, a.1)

abbrev pub on_table : TreeCall → Kernel → Answer × Kernel
on_table (adopt r x) k = (nothing_back, insert_child (some r) (some x) k)
on_table (childless p) k = (truth (empty_child (some p) k), k)
on_table (first_child p) k = let a = remove_child (some p) k in (pointer a.0, a.1)
on_table (leave p) k = let a = out_child (some p) k in (pointer a.0, a.1)

-- The answers of the calls in order, and what is left.
abbrev pub nodes_run : Layout → List TreeCall → Kin → List Answer × Kin
nodes_run Y [] f = ([], f)
nodes_run Y (c ∷ cs) f =
    let a = on_nodes Y c f in let rest = nodes_run Y cs a.1 in (a.0 ∷ rest.0, rest.1)

abbrev pub table_run : List TreeCall → Kernel → List Answer × Kernel
table_run [] k = ([], k)
table_run (c ∷ cs) k = let a = on_table c k in let rest = table_run cs a.1 in (a.0 ∷ rest.0, rest.1)

-- A call on PCBs of the table; a PCB that becomes a child has no parent.
abbrev pub Allowed : List ℕ → TreeCall → Kernel → Type 0
Allowed all (adopt r x) k =
    (0 < copies r all) × (0 < copies x all) × ((k.pcb_table x).p_parent ≡ none)
Allowed all (childless p) k = 0 < copies p all
Allowed all (first_child p) k = 0 < copies p all
Allowed all (leave p) k = 0 < copies p all

abbrev pub AllAllowed : List ℕ → List TreeCall → Kernel → Type 0
AllAllowed all [] k = Unit
AllAllowed all (c ∷ cs) k = Allowed all c k × AllAllowed all cs (on_table c k).1

step-Agree :
    (Y : Layout) (all : List ℕ) (c : TreeCall) (f : Kin) (k : Kernel)
    → IsApart Y all
    → Represents Y all f k.pcb_table
    → Allowed all c k
    → ((on_nodes Y c f).0 ≡ (on_table c k).0)
      × Represents Y all (on_nodes Y c f).1 (on_table c k).1.pcb_table
unfolding no_child empty_child
step-Agree Y all (adopt r x) f k a v w = (refl, link_child-Represents Y all f k r x a v w.0 w.1 w.2)
step-Agree Y all (childless p) f k a v w = (
  ap truth (
      list_empty-empty_proc_q Y.p_sib (p + Y.p_child) (k.pcb_table p).p_child f.links
        (list_next-Reads f.links _ _ (v.kids p w))),
  v,
)
step-Agree Y all (first_child p) f k a v w =
    let s = unlink_first-Agree Y all f k p a v w in (ap pointer s.0, s.1)
step-Agree Y all (leave p) f k a v w =
    let s = unlink_child-Agree Y all f k (some p) a v in (ap pointer s.0, s.1)

-- However often and in which order `insertChild`, `emptyChild`, `removeChild` and `outChild` are called
-- on PCBs of a table in which no p_sib node is a p_child head, with `insertChild` only for a PCB without a parent: from nodes that hold the sequences on, the calls answer on the
-- nodes what they answer on the sequences of children, and afterwards the nodes still hold those
-- sequences and p_parent agrees with them.
pub nodes_run-table_run :
    (Y : Layout) (all : List ℕ) (cs : List TreeCall) (f : Kin) (k : Kernel)
    → IsApart Y all
    → Represents Y all f k.pcb_table
    → AllAllowed all cs k
    → ((nodes_run Y cs f).0 ≡ (table_run cs k).0)
      × Represents Y all (nodes_run Y cs f).1 (table_run cs k).1.pcb_table
nodes_run-table_run Y all [] f k a v w = (refl, v)
nodes_run-table_run Y all (c ∷ cs) f k a v w =
    let s = step-Agree Y all c f k a v w.0 in
    let rest = nodes_run-table_run Y all cs _ _ a s.1 w.1 in (cc (s.0, rest.0), rest.1)
