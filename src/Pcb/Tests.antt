-- ===== src/Pcb/Tests.antt =====
-- Entries of 16 bytes with their nodes at 4, 8 and 12, and the theorems on phase1/pcb.c at them.
use pand_ossh.Common.{List, [], arith, if◌then◌else◌, none, refl, subst, ℕ, ◌+◌, ◌==◌, ◌∷◌, ◌≡◌}
use pand_ossh.Nucleus.Tests.{loaded}
use pand_ossh.Pcb.Nodes.{Layout, Kin, insert_node, out_node, alloc_node}
use pand_ossh.Pcb.Kinship.{Represents, IsApart}
use pand_ossh.Pcb.Trace.{
  TreeCall, adopt, childless, first_child, leave, nodes_run, table_run, nodes_run-table_run,
}
use pand_ossh.Pcb.Walk.{insert_node-Inserts, Inserts}
use pand_ossh.Pcb.Unlink.{out_node-Takes, Takes}
use pand_ossh.Pcb.Pool.{alloc_node-Allocates, Allocates, OwnNodes}
use pand_ossh.Pcb.{insert_proc_q, out_proc_q, add_entries}
use pand_ossh.Listx.{Links, list_add_tail, add_between}
use pand_ossh.Listx.Sequence.{Holds}
use pand_ossh.Machine.{Pcb, Kernel}

abbrev layout : Layout
layout = record {
  p_list = 4;
  p_sib = 8;
  p_child = 12;
  size = 16;
  pcb_free_h = 7;
  pcb_free_table = 1000;
}

-- Every node is a list of its own.
abbrev apart : Links
apart = record { next = λ c. c; prev = λ c. c }

apart-Holds : (l : ℕ) → Holds apart l []
apart-Holds l = record { linked = (refl, refl); once = λ c. ground arith }

-- A queue at 10 with the PCBs 100 (priority 2) and 200 (priority 1).
abbrev queue : Links
queue = list_add_tail 204 10 (list_add_tail 104 10 apart)

queue-Holds : Holds queue 10 (104 ∷ 204 ∷ [])
unfolding list_add_tail add_between
queue-Holds = record { linked = (refl, refl, (refl, refl, (refl, refl))); once = λ c. ground arith }

abbrev ranked : ℕ → Pcb
ranked p = record (loaded.pcb_table 0) { p_prio = if p == 100 then 2 else 1 }

insert_node-Inserts_example :
    Inserts layout 10 304
      (100 ∷ 200 ∷ [])
      (insert_proc_q ranked 300 (100 ∷ 200 ∷ []))
      queue
      (insert_node layout ranked 3 10 300 queue)
insert_node-Inserts_example =
    insert_node-Inserts layout ranked 3 10 300 (100 ∷ 200 ∷ []) queue (omega arith) queue-Holds refl

out_node-Takes_example :
    Takes layout 10
      (100 ∷ 200 ∷ [])
      queue
      (out_proc_q 200 (100 ∷ 200 ∷ []))
      (out_node layout 3 10 200 queue)
out_node-Takes_example =
    out_node-Takes layout 3 10 200 (100 ∷ 200 ∷ []) queue (omega arith) queue-Holds

own_nodes : OwnNodes (record layout { pcb_free_h = 10 }) 100 (200 ∷ [])
own_nodes = record {
  list_child = omega arith;
  list_sib = omega arith;
  child_sib = omega arith;
  child_off = refl;
  sib_off = refl;
}

alloc_node-Allocates_example :
    Allocates
      (record layout { pcb_free_h = 10 })
      (100 ∷ 200 ∷ [])
      queue
      (alloc_node (record layout { pcb_free_h = 10 }) queue)
alloc_node-Allocates_example =
    alloc_node-Allocates (record layout { pcb_free_h = 10 }) (100 ∷ 200 ∷ []) queue queue-Holds
      (λ p rest e.
        let first : 100 ≡ p = cc e in
        let others : (200 ∷ []) ≡ rest = cc e in
        subst (OwnNodes (record layout { pcb_free_h = 10 }) p) others
          (subst (λ q. OwnNodes (record layout { pcb_free_h = 10 }) q (200 ∷ [])) first own_nodes))

-- PCBs without a parent and without children.
abbrev orphans : Kernel
orphans = record loaded {
  pcb_table = λ p. record (loaded.pcb_table p) { p_parent = none; p_child = [] };
}

abbrev unlinked : Kin
unlinked = record { links = apart; parent = λ p. none }

orphans-Represents : Represents layout (100 ∷ 200 ∷ 300 ∷ []) unlinked orphans.pcb_table
orphans-Represents = record {
  kids = λ q w. apart-Holds (q + 12);
  parent = λ q. refl;
  mine = λ q r w z. absurd (omega (arith, z));
  listed = λ q r e. cc e;
  inside = λ q r w z. absurd (omega (arith, z));
}

layout-IsApart : IsApart layout (100 ∷ 200 ∷ 300 ∷ [])
layout-IsApart = record { apart = λ q r wq wr. ground arith }

-- 100 takes the children 200 and 300, loses the younger, and the other leaves.
abbrev calls : List TreeCall
calls = childless 100 ∷ adopt 100 200 ∷ adopt 100 300 ∷ first_child 100 ∷ leave 200 ∷ []

nodes_run-table_run_example :
    ((nodes_run layout calls unlinked).0 ≡ (table_run calls orphans).0)
    × Represents layout
        (100 ∷ 200 ∷ 300 ∷ [])
        (nodes_run layout calls unlinked).1
        (table_run calls orphans).1.pcb_table
unfolding pand_ossh.Pcb.insert_child
nodes_run-table_run_example =
    nodes_run-table_run layout (100 ∷ 200 ∷ 300 ∷ []) calls unlinked orphans layout-IsApart
      orphans-Represents
      (
        omega arith,
        (
          (omega arith, omega arith, refl),
          ((omega arith, omega arith, refl), (omega arith, (omega arith, tt))),
        ),
      )
