-- ===== src/Pcb/Nodes.antt =====
-- phase1/pcb.c on the `struct list_head` nodes inside the PCBs: a pointer to a PCB is its address, and
-- the nodes p_list, p_sib and the head p_child stand at offsets in it.
use pand_ossh.Common.{
  Bool, Option, false, none, slt32, some, suc, true, update, zero, ℕ, ◌*◌, ◌+◌, ◌-◌, ◌==◌, ◌>>=◌,
}
use pand_ossh.Listx.{Links, init_list_head, list_add, list_del, list_empty, list_next}
use pand_ossh.Machine.{Pcb, maxproc}

-- The offsets in `pcb_t`, its size, and the addresses of `pcbFree_h` and `pcbFree_table`.
pub record Layout : Type 0 where
  pub p_list : ℕ
  pub p_sib : ℕ
  pub p_child : ℕ
  pub size : ℕ
  pub pcb_free_h : ℕ
  pub pcb_free_table : ℕ

-- `container_of`
abbrev pub container_of : (ptr offset : ℕ) → ℕ
container_of ptr offset = ptr - offset

-- The loop of `initPcbs`, for the entries from i on.
unfoldable pub add_free : Layout → (i left : ℕ) → Links → Links
add_free Y i zero h = h
add_free Y i (suc left) h =
    add_free Y (suc i) left (list_add (Y.pcb_free_table + i * Y.size + Y.p_list) Y.pcb_free_h h)

-- `initPcbs`
unfoldable pub init_free : Layout → Links → Links
init_free Y h = add_free Y 0 maxproc (init_list_head Y.pcb_free_h h)

-- `freePcb`
unfoldable pub free_node : Layout → ℕ → Links → Links
free_node Y p h = list_add (p + Y.p_list) Y.pcb_free_h h

-- What `initPcb` does to the nodes of a PCB.
unfoldable pub init_nodes : Layout → ℕ → Links → Links
init_nodes Y p h =
    init_list_head (p + Y.p_sib) (init_list_head (p + Y.p_child) (init_list_head (p + Y.p_list) h))

-- `allocPcb`
unfoldable pub alloc_node : Layout → Links → Option ℕ × Links
alloc_node Y h = elim (list_next Y.pcb_free_h h) [
  | none ↦ (none, h)
  | some n ↦ (some (container_of n Y.p_list), init_nodes Y (container_of n Y.p_list) (list_del n h))
]

-- The loop of `insertProcQ` from `curr` on: where the walk stops. `none` means that the fuel ran out.
unfoldable pub find_place : Layout → (ℕ → Pcb) → (head p fuel curr : ℕ) → Links → Option ℕ
find_place Y t head p zero curr h = none
find_place Y t head p (suc fuel) curr h = elim (curr == head) [
  | true ↦ some curr
  | false ↦ elim (slt32 (t (container_of curr Y.p_list)).p_prio (t p).p_prio) [
    | true ↦ some curr
    | false ↦ find_place Y t head p fuel (h.next curr) h
  ]
]

-- `insertProcQ`
unfoldable pub insert_node : Layout → (ℕ → Pcb) → (fuel head p : ℕ) → Links → Option Links
insert_node Y t fuel head p h = find_place Y t head p fuel (h.next head) h >>= λ curr.
    some (list_add (p + Y.p_list) (h.prev curr) h)

-- `headProcQ`
unfoldable pub head_node : Layout → ℕ → Links → Option ℕ
head_node Y head h = elim (list_empty head h) [
  | true ↦ none
  | false ↦ list_next head h >>= λ n. some (container_of n Y.p_list)
]

-- `removeProcQ`
unfoldable pub remove_node : Layout → ℕ → Links → Option ℕ × Links
remove_node Y head h = elim (list_empty head h) [
  | true ↦ (none, h)
  | false ↦ (list_next head h >>= λ n. some (container_of n Y.p_list), list_del (h.next head) h)
]

-- The loop of `outProcQ` from `curr` on.
unfoldable pub out_from : Layout → (head p fuel curr : ℕ) → Links → Option (Option ℕ × Links)
out_from Y head p zero curr h = none
out_from Y head p (suc fuel) curr h = elim (curr == head) [
  | true ↦ some (none, h)
  | false ↦ elim (p == container_of curr Y.p_list) [
    | true ↦ some (some p, list_del curr h)
    | false ↦ out_from Y head p fuel (h.next curr) h
  ]
]

-- `outProcQ`
unfoldable pub out_node : Layout → (fuel head p : ℕ) → Links → Option (Option ℕ × Links)
out_node Y fuel head p h = out_from Y head p fuel (h.next head) h

-- The nodes and the p_parent fields.
pub record Kin : Type 0 where
  pub links : Links
  pub parent : ℕ → Option ℕ

-- `emptyChild`
unfoldable pub no_child : Layout → Option ℕ → Links → Bool
no_child Y none h = true
no_child Y (some p) h = list_empty (p + Y.p_child) h

-- `insertChild`
unfoldable pub link_child : Layout → Option ℕ → Option ℕ → Kin → Kin
link_child Y none p f = f
link_child Y (some prnt) none f = f
link_child Y (some prnt) (some p) f = record {
  links = list_add (p + Y.p_sib) (prnt + Y.p_child) f.links;
  parent = update f.parent p (some prnt);
}

-- `removeChild`
unfoldable pub unlink_first : Layout → Option ℕ → Kin → Option ℕ × Kin
unlink_first Y none f = (none, f)
unlink_first Y (some p) f = elim (no_child Y (some p) f.links) [
  | true ↦ (none, f)
  | false ↦ elim (list_next (p + Y.p_child) f.links) [
    | none ↦ (none, f)
    | some n ↦ (
      some (container_of n Y.p_sib),
      record { links = list_del n f.links; parent = update f.parent (container_of n Y.p_sib) none },
    )
  ]
]

-- What `outChild` does with a PCB whose p_parent is this.
unfoldable pub unlink_from : Layout → ℕ → Option ℕ → Kin → Option ℕ × Kin
unlink_from Y p none f = (none, f)
unlink_from Y p (some prnt) f =
    (some p, record { links = list_del (p + Y.p_sib) f.links; parent = update f.parent p none })

-- `outChild`
unfoldable pub unlink_child : Layout → Option ℕ → Kin → Option ℕ × Kin
unlink_child Y none f = (none, f)
unlink_child Y (some p) f = unlink_from Y p (f.parent p) f
