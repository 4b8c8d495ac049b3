-- ===== src/Pcb/Pool.antt =====
-- `initPcbs` and `allocPcb` of phase1/pcb.c on the nodes of the table.
use pand_ossh.Pcb.Kinship.{same_or}
use pand_ossh.Common.{
  List, Option, [], arith, copies, inl, inr, none, refl, some, subst, suc, sym, zero, ℕ, ◌*◌, ◌+◌,
  ◌<◌, ◌∷◌, ◌≡◌, ◌≢◌, ◌≤◌,
}
use native.Mathlib.Nat.{mul-le-mul_right}
use pand_ossh.Pcb.Nodes.{alloc_node, init_nodes, Layout, add_free, init_free}
use pand_ossh.Pcb.Walk.{back, nodes}
use pand_ossh.Pcb.{add_entries}
use pand_ossh.Listx.Frame.{del_here-Holds, Untouched-Holds, add_first-Holds}
use pand_ossh.Listx.Sequence.{list_next-Reads, Holds, alone}
use pand_ossh.Listx.{list_del, Links, init_list_head}
use pand_ossh.Machine.{maxproc}
use pand_ossh.Pcb.Relink.{next_none, next_some}

-- The addresses of the entries.
abbrev pub entry : Layout → ℕ → ℕ
entry Y i = Y.pcb_free_table + i * Y.size

abbrev pub entries : Layout → List ℕ → List ℕ
entries Y [] = []
entries Y (i ∷ is) = entry Y i ∷ entries Y is

-- The entries do not overlap, and none contains the head of the free list.
pub record IsTable (Y : Layout) : Type 0 where
  pub sized : 0 < Y.size
  pub head_apart : (i : ℕ) → i < maxproc → entry Y i + Y.p_list ≢ Y.pcb_free_h

new_entry :
    (Y : Layout) (i n : ℕ)
    → 0 < Y.size
    → n ≤ i
    → copies (entry Y i + Y.p_list) (nodes Y.p_list (entries Y (add_entries n))) ≡ 0
unfolding add_entries
new_entry Y i zero s w = refl
new_entry Y i (suc n) s w =
    ground (arith, mul-le-mul_right Y.size w, new_entry Y i n s (omega (arith, w)))

add_free-Holds :
    (Y : Layout) (i left : ℕ) (h : Links)
    → IsTable Y
    → i + left ≤ maxproc
    → Holds h Y.pcb_free_h (nodes Y.p_list (entries Y (add_entries i)))
    → Holds (add_free Y i left h) Y.pcb_free_h (nodes Y.p_list (entries Y (add_entries (i + left))))
unfolding add_free add_entries
add_free-Holds Y i zero h a w s =
    subst (λ n. Holds h Y.pcb_free_h (nodes Y.p_list (entries Y (add_entries n)))) (omega (arith)) s
add_free-Holds Y i (suc left) h a w s =
    let new : copies (entry Y i + Y.p_list)
          (Y.pcb_free_h ∷ nodes Y.p_list (entries Y (add_entries i)))
        ≡ 0 =
      ground (arith, new_entry Y i i a.sized (omega arith), a.head_apart i (omega (arith, w))) in
    subst
      (λ n.
        Holds (add_free Y i (suc left) h) Y.pcb_free_h (nodes Y.p_list (entries Y (add_entries n))))
      (omega arith)
      (add_free-Holds Y (suc i) left _ a (omega (arith, w))
        (add_first-Holds h Y.pcb_free_h (entry Y i + Y.p_list) _ s new).0)

init-Holds : (h : Links) (l : ℕ) → Holds (init_list_head l h) l []
init-Holds h l = record { linked = alone l h; once = λ c. ground arith }

-- If the entries of the table have a size and the head of the free list is not one of their nodes,
-- `initPcbs` puts every entry of the table onto the free list, the last first.
pub init_free-Holds :
    (Y : Layout) (h : Links)
    → IsTable Y
    → Holds (init_free Y h) Y.pcb_free_h (nodes Y.p_list (entries Y (add_entries maxproc)))
unfolding init_free add_entries
init_free-Holds Y h a =
    add_free-Holds Y 0 maxproc (init_list_head Y.pcb_free_h h) a (omega arith)
      (init-Holds h Y.pcb_free_h)

-- An operation on one node keeps every list that the node is not on.
init_list_head-Holds :
    (h : Links) (x m : ℕ) (zs : List ℕ)
    → Holds h m zs
    → copies x (m ∷ zs) ≡ 0
    → Holds (init_list_head x h) m zs
unfolding init_list_head
init_list_head-Holds h x m zs s new =
    Untouched-Holds h (init_list_head x h) (x ∷ []) m zs
      (record { next = λ c w. ground (arith, w); prev = λ c w. ground (arith, w) })
      (λ c w. elim (same_or x c) [
        | inl e ↦ absurd (omega (arith, subst (λ z. 0 < copies z (m ∷ zs)) (sym e) w, new))
        | inr ne ↦ ground (arith, ne)
      ])
      s

-- The nodes of a PCB are three, and those of the tree are not on the free list.
pub record OwnNodes (Y : Layout) (p : ℕ) (ps : List ℕ) : Type 0 where
  pub list_child : Y.p_list ≢ Y.p_child
  pub list_sib : Y.p_list ≢ Y.p_sib
  pub child_sib : Y.p_child ≢ Y.p_sib
  pub child_off : copies (p + Y.p_child) (Y.pcb_free_h ∷ nodes Y.p_list ps) ≡ 0
  pub sib_off : copies (p + Y.p_sib) (Y.pcb_free_h ∷ nodes Y.p_list ps) ≡ 0

-- A free list, and a PCB whose nodes are all empty lists.
pub record Allocated (Y : Layout) (p : ℕ) (rest : List ℕ) (h : Links) : Type 0 where
  pub free : Holds h Y.pcb_free_h (nodes Y.p_list rest)
  pub unqueued : Holds h (p + Y.p_list) []
  pub no_children : Holds h (p + Y.p_child) []
  pub no_siblings : Holds h (p + Y.p_sib) []

init_nodes-Allocated :
    (Y : Layout) (p : ℕ) (rest : List ℕ) (h : Links)
    → Holds h Y.pcb_free_h (nodes Y.p_list rest)
    → copies (p + Y.p_list) (Y.pcb_free_h ∷ nodes Y.p_list rest) ≡ 0
    → OwnNodes Y p rest
    → Allocated Y p rest (init_nodes Y p h)
unfolding init_nodes
init_nodes-Allocated Y p rest h s new w =
    let a = init_list_head (p + Y.p_list) h in
    let b = init_list_head (p + Y.p_child) a in
    record {
      free =
          init_list_head-Holds b _ _ _
            (init_list_head-Holds a _ _ _ (init_list_head-Holds h _ _ _ s new) w.child_off)
            w.sib_off;
      unqueued =
          init_list_head-Holds b _ _ _
            (init_list_head-Holds a _ _ _ (init-Holds h (p + Y.p_list))
              (ground (arith, w.list_child)))
            (ground (arith, w.list_sib));
      no_children =
          init_list_head-Holds b _ _ _ (init-Holds a (p + Y.p_child)) (ground (arith, w.child_sib));
      no_siblings = init-Holds b (p + Y.p_sib);
    }

-- What `allocPcb` answers for these free PCBs, and what it leaves.
abbrev pub Allocates : Layout → List ℕ → Links → Option ℕ × Links → Type 0
Allocates Y [] h r = (r.0 ≡ none) × (r.1 ≡ h)
Allocates Y (p ∷ ps) h r = (r.0 ≡ some p) × Allocated Y p ps r.1

-- `allocPcb` answers a null pointer and changes nothing when the free list is empty; otherwise it
-- answers the first free PCB, the free list then holds the others in their order, and the three nodes
-- of the PCB are empty lists. The three nodes are different, and p_child and p_sib are not on the free
-- list.
pub alloc_node-Allocates :
    (Y : Layout) (ps : List ℕ) (h : Links)
    → Holds h Y.pcb_free_h (nodes Y.p_list ps)
    → ((p : ℕ) (rest : List ℕ) → ps ≡ p ∷ rest → OwnNodes Y p rest)
    → Allocates Y ps h (alloc_node Y h)
unfolding alloc_node
alloc_node-Allocates Y [] h s own =
    rw (alloc_node, next_none h Y.pcb_free_h (list_next-Reads h Y.pcb_free_h [] s)) (refl, refl)
alloc_node-Allocates Y (p ∷ ps) h s own =
    let d = del_here-Holds h Y.pcb_free_h (p + Y.p_list) [] (nodes Y.p_list ps) s in
    let next =
      next_some h Y.pcb_free_h (p + Y.p_list) (nodes Y.p_list ps)
        (list_next-Reads h Y.pcb_free_h (nodes Y.p_list (p ∷ ps)) s) in
    rw (alloc_node, next, back p Y.p_list)
      (
        refl,
        init_nodes-Allocated Y p ps (list_del (p + Y.p_list) h) d.0
            (ground (arith, s.once (p + Y.p_list))) (own p ps refl),
      )
