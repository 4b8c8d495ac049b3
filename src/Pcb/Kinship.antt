-- ===== src/Pcb/Kinship.antt =====
-- The tree of processes: what the nodes and the p_parent fields say, and what the sequences say.
use pand_ossh.Common.{
  ==_iff, Bool-cases, List, Option, [], ap, arith, copies, inl, inr, refl, some, subst, suc, sym,
  update, zero, ℕ, ◌+◌, ◌<◌, ◌==◌, ◌∙◌, ◌∷◌, ◌≡◌, ◌≢◌, ◌⊎◌,
}
use pand_ossh.Pcb.Nodes.{Layout, Kin}
use pand_ossh.Pcb.Walk.{nodes}
use pand_ossh.Listx.Frame.{Untouched, Untouched-Holds}
use pand_ossh.Listx.Sequence.{Holds}
use pand_ossh.Listx.{Links}
use pand_ossh.Machine.{Pcb}

pub copies-nodes : (o p : ℕ) (ps : List ℕ) → copies (p + o) (nodes o ps) ≡ copies p ps
copies-nodes o p [] = refl
copies-nodes o p (q ∷ ps) = ground (arith, copies-nodes o p ps)

-- A node on a list is that of a PCB of the sequence.
pub node_of :
    (o c : ℕ) (ps : List ℕ) → 0 < copies c (nodes o ps) → (p : ℕ) × (c ≡ p + o) × (0 < copies p ps)
node_of o c [] w = absurd (omega (arith, w))
node_of o c (p ∷ ps) w = elim (Bool-cases (p + o == c)) [
  | inl here ↦ (p, sym ((==_iff (p + o) c).0 here), ground arith)
  | inr later ↦ let h = node_of o c ps (ground (arith, later, w)) in (h.0, h.1, omega (arith, h.2))
]

-- A cell of a list: its head, or the node of one of the PCBs.
pub data Cell (o l c : ℕ) (ps : List ℕ) : Type 0 where
  is_head : c ≡ l → Cell o l c ps
  is_node : (p : ℕ) → c ≡ p + o → 0 < copies p ps → Cell o l c ps

pub listed-Cell : (o l c : ℕ) (ps : List ℕ) → 0 < copies c (l ∷ nodes o ps) → Cell o l c ps
listed-Cell o l c ps w = elim (Bool-cases (l == c)) [
  | inl here ↦ is_head (sym ((==_iff l c).0 here))
  | inr later ↦ let h = node_of o c ps (ground (arith, later, w)) in is_node h.0 h.1 h.2
]

pub same_or : (a b : ℕ) → (a ≡ b) ⊎ (a ≢ b)
same_or a b = elim (Bool-cases (a == b)) [
  | inl e ↦ inl ((==_iff a b).0 e)
  | inr ne ↦ inr (λ e. cc ((==_iff a b).1 e, ne))
]

pub zero_of : (n : ℕ) → (0 < n → ⊥) → n ≡ 0
zero_of zero h = refl
zero_of (suc n) h = absurd (h (omega arith))

-- The PCBs of the table: no p_sib node of one is the p_child head of another.
pub record IsApart (Y : Layout) (all : List ℕ) : Type 0 where
  pub apart : (q r : ℕ) → 0 < copies q all → 0 < copies r all → q + Y.p_sib ≢ r + Y.p_child

-- The nodes hold the children of each PCB, and p_parent and the lists of children agree.
pub record Represents (Y : Layout) (all : List ℕ) (f : Kin) (t : ℕ → Pcb) : Type 0 where
  pub kids :
      (q : ℕ) → 0 < copies q all → Holds f.links (q + Y.p_child) (nodes Y.p_sib (t q).p_child)
  pub parent : (q : ℕ) → f.parent q ≡ (t q).p_parent
  pub mine : (q r : ℕ) → 0 < copies r all → 0 < copies q (t r).p_child → (t q).p_parent ≡ some r
  pub listed :
      (q r : ℕ) → (t q).p_parent ≡ some r → (0 < copies r all) × (0 < copies q (t r).p_child)
  pub inside : (q r : ℕ) → 0 < copies r all → 0 < copies q (t r).p_child → 0 < copies q all

-- The table after x became, or no longer is, a child of r, whose children were `before`.
pub record Changed (r x : ℕ) (o : Option ℕ) (after : List ℕ) (t u : ℕ → Pcb) : Type 0 where
  pub here : (u r).p_child ≡ after
  pub elsewhere : (q : ℕ) → q ≢ r → (u q).p_child ≡ (t q).p_child
  pub new_parent : (u x).p_parent ≡ o
  pub old_parents : (q : ℕ) → q ≢ x → (u q).p_parent ≡ (t q).p_parent

module _ (Y : Layout) (all : List ℕ) (f : Kin) (t : ℕ → Pcb) (a : IsApart Y all)
    (v : Represents Y all f t) where
  -- No cell belongs to two PCBs.
  clash :
      {c : ℕ} (q r : ℕ)
      → 0 < copies q all
      → 0 < copies r all
      → q ≢ r
      → Cell Y.p_sib (q + Y.p_child) c (t q).p_child
      → Cell Y.p_sib (r + Y.p_child) c (t r).p_child
      → ⊥
  clash q r wq wr ne (is_head e) (is_head g) = ne (omega (arith, e, g))
  clash q r wq wr ne (is_head e) (is_node p g m) = a.apart p q (v.inside p r wr m) wq (sym g ∙ e)
  clash q r wq wr ne (is_node p e m) (is_head g) = a.apart p r (v.inside p q wq m) wr (sym e ∙ g)
  clash q r wq wr ne (is_node p e m) (is_node s g n) =
      let same : p ≡ s = omega (arith, e, g) in
      let one = v.mine p q wq m in let two = v.mine s r wr n in ne (cc (one, two, same))

  -- The children of another PCB stand apart from those of r, and from a PCB that is not theirs.
  pub others_apart :
      (q r : ℕ)
      → 0 < copies q all
      → 0 < copies r all
      → q ≢ r
      → (c : ℕ) → 0 < copies c ((q + Y.p_child) ∷ nodes Y.p_sib (t q).p_child)
      → copies c ((r + Y.p_child) ∷ nodes Y.p_sib (t r).p_child) ≡ 0
  others_apart q r wq wr ne c w = zero_of _ (λ there.
      clash q r wq wr ne (listed-Cell _ _ c (t q).p_child w)
        (listed-Cell _ _ c (t r).p_child there))

-- What the change says of memberships: only that of x.
pub record Moves (all : List ℕ) (r x : ℕ) (o : Option ℕ) (after : List ℕ) (t : ℕ → Pcb)
    : Type 0 where
  pub rest : (p : ℕ) → p ≢ x → copies p after ≡ copies p (t r).p_child
  pub joined : 0 < copies x after → o ≡ some r
  pub joins : o ≡ some r → 0 < copies x after
  pub only : (q : ℕ) → q ≢ r → o ≢ some q
  pub absent : (q : ℕ) → 0 < copies q all → q ≢ r → copies x (t q).p_child ≡ 0

module _ (Y : Layout) (all : List ℕ) (f : Kin) (t u : ℕ → Pcb) (v : Represents Y all f t) (r x : ℕ)
    (o : Option ℕ) (after : List ℕ) (h : Changed r x o after t u) (m : Moves all r x o after t)
    (wr : 0 < copies r all) (wx : 0 < copies x all) where
  count_here : (q s : ℕ) → s ≡ r → copies q (u s).p_child ≡ copies q after
  count_here q s e = ap (copies q) (ap (λ z. (u z).p_child) e ∙ h.here)

  count_elsewhere : (q s : ℕ) → s ≢ r → copies q (u s).p_child ≡ copies q (t s).p_child
  count_elsewhere q s ne = ap (copies q) (h.elsewhere s ne)

  parent_x : (q : ℕ) → q ≡ x → (u q).p_parent ≡ o
  parent_x q e = ap (λ z. (u z).p_parent) e ∙ h.new_parent

  new_mine : (q s : ℕ) → 0 < copies s all → 0 < copies q (u s).p_child → (u q).p_parent ≡ some s
  new_mine q s w n = elim (same_or s r) [
    | inl at_r ↦ elim (same_or q x) [
      | inl is_x ↦
          let inside : 0 < copies x after =
            subst (λ z. 0 < copies z after) is_x (omega (arith, n, count_here q s at_r)) in
          parent_x q is_x ∙ m.joined inside ∙ ap some (sym at_r)
      | inr not_x ↦
          let there : 0 < copies q (t r).p_child =
            omega (arith, n, count_here q s at_r, m.rest q not_x) in
          h.old_parents q not_x ∙ v.mine q r wr there ∙ ap some (sym at_r)
    ]
    | inr off ↦
        let there : 0 < copies q (t s).p_child = omega (arith, n, count_elsewhere q s off) in
        elim (same_or q x) [
          | inl is_x ↦
              let found : 0 < copies x (t s).p_child =
                subst (λ z. 0 < copies z (t s).p_child) is_x there in
              absurd (omega (arith, found, m.absent s w off))
          | inr not_x ↦ h.old_parents q not_x ∙ v.mine q s w there
        ]
  ]

  new_listed :
      (q s : ℕ) → (u q).p_parent ≡ some s → (0 < copies s all) × (0 < copies q (u s).p_child)
  new_listed q s e = elim (same_or q x) [
    | inl is_x ↦
        let to_s : o ≡ some s = sym (parent_x q is_x) ∙ e in
        elim (same_or s r) [
          | inl at_r ↦
              let inside : 0 < copies x after = m.joins (to_s ∙ ap some at_r) in
              let found : 0 < copies q after = subst (λ z. 0 < copies z after) (sym is_x) inside in
              (
                subst (λ z. 0 < copies z all) (sym at_r) wr,
                omega (arith, found, count_here q s at_r),
              )
          | inr off ↦ absurd (m.only s off to_s)
        ]
    | inr not_x ↦
        let old = v.listed q s (sym (h.old_parents q not_x) ∙ e) in
        elim (same_or s r) [
          | inl at_r ↦
              let there : 0 < copies q (t r).p_child =
                subst (λ z. 0 < copies q (t z).p_child) at_r old.1 in
              (old.0, omega (arith, there, m.rest q not_x, count_here q s at_r))
          | inr off ↦ (old.0, omega (arith, old.1, count_elsewhere q s off))
        ]
  ]

  new_inside : (q s : ℕ) → 0 < copies s all → 0 < copies q (u s).p_child → 0 < copies q all
  new_inside q s w n = elim (same_or q x) [
    | inl is_x ↦ subst (λ z. 0 < copies z all) (sym is_x) wx
    | inr not_x ↦ elim (same_or s r) [
      | inl at_r ↦ v.inside q r wr (omega (arith, n, count_here q s at_r, m.rest q not_x))
      | inr off ↦ v.inside q s w (omega (arith, n, count_elsewhere q s off))
    ]
  ]

  -- A list of children changed in the nodes and in the table, which agree on it.
  pub Changed-Represents :
      (links : Links) (cells : List ℕ)
      → Holds links (r + Y.p_child) (nodes Y.p_sib after)
      → Untouched f.links links cells
      → ((q : ℕ)
          → 0 < copies q all
          → q ≢ r
          → (c : ℕ) → 0 < copies c ((q + Y.p_child) ∷ nodes Y.p_sib (t q).p_child)
          → copies c cells ≡ 0)
      → Represents Y all (record { links = links; parent = update f.parent x o }) u
  Changed-Represents links cells now same away = record {
    kids = λ q w. elim (same_or q r) [
      | inl at_r ↦
          subst (λ z. Holds links (z + Y.p_child) (nodes Y.p_sib (u z).p_child)) (sym at_r)
            (subst (λ l. Holds links (r + Y.p_child) (nodes Y.p_sib l)) (sym h.here) now)
      | inr off ↦
          subst (λ l. Holds links (q + Y.p_child) (nodes Y.p_sib l)) (sym (h.elsewhere q off))
            (Untouched-Holds f.links links cells (q + Y.p_child) (nodes Y.p_sib (t q).p_child) same
              (away q w off) (v.kids q w))
    ];
    parent = λ q. elim (Bool-cases (q == x)) [
      | inl e ↦ rw e (sym (parent_x q ((==_iff q x).0 e)))
      | inr ne ↦ rw ne (v.parent q ∙ sym (h.old_parents q (λ e. cc ((==_iff q x).1 e, ne))))
    ];
    mine = new_mine;
    listed = new_listed;
    inside = new_inside;
  }
