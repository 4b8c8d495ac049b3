-- ===== src/Pcb/Relink.antt =====
-- `insertChild`, `removeChild` and `outChild` of phase1/pcb.c on nodes do what they do on sequences.
use pand_ossh.Common.{
  Bool-cases, List, Option, [], ap, arith, contains, copies, copies-append, inl, inr, none,
  not_contains-copies, refl, some, subst, sym, true, update, ℕ, ◌++◌, ◌+◌, ◌<◌, ◌∙◌, ◌∷◌, ◌≡◌, ◌≢◌,
  ◌≤◌,
}
use pand_ossh.Pcb.Kinship.{
  zero_of, Represents, IsApart, Changed, Moves, Changed-Represents, copies-nodes, others_apart,
}
use pand_ossh.Pcb.Nodes.{Layout, Kin, link_child, unlink_first, unlink_from, unlink_child, no_child}
use pand_ossh.Pcb.Walk.{nodes, nodes-append, back}
use pand_ossh.Pcb.Unlink.{contains-Parted}
use pand_ossh.Pcb.{empty_proc_q, insert_child, remove_child, detach_first, out_child, leave_parent}
use pand_ossh.Listx.Frame.{Untouched, del_here-Holds, add_first-Holds}
use pand_ossh.Listx.Sequence.{nothing, both, Holds, list_next-Reads, Reads}
use pand_ossh.Listx.{Links, list_del, list_add, list_next, list_empty}
use pand_ossh.Machine.{Pcb, Kernel}

-- A child leaves its parent.
removed-Represents :
    (Y : Layout) (all : List ℕ) (f : Kin) (t u : ℕ → Pcb) (r x : ℕ) (front rest : List ℕ)
    → IsApart Y all
    → Represents Y all f t
    → 0 < copies r all
    → (t r).p_child ≡ front ++ x ∷ rest
    → Changed r x none (front ++ rest) t u
    → Represents Y all
        (record { links = list_del (x + Y.p_sib) f.links; parent = update f.parent x none })
        u
removed-Represents Y all f t u r x front rest a v wr e h =
    let o = Y.p_sib in
    let l = r + Y.p_child in
    let whole : nodes o (t r).p_child ≡ nodes o front ++ (x + o) ∷ nodes o rest =
      ap (nodes o) e ∙ nodes-append o front (x ∷ rest) in
    let d =
      del_here-Holds f.links l (x + o) (nodes o front) (nodes o rest)
        (subst (Holds f.links l) whole (v.kids r wr)) in
    let once : copies x (t r).p_child ≤ 1 =
      omega (arith, (v.kids r wr).once (x + o), copies-nodes o x (t r).p_child) in
    let here : copies x (t r).p_child ≡ copies x front + (1 + copies x rest) =
      ap (copies x) e ∙ ground (arith, copies-append x front (x ∷ rest)) in
    let moves : Moves all r x none (front ++ rest) t = record {
      rest = λ p ne. ground (
        arith,
        ap (copies p) e,
        copies-append p front (x ∷ rest),
        copies-append p front rest,
        ne,
      );
      joined = λ w. absurd (omega (arith, once, here, w, copies-append x front rest));
      joins = λ z. cc;
      only = λ q ne z. cc;
      absent =
          λ q w ne. zero_of _ (λ m. ne (cc (v.mine x q w m, v.mine x r wr (omega (arith, here)))));
    } in
    Changed-Represents Y all f t u v r x none (front ++ rest) h moves wr
      (v.inside x r wr (omega (arith, here))) (list_del (x + o) f.links) (l ∷ nodes o (t r).p_child)
      (subst (Holds (list_del (x + o) f.links) l) (sym (nodes-append o front rest)) d.0)
      (subst (λ zs. Untouched f.links (list_del (x + o) f.links) (l ∷ zs)) (sym whole) d.2)
      (λ q w ne. others_apart Y all f t a v q r w wr ne)

-- A PCB without a parent becomes the first child of r.
joined-Represents :
    (Y : Layout) (all : List ℕ) (f : Kin) (t u : ℕ → Pcb) (r x : ℕ)
    → IsApart Y all
    → Represents Y all f t
    → 0 < copies r all
    → 0 < copies x all
    → (t x).p_parent ≡ none
    → Changed r x (some r) (x ∷ (t r).p_child) t u
    → Represents Y all
        (record {
          links = list_add (x + Y.p_sib) (r + Y.p_child) f.links;
          parent = update f.parent x (some r);
        })
        u
joined-Represents Y all f t u r x a v wr wx orphan h =
    let o = Y.p_sib in
    let l = r + Y.p_child in
    let alone : (q : ℕ) → 0 < copies q all → copies x (t q).p_child ≡ 0 =
      λ q w. zero_of _ (λ m. cc (v.mine x q w m, orphan)) in
    let new : (q : ℕ)
        → 0 < copies q all
        → copies (x + o) ((q + Y.p_child) ∷ nodes o (t q).p_child) ≡ 0 =
      λ q w. ground (arith, a.apart x q wx w, copies-nodes o x (t q).p_child, alone q w) in
    let added =
      add_first-Holds f.links l (x + o) (nodes o (t r).p_child) (v.kids r wr) (new r wr) in
    let moves : Moves all r x (some r) (x ∷ (t r).p_child) t = record {
      rest = λ p ne. ground (arith, ne);
      joined = λ w. refl;
      joins = λ z. ground arith;
      only = λ q ne z. ne (cc z);
      absent = λ q w ne. alone q w;
    } in
    Changed-Represents Y all f t u v r x (some r) (x ∷ (t r).p_child) h moves wr wx
      (list_add (x + o) l f.links) ((x + o) ∷ l ∷ nodes o (t r).p_child) added.0 added.1
      (λ q w ne c n.
        let far : x + o ≢ c = λ e. omega (
          arith,
          subst (λ z. 0 < copies z ((q + Y.p_child) ∷ nodes o (t q).p_child)) (sym e) n,
          new q w,
        ) in
        ground (arith, others_apart Y all f t a v q r w wr ne c n, far))

-- `insertChild` of a PCB without a parent into another's children, on the nodes and on the sequences.
pub link_child-Represents :
    (Y : Layout) (all : List ℕ) (f : Kin) (k : Kernel) (prnt p : ℕ)
    → IsApart Y all
    → Represents Y all f k.pcb_table
    → 0 < copies prnt all
    → 0 < copies p all
    → (k.pcb_table p).p_parent ≡ none
    → Represents Y all
        (link_child Y (some prnt) (some p) f)
        (insert_child (some prnt) (some p) k).pcb_table
unfolding link_child insert_child
link_child-Represents Y all f k prnt p a v wr wx orphan =
    joined-Represents Y all f k.pcb_table _ prnt p a v wr wx orphan (record {
      here = ground arith;
      elsewhere = λ q ne. ground (arith, ne);
      new_parent = ground arith;
      old_parents = λ q ne. ground (arith, ne);
    })

-- What `outChild` and `removeChild` answer, and what they leave.
abbrev pub Agree : Layout → List ℕ → Option ℕ × Kin → Option ℕ × Kernel → Type 0
Agree Y all r m = (r.0 ≡ m.0) × Represents Y all r.1 m.1.pcb_table

copies-contains : (a : ℕ) (xs : List ℕ) → 0 < copies a xs → contains a xs ≡ true
copies-contains a xs w = elim (Bool-cases (contains a xs)) [
  | inl e ↦ e
  | inr none_there ↦ absurd (omega (arith, w, not_contains-copies a xs none_there))
]

unlink_from-Agree :
    (Y : Layout) (all : List ℕ) (f : Kin) (k : Kernel) (p : ℕ) (o : Option ℕ)
    → IsApart Y all
    → Represents Y all f k.pcb_table
    → (k.pcb_table p).p_parent ≡ o
    → Agree Y all (unlink_from Y p o f) (leave_parent p o k)
unfolding unlink_from leave_parent
unlink_from-Agree Y all f k p none a v e = (refl, v)
unlink_from-Agree Y all f k p (some r) a v e =
    let m = v.listed p r e in
    let parts = contains-Parted p (k.pcb_table r).p_child (copies-contains p _ m.1) in
    (
      refl,
      removed-Represents Y all f k.pcb_table _ r p parts.front parts.rest a v m.0 parts.whole
          (record {
            here = ground arith ∙ parts.without;
            elsewhere = λ q ne. ground (arith, ne);
            new_parent = ground arith;
            old_parents = λ q ne. ground (arith, ne);
          }),
    )

-- `outChild` on the nodes answers what it does on the sequences, and leaves the same tree.
pub unlink_child-Agree :
    (Y : Layout) (all : List ℕ) (f : Kin) (k : Kernel) (p : Option ℕ)
    → IsApart Y all
    → Represents Y all f k.pcb_table
    → Agree Y all (unlink_child Y p f) (out_child p k)
unfolding unlink_child out_child
unlink_child-Agree Y all f k none a v = (refl, v)
unlink_child-Agree Y all f k (some p) a v =
    subst (λ m. Agree Y all (unlink_from Y p m f) (leave_parent p (k.pcb_table p).p_parent k))
      (sym (v.parent p)) (unlink_from-Agree Y all f k p (k.pcb_table p).p_parent a v refl)

pub next_none : (h : Links) (l : ℕ) → Reads h l [] → list_next l h ≡ none
next_none h l (nothing e n p) = n

pub next_some : (h : Links) (l x : ℕ) (xs : List ℕ) → Reads h l (x ∷ xs) → list_next l h ≡ some x
next_some h l x xs (both e n p) = n

-- `emptyChild` on the nodes answers what it does on the sequences.
pub list_empty-empty_proc_q :
    (o l : ℕ) (ps : List ℕ) (h : Links) → Reads h l (nodes o ps) → list_empty l h ≡ empty_proc_q ps
unfolding empty_proc_q
list_empty-empty_proc_q o l [] h (nothing e n p) = e
list_empty-empty_proc_q o l (q ∷ ps) h (both e n p) = e

unlink_first-detach_first :
    (Y : Layout) (all : List ℕ) (f : Kin) (k : Kernel) (p : ℕ) (cs : List ℕ)
    → IsApart Y all
    → Represents Y all f k.pcb_table
    → 0 < copies p all
    → (k.pcb_table p).p_child ≡ cs
    → Agree Y all (unlink_first Y (some p) f) (detach_first p cs k)
unfolding unlink_first detach_first no_child empty_proc_q
unlink_first-detach_first Y all f k p [] a v w e =
    let held = subst (λ l. Holds f.links (p + Y.p_child) (nodes Y.p_sib l)) e (v.kids p w) in
    let empty =
      list_empty-empty_proc_q Y.p_sib (p + Y.p_child) [] f.links
        (list_next-Reads f.links _ [] held) in
    rw (unlink_first, no_child, empty) (refl, v)
unlink_first-detach_first Y all f k p (c ∷ cs) a v w e =
    let o = Y.p_sib in
    let held = subst (λ l. Holds f.links (p + Y.p_child) (nodes o l)) e (v.kids p w) in
    let reads = list_next-Reads f.links _ (nodes o (c ∷ cs)) held in
    let full = list_empty-empty_proc_q o (p + Y.p_child) (c ∷ cs) f.links reads in
    let next = next_some f.links (p + Y.p_child) (c + o) (nodes o cs) reads in
    rw (unlink_first, no_child, full, next, back c o)
      (
        refl,
        removed-Represents Y all f k.pcb_table _ p c [] cs a v w e (record {
          here = ground arith;
          elsewhere = λ q ne. ground (arith, ne);
          new_parent = ground arith;
          old_parents = λ q ne. ground (arith, ne);
        }),
      )

-- `removeChild` on the nodes answers what it does on the sequences, and leaves the same tree.
pub unlink_first-Agree :
    (Y : Layout) (all : List ℕ) (f : Kin) (k : Kernel) (p : ℕ)
    → IsApart Y all
    → Represents Y all f k.pcb_table
    → 0 < copies p all
    → Agree Y all (unlink_first Y (some p) f) (remove_child (some p) k)
unfolding remove_child
unlink_first-Agree Y all f k p a v w =
    unlink_first-detach_first Y all f k p (k.pcb_table p).p_child a v w refl
