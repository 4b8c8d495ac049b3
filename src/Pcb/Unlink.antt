-- ===== src/Pcb/Unlink.antt =====
-- `outProcQ`, `removeProcQ` and `headProcQ` of phase1/pcb.c on linked nodes do what they do on sequences.
use pand_ossh.Common.{
  ==_iff, ==_self, Bool-cases, List, Option, [], ap, arith, contains, copies, false, if◌then◌else◌,
  inl, inr, length, none, refl, remove, some, subst, suc, sym, true, zero, ℕ, ◌++◌, ◌+◌, ◌<◌, ◌==◌,
  ◌∙◌, ◌∷◌, ◌≡◌,
}
use pand_ossh.Pcb.Nodes.{Layout, out_node, out_from, remove_node, head_node}
use pand_ossh.Pcb.Walk.{nodes, nodes-append, back}
use pand_ossh.Pcb.{out_proc_q, remove_proc_q, head_proc_q}
use pand_ossh.Listx.Frame.{Untouched, del_here-Holds}
use pand_ossh.Listx.Segment.{Segment, first, ends-Segment}
use pand_ossh.Listx.Sequence.{Holds}
use pand_ossh.Listx.{Links, list_del, list_empty, list_next}

-- The walk of `outProcQ` from the first node of a segment that ends at the head.
out_from-contains :
    (Y : Layout) (l p fuel a : ℕ) (qs : List ℕ) (h : Links)
    → length qs < fuel
    → copies l (nodes Y.p_list qs) ≡ 0
    → Segment h a (nodes Y.p_list qs) l
    → out_from Y l p fuel (first (nodes Y.p_list qs) l) h
      ≡ some (if contains p qs then (some p, list_del (p + Y.p_list) h) else (none, h))
unfolding out_from
out_from-contains Y l p zero a qs h w away s = absurd (omega (arith, w))
out_from-contains Y l p (suc fuel) a [] h w away s = rw (out_from, ==_self l) refl
out_from-contains Y l p (suc fuel) a (q ∷ qs) h w away s =
    let other : (q + Y.p_list == l) ≡ false = ground (arith, away) in
    let next : h.next (q + Y.p_list) ≡ first (nodes Y.p_list qs) l =
      (ends-Segment h (q + Y.p_list) (nodes Y.p_list qs) l s.2).1 in
    elim (Bool-cases (p == q)) [
      | inl same ↦
          let e = (==_iff p q).0 same in
          let flipped : (q == p) ≡ true = (==_iff q p).1 (sym e) in
          rw (out_from, other, back q Y.p_list, same, flipped)
            (ap (λ x. some (some p, list_del (x + Y.p_list) h)) (sym e))
      | inr more ↦
          let flipped : (q == p) ≡ false = ground (arith, more) in
          rw (out_from, other, back q Y.p_list, more, flipped, next)
            (out_from-contains Y l p fuel (q + Y.p_list) qs h (omega (arith, w))
              (omega (arith, away)) s.2)
    ]

-- A member of a sequence, what stands before it and what stands behind.
pub record Parted (p : ℕ) (qs : List ℕ) : Type 0 where
  pub front : List ℕ
  pub rest : List ℕ
  pub whole : qs ≡ front ++ p ∷ rest
  pub without : remove p qs ≡ front ++ rest

pub contains-Parted : (p : ℕ) (qs : List ℕ) → contains p qs ≡ true → Parted p qs
contains-Parted p [] e = cc
contains-Parted p (q ∷ qs) e = elim (Bool-cases (q == p)) [
  | inl same ↦ record {
    front = [];
    rest = qs;
    whole = ap (λ x. x ∷ qs) ((==_iff q p).0 same);
    without = rw same refl;
  }
  | inr other ↦
      let h = contains-Parted p qs (ground (arith, other, e)) in
      record {
        front = q ∷ h.front;
        rest = h.rest;
        whole = ap (λ l. q ∷ l) h.whole;
        without = rw other (ap (λ l. q ∷ l) h.without);
      }
]

-- The list l after a PCB was taken out, if it was there: the PCB's node is then an empty list.
pub record Taken (Y : Layout) (l : ℕ) (qs rs : List ℕ) (o : Option ℕ) (h h' : Links) : Type 0 where
  pub holds : Holds h' l (nodes Y.p_list rs)
  pub alone : (p : ℕ) → o ≡ some p → Holds h' (p + Y.p_list) []
  pub untouched : Untouched h h' (l ∷ nodes Y.p_list qs)

Taken-none :
    (Y : Layout) (l : ℕ) (qs : List ℕ) (h : Links)
    → Holds h l (nodes Y.p_list qs)
    → Taken Y l qs qs none h h
Taken-none Y l qs h s = record {
  holds = s;
  alone = λ p e. cc;
  untouched = record { next = λ c w. refl; prev = λ c w. refl };
}

Taken-some :
    (Y : Layout) (l p : ℕ) (qs front rest : List ℕ) (h : Links)
    → qs ≡ front ++ p ∷ rest
    → Holds h l (nodes Y.p_list qs)
    → Taken Y l qs (front ++ rest) (some p) h (list_del (p + Y.p_list) h)
Taken-some Y l p qs front rest h e s =
    let o = Y.p_list in
    let whole : nodes o qs ≡ nodes o front ++ (p + o) ∷ nodes o rest =
      ap (nodes o) e ∙ nodes-append o front (p ∷ rest) in
    let d = del_here-Holds h l (p + o) (nodes o front) (nodes o rest) (subst (Holds h l) whole s) in
    record {
      holds = subst (Holds (list_del (p + o) h) l) (sym (nodes-append o front rest)) d.0;
      alone = λ q w. subst (λ x. Holds (list_del (p + o) h) (x + o) []) (cc w) d.1;
      untouched = subst (λ zs. Untouched h (list_del (p + o) h) (l ∷ zs)) (sym whole) d.2;
    }

-- What `outProcQ` answers, and the list that it leaves, are those of the sequence.
abbrev pub Takes :
    Layout → ℕ → List ℕ → Links → Option ℕ × List ℕ → Option (Option ℕ × Links) → Type 0
Takes Y l qs h m none = ⊥
Takes Y l qs h m (some r) = (r.0 ≡ m.0) × Taken Y l qs m.1 m.0 h r.1

-- A list holds a queue. With more fuel than PCBs on the queue the walk of `outProcQ` ends; it answers what `out_proc_q` does,
-- the list then holds the sequence that `out_proc_q` leaves, the node that was taken out is an empty
-- list of its own, and no node of another list changes.
pub out_node-Takes :
    (Y : Layout) (fuel l p : ℕ) (qs : List ℕ) (h : Links)
    → length qs < fuel
    → Holds h l (nodes Y.p_list qs)
    → Takes Y l qs h (out_proc_q p qs) (out_node Y fuel l p h)
unfolding out_node out_proc_q
out_node-Takes Y fuel l p qs h w s =
    let found =
      ap (λ c. out_from Y l p fuel c h) (ends-Segment h l (nodes Y.p_list qs) l s.linked).1
      ∙ out_from-contains Y l p fuel l qs h w (ground (arith, s.once l)) s.linked in
    elim (Bool-cases (contains p qs)) [
      | inl here ↦
          let parts = contains-Parted p qs here in
          rw (found, here)
            (
              refl,
              subst (λ l1. Taken Y l qs l1 (some p) h (list_del (p + Y.p_list) h))
                  (sym parts.without) (Taken-some Y l p qs parts.front parts.rest h parts.whole s),
            )
      | inr gone ↦ rw (found, gone) (refl, Taken-none Y l qs h s)
    ]

-- `headProcQ` and `removeProcQ` answer what they do on the sequence, and `removeProcQ` leaves the list
-- with the rest of it, the node that was taken out an empty list of its own, and other lists alone.
pub remove_node-Takes :
    (Y : Layout) (l : ℕ) (qs : List ℕ) (h : Links)
    → Holds h l (nodes Y.p_list qs)
    → (head_node Y l h ≡ head_proc_q qs)
      × Takes Y l qs h (remove_proc_q qs) (some (remove_node Y l h))
unfolding head_node remove_node head_proc_q remove_proc_q list_empty list_next
remove_node-Takes Y l [] h s =
    let empty : (h.next l == l) ≡ true = (==_iff (h.next l) l).1 s.linked.0 in
    rw (head_node, remove_node, empty) (refl, (refl, Taken-none Y l [] h s))
remove_node-Takes Y l (q ∷ qs) h s =
    let full : (q + Y.p_list == l) ≡ false = ground (arith, s.once l) in
    rw
      (
        head_node,
        remove_node,
        s.linked.0,
        full,
        list_next,
        list_empty,
        s.linked.0,
        full,
        back q Y.p_list,
      )
      (refl, (refl, Taken-some Y l q (q ∷ qs) [] qs h refl s))
