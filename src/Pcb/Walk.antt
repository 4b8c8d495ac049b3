-- ===== src/Pcb/Walk.antt =====
-- `insertProcQ` of phase1/pcb.c on linked nodes does what it does on sequences.
use pand_ossh.Common.{
  ==_self, Bool-cases, List, Option, [], ap, arith, copies, false, if◌then◌else◌, inl, inr, length,
  none, refl, slt32, some, subst, suc, sym, zero, ℕ, ◌++◌, ◌+◌, ◌-◌, ◌<◌, ◌==◌, ◌∙◌, ◌∷◌, ◌≡◌,
}
use pand_ossh.Machine.{Pcb}
use pand_ossh.Pcb.Nodes.{Layout, find_place, insert_node}
use pand_ossh.Pcb.{insert_proc_q}
use pand_ossh.Listx.Segment.{ends-Segment, Segment, first}
use pand_ossh.Listx.Frame.{Untouched, add_behind-Holds}
use pand_ossh.Listx.Sequence.{Holds}
use pand_ossh.Listx.{Links, list_add}

-- The nodes at an offset in these structures.
abbrev pub nodes : ℕ → List ℕ → List ℕ
nodes o [] = []
nodes o (p ∷ ps) = (p + o) ∷ nodes o ps

pub nodes-append : (o : ℕ) (ps qs : List ℕ) → nodes o (ps ++ qs) ≡ nodes o ps ++ nodes o qs
nodes-append o [] qs = refl
nodes-append o (p ∷ ps) qs = ap (λ l. (p + o) ∷ l) (nodes-append o ps qs)

-- The PCBs that `insertProcQ` passes, and the rest.
abbrev passed : (ℕ → Pcb) → ℕ → List ℕ → List ℕ
passed t p [] = []
passed t p (q ∷ qs) = if slt32 (t q).p_prio (t p).p_prio then [] else q ∷ passed t p qs

abbrev behind : (ℕ → Pcb) → ℕ → List ℕ → List ℕ
behind t p [] = []
behind t p (q ∷ qs) = if slt32 (t q).p_prio (t p).p_prio then q ∷ qs else behind t p qs

split_here : (t : ℕ → Pcb) (p : ℕ) (qs : List ℕ) → qs ≡ passed t p qs ++ behind t p qs
split_here t p [] = refl
split_here t p (q ∷ qs) = ground (arith, split_here t p qs)

insert_proc_q-split :
    (t : ℕ → Pcb) (p : ℕ) (qs : List ℕ) → insert_proc_q t p qs ≡ passed t p qs ++ p ∷ behind t p qs
unfolding insert_proc_q
insert_proc_q-split t p [] = refl
insert_proc_q-split t p (q ∷ qs) = ground (arith, insert_proc_q-split t p qs)

pub back : (p o : ℕ) → (p + o) - o ≡ p
back p o = omega arith

-- The walk from the first node of a segment that ends at the head.
find_place-first :
    (Y : Layout) (t : ℕ → Pcb) (head p fuel a : ℕ) (qs : List ℕ) (h : Links)
    → length qs < fuel
    → copies head (nodes Y.p_list qs) ≡ 0
    → Segment h a (nodes Y.p_list qs) head
    → find_place Y t head p fuel (first (nodes Y.p_list qs) head) h
      ≡ some (first (nodes Y.p_list (behind t p qs)) head)
unfolding find_place
find_place-first Y t head p zero a qs h w away s = absurd (omega (arith, w))
find_place-first Y t head p (suc fuel) a [] h w away s = rw (find_place, ==_self head) refl
find_place-first Y t head p (suc fuel) a (q ∷ qs) h w away s =
    let other : (q + Y.p_list == head) ≡ false = ground (arith, away) in
    let next : h.next (q + Y.p_list) ≡ first (nodes Y.p_list qs) head =
      (ends-Segment h (q + Y.p_list) (nodes Y.p_list qs) head s.2).1 in
    elim (Bool-cases (slt32 (t q).p_prio (t p).p_prio)) [
      | inl less ↦ rw (find_place, other, back q Y.p_list, less) refl
      | inr more ↦
          rw (find_place, other, back q Y.p_list, more, next)
            (find_place-first Y t head p fuel (q + Y.p_list) qs h (omega (arith, w))
              (omega (arith, away)) s.2)
    ]

-- A new list, and what the others keep.
pub record Inserted (Y : Layout) (l x : ℕ) (qs rs : List ℕ) (h h' : Links) : Type 0 where
  pub holds : Holds h' l (nodes Y.p_list rs)
  pub untouched : Untouched h h' (x ∷ l ∷ nodes Y.p_list qs)

abbrev pub Inserts : Layout → ℕ → ℕ → List ℕ → List ℕ → Links → Option Links → Type 0
Inserts Y l x qs rs h none = ⊥
Inserts Y l x qs rs h (some h') = Inserted Y l x qs rs h h'

-- A list holds a queue, and the node of a PCB is not on it. With more fuel than PCBs on the queue the
-- walk of `insertProcQ` ends, and the list then holds what `insert_proc_q` makes of the queue; no node
-- of another list changes.
pub insert_node-Inserts :
    (Y : Layout) (t : ℕ → Pcb) (fuel l p : ℕ) (qs : List ℕ) (h : Links)
    → length qs < fuel
    → Holds h l (nodes Y.p_list qs)
    → copies (p + Y.p_list) (l ∷ nodes Y.p_list qs) ≡ 0
    → Inserts Y l (p + Y.p_list) qs (insert_proc_q t p qs) h (insert_node Y t fuel l p h)
unfolding insert_node
insert_node-Inserts Y t fuel l p qs h w s new =
    let o = Y.p_list in
    let xs = nodes o (passed t p qs) in
    let ys = nodes o (behind t p qs) in
    let split : nodes o qs ≡ xs ++ ys =
      ap (nodes o) (split_here t p qs) ∙ nodes-append o (passed t p qs) (behind t p qs) in
    let result : xs ++ (p + o) ∷ ys ≡ nodes o (insert_proc_q t p qs) =
      sym (nodes-append o (passed t p qs) (p ∷ behind t p qs))
      ∙ ap (nodes o) (sym (insert_proc_q-split t p qs)) in
    let found : find_place Y t l p fuel (h.next l) h ≡ some (first ys l) =
      ap (λ c. find_place Y t l p fuel c h) (ends-Segment h l (nodes o qs) l s.linked).1
      ∙ find_place-first Y t l p fuel l qs h w (ground (arith, s.once l)) s.linked in
    let added =
      add_behind-Holds h l (p + o) xs ys (subst (Holds h l) split s)
        (subst (λ zs. copies (p + o) (l ∷ zs) ≡ 0) split new) in
    rw found (record {
      holds = subst (Holds (list_add (p + o) (h.prev (first ys l)) h) l) result added.0;
      untouched =
          subst (λ zs. Untouched h (list_add (p + o) (h.prev (first ys l)) h) ((p + o) ∷ l ∷ zs))
            (sym split) added.1;
    })
