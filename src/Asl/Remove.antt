-- ===== src/Asl/Remove.antt =====
-- `removeBlocked` and `headBlocked` of phase1/asl.c against the queues of the semaphores.
use pand_ossh.Common.{
  Bool-cases, List, Option, [], ap, arith, copies, copies-append, false, if◌then◌else◌, inl, inr,
  length, length-append, none, refl, some, ℕ, ◌++◌, ◌+◌, ◌==◌, ◌∷◌, ◌≡◌,
}
use pand_ossh.Asl.Untouched.{Untouched, relisted}
use pand_ossh.Pcb.{head_proc_q, empty_proc_q}
use pand_ossh.Asl.{find_semd, head_blocked, remove_blocked, take_first, shrink}
use pand_ossh.Asl.Insert.{IsValid}
use pand_ossh.Machine.{Kernel, Semd}
use pand_ossh.Asl.Waiting.{
  find_semd-Finds, Finds, NonEmpty-put, DistinctKeys-replace, NonEmpty-split, waiting_absent,
  copies-blocked_append, has_key-append, waiting-append, DistinctKeys-drop, blocked, DistinctKeys,
  has_key, waiting,
}

-- A descriptor with its queue replaced.
abbrev pub with_queue : Semd → List ℕ → Semd
with_queue s rest = record s { s_procq = rest }

pub waiting_middle :
    (b : ℕ) (l : List Semd) (s : Semd) (r : List Semd)
    → has_key s.s_key l ≡ false
    → waiting b (l ++ s ∷ r) ≡ (if s.s_key == b then s.s_procq else waiting b (l ++ r))
waiting_middle b l s r h = elim (Bool-cases (s.s_key == b)) [
  | inl hit ↦
      rw (waiting-append b l (s ∷ r))
        (let e : s.s_key ≡ b = ground arith in ground (arith, ap (λ x. has_key x l) e))
  | inr miss ↦ rw (waiting-append b l (s ∷ r), waiting-append b l r, miss)
]

-- The kernel after the queue of one descriptor shrank to `rest`.
pub record Shrunk (s : Semd) (rest : List ℕ) (k k' : Kernel) : Type 0 where
  pub queues : (b : ℕ) → waiting b k'.asl ≡ (if s.s_key == b then rest else waiting b k.asl)
  pub counted :
      (x : ℕ)
      → copies x (blocked k'.asl) + copies x s.s_procq ≡ copies x (blocked k.asl) + copies x rest
  pub table : k'.pcb_table ≡ k.pcb_table
  pub others : Untouched k k'
  pub valid : IsValid k'

module _ (k : Kernel) (l : List Semd) (s : Semd) (r : List Semd) (here : k.asl ≡ l ++ s ∷ r)
    (v : IsValid k) where
  pub dropped : DistinctKeys (l ++ r) × (has_key s.s_key r ≡ false) × (has_key s.s_key l ≡ false)
  dropped = DistinctKeys-drop l s r (rw here at v.distinct)

  spread :
      (x : ℕ)
      → copies x (blocked k.asl) ≡ copies x (blocked l) + copies x s.s_procq + copies x (blocked r)
  spread x =
      rw here
        (omega (arith, copies-blocked_append x l (s ∷ r), copies-append x s.s_procq (blocked r)))

  pub shrink-Shrunk : (rest : List ℕ) → Shrunk s rest k (shrink l s r rest k)
  unfolding shrink empty_proc_q
  shrink-Shrunk [] = record {
    queues = λ b. ground (
      arith,
      ap (waiting b) here,
      waiting_middle b l s r dropped.2,
      has_key-append b l r,
      waiting_absent b (l ++ r),
      dropped.1,
      dropped.2,
    );
    counted = λ x. omega (arith, spread x, copies-blocked_append x l r);
    table = refl;
    others = relisted k _ _ _;
    valid = record {
      distinct = dropped.0;
      non_empty = (NonEmpty-split l s r (rw here at v.non_empty)).1;
      total = omega (arith, v.total, ap length here, length-append l (s ∷ r), length-append l r);
    };
  }
  shrink-Shrunk (p ∷ rest) = record {
    queues = λ b. ground (
      arith,
      ap (waiting b) here,
      waiting_middle b l s r dropped.2,
      waiting_middle b l (with_queue s (p ∷ rest)) r dropped.2,
    );
    counted = λ x. omega (
      arith,
      spread x,
      copies-blocked_append x l (with_queue s (p ∷ rest) ∷ r),
      copies-append x (p ∷ rest) (blocked r),
    );
    table = refl;
    others = relisted k _ _ _;
    valid = record {
      distinct = DistinctKeys-replace l s (with_queue s (p ∷ rest)) r refl (rw here at v.distinct);
      non_empty =
          NonEmpty-put l (with_queue s (p ∷ rest)) r
            (NonEmpty-split l s r (rw here at v.non_empty)).1 (λ e. cc);
      total = omega (
        arith,
        v.total,
        ap length here,
        length-append l (s ∷ r),
        length-append l (with_queue s (p ∷ rest) ∷ r),
      );
    };
  }

-- How `removeBlocked` ends: nobody waits and nothing changes, or the first in the queue leaves it.
pub record Popped (a p : ℕ) (rest : List ℕ) (k k' : Kernel) : Type 0 where
  pub first : waiting a k.asl ≡ p ∷ rest
  pub queues : (b : ℕ) → waiting b k'.asl ≡ (if a == b then rest else waiting b k.asl)
  pub counted :
      (x : ℕ) → copies x (blocked k.asl) ≡ copies x (blocked k'.asl) + (if p == x then 1 else 0)
  pub table : k'.pcb_table ≡ k.pcb_table
  pub others : Untouched k k'
  pub valid : IsValid k'

abbrev pub Removed : ℕ → Kernel → Option (Option ℕ × Kernel) → Type 0
Removed a k none = ⊥
Removed a k (some (none, k')) = (k' ≡ k) × (waiting a k.asl ≡ [])
Removed a k (some (some p, k')) = (rest : List ℕ) × Popped a p rest k k'

take_first-Removed :
    (a : ℕ) (k : Kernel) (l : List Semd) (s : Semd) (r : List Semd) (q : List ℕ)
    → s.s_procq ≡ q
    → k.asl ≡ l ++ s ∷ r
    → s.s_key ≡ a
    → IsValid k
    → Removed a k (take_first l s r q k)
unfolding take_first
take_first-Removed a k l s r [] e here key v =
    absurd ((NonEmpty-split l s r (rw here at v.non_empty)).0 e)
take_first-Removed a k l s r (p ∷ rest) e here key v =
    let h = shrink-Shrunk k l s r here v rest in
    (
      rest,
      record {
        first =
            ground (arith, ap (waiting a) here, waiting_middle a l s r (dropped k l s r here v).2);
        queues = λ b. ground (arith, h.queues b);
        counted = λ x. ground (arith, h.counted x);
        table = h.table;
        others = h.others;
        valid = h.valid;
      },
    )

-- On a well-formed list `removeBlocked` never reads through a null pointer. It returns NULL and
-- changes nothing exactly when nobody waits on the semaphore; otherwise it returns the PCB that
-- waited first, the others of the queue stay in order, no other queue changes, and the list is
-- well formed again.
pub remove_blocked-Removed : (a : ℕ) (k : Kernel) → IsValid k → Removed a k (remove_blocked a k)
unfolding remove_blocked
remove_blocked-Removed a k v = go (find_semd a k.asl) (find_semd-Finds a k.asl)
  where
    go :
        (o : Option (List Semd × Semd × List Semd))
        → Finds a k.asl o
        → Removed a k
            (elim o [ none ↦ some (none, k) | some (l, s, r) ↦ take_first l s r s.s_procq k ])
    go none h = (refl, waiting_absent a k.asl h)
    go (some (l, s, r)) h = take_first-Removed a k l s r s.s_procq refl h.0 h.1 v

-- `headBlocked` returns the first in the queue of the semaphore.
pub head_blocked_lem :
    (a : ℕ) (k : Kernel) → IsValid k → head_blocked a k ≡ head_proc_q (waiting a k.asl)
unfolding head_blocked head_proc_q
head_blocked_lem a k v = go (find_semd a k.asl) (find_semd-Finds a k.asl)
  where
    go :
        (o : Option (List Semd × Semd × List Semd))
        → Finds a k.asl o
        → (let r : Option ℕ = elim o [ none ↦ none | some (l, s, r) ↦ head_proc_q s.s_procq ] in r)
          ≡ head_proc_q (waiting a k.asl)
    go none h = rw (waiting_absent a k.asl h)
    go (some (l, s, r)) h =
        ap head_proc_q
          (ground (arith, h, ap (waiting a) h.0, waiting_middle a l s r (dropped k l s r h.0 v).2))
