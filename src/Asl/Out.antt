-- ===== src/Asl/Out.antt =====
-- `outBlocked` of phase1/asl.c against the queues of the semaphores.
use pand_ossh.Asl.Untouched.{Untouched}
use pand_ossh.Common.{
  Bool-cases, List, Option, [], ap, arith, contains, copies, copies-remove, false, if◌then◌else◌,
  inl, inr, none, refl, remove, some, true, ℕ, ◌&&◌, ◌++◌, ◌+◌, ◌==◌, ◌∷◌, ◌≡◌, ◌⊎◌,
}
use pand_ossh.Asl.Remove.{dropped, waiting_middle, shrink-Shrunk}
use pand_ossh.Asl.Insert.{IsValid}
use pand_ossh.Asl.Waiting.{waiting, blocked, waiting_absent, DistinctKeys, has_key}
use pand_ossh.Machine.{Kernel, Semd}
use pand_ossh.Asl.{shrink, out_blocked, find_waiting}

-- What the search of `outBlocked` says of the list.
abbrev Holds : ℕ → ℕ → List Semd → Option (List Semd × Semd × List Semd) → Type 0
Holds a p ss none = contains p (waiting a ss) ≡ false
Holds a p ss (some (l, s, r)) = (ss ≡ l ++ s ∷ r) × (s.s_key ≡ a) × (contains p s.s_procq ≡ true)

module _ (a p : ℕ) where
  Holds-cons :
      (s : Semd) (ss : List Semd) (o : Option (List Semd × Semd × List Semd))
      → ((a == s.s_key) && contains p s.s_procq) ≡ false
      → has_key s.s_key ss ≡ false
      → Holds a p ss o
      → Holds a p (s ∷ ss) (elim o [ none ↦ none | some (l, t, r) ↦ some (s ∷ l, t, r) ])
  Holds-cons s ss none miss d f =
      ground (arith, waiting_absent a ss, λ (e : s.s_key ≡ a). ap (λ x. has_key x ss) e)
  Holds-cons s ss (some (l, t, r)) miss d f = (ap (◌∷◌ s) f.0, f.1, f.2)

  find_waiting-Holds : (ss : List Semd) → DistinctKeys ss → Holds a p ss (find_waiting a p ss)
  unfolding find_waiting
  find_waiting-Holds [] d = refl
  find_waiting-Holds (s ∷ ss) d = elim (Bool-cases ((a == s.s_key) && contains p s.s_procq)) [
    | inl hit ↦ rw hit (refl, ground arith, ground arith)
    | inr miss ↦
        rw miss (Holds-cons s ss (find_waiting a p ss) miss d.0 (find_waiting-Holds ss d.1))
  ]

-- A kernel after `outBlocked` took `p` out of the queue of `a`.
pub record Left (a p : ℕ) (k k' : Kernel) : Type 0 where
  pub queues :
      (b : ℕ) → waiting b k'.asl ≡ (if a == b then remove p (waiting a k.asl) else waiting b k.asl)
  pub counted :
      (x : ℕ) → copies x (blocked k.asl) ≡ copies x (blocked k'.asl) + (if p == x then 1 else 0)
  pub table : k'.pcb_table ≡ k.pcb_table
  pub others : Untouched k k'
  pub valid : IsValid k'

abbrev pub Outcomes : ℕ → ℕ → Kernel → Option ℕ × Kernel → Type 0
Outcomes a p k (o, k') =
    ((contains p (waiting a k.asl) ≡ false) × (o ≡ none) × (k' ≡ k))
    ⊎ ((contains p (waiting a k.asl) ≡ true) × (o ≡ some p) × Left a p k k')

found-Outcomes :
    (a p : ℕ) (k : Kernel) (l : List Semd) (s : Semd) (r : List Semd)
    → k.asl ≡ l ++ s ∷ r
    → s.s_key ≡ a
    → contains p s.s_procq ≡ true
    → IsValid k
    → Outcomes a p k (some p, shrink l s r (remove p s.s_procq) k)
found-Outcomes a p k l s r here key h v =
    let g = shrink-Shrunk k l s r here v (remove p s.s_procq) in
    let q : waiting a k.asl ≡ s.s_procq =
      ground (arith, ap (waiting a) here, waiting_middle a l s r (dropped k l s r here v).2) in
    inr (
      rw q h,
      refl,
      record {
        queues = λ b. ground (arith, g.queues b, ap (remove p) q);
        counted = λ x. ground (arith, g.counted x, copies-remove p x s.s_procq);
        table = g.table;
        others = g.others;
        valid = g.valid;
      },
    )

-- On a well-formed list `outBlocked` takes the PCB out of the queue of the semaphore that it says it
-- waits on, and returns it; if it is not in that queue, it returns NULL and changes nothing.
pub out_blocked-Outcomes :
    (p : ℕ) (k : Kernel) → IsValid k → Outcomes (k.pcb_table p).p_sem_add p k (out_blocked p k)
unfolding out_blocked
out_blocked-Outcomes p k v =
    go (find_waiting (k.pcb_table p).p_sem_add p k.asl)
      (find_waiting-Holds (k.pcb_table p).p_sem_add p k.asl v.distinct)
  where
    go :
        (o : Option (List Semd × Semd × List Semd))
        → Holds (k.pcb_table p).p_sem_add p k.asl o
        → Outcomes (k.pcb_table p).p_sem_add p k (elim o [
          | none ↦ (none, k)
          | some (l, s, r) ↦ (some p, shrink l s r (remove p s.s_procq) k)
        ])
    go none h = inl (h, refl, refl)
    go (some (l, s, r)) h = found-Outcomes (k.pcb_table p).p_sem_add p k l s r h.0 h.1 h.2 v
