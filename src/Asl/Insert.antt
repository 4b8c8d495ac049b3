-- ===== src/Asl/Insert.antt =====
-- `insertBlocked` of phase1/asl.c against the queues of the semaphores.
use pand_ossh.Asl.Untouched.{Untouched, relisted}
use pand_ossh.Common.{
  Bool, Bool-cases, List, Option, [], ap, append-nil, arith, copies, copies-append, false,
  if◌then◌else◌, inl, inr, length, length-append, none, refl, some, true, update, ℕ, ◌++◌, ◌+◌,
  ◌==◌, ◌∙◌, ◌∷◌, ◌≡◌, ◌≢◌, ◌⊎◌,
}
use pand_ossh.Machine.{Semd, Kernel, maxproc}
use pand_ossh.Asl.{set_sem_add, insert_blocked, insert_active, activate}
use pand_ossh.Asl.Waiting.{
  has_key-append, NonEmpty-put, waiting, blocked, has_key, DistinctKeys, NonEmpty, waiting_absent,
  waiting-append, copies-blocked_append,
}

-- The static state of the list: one descriptor to a semaphore, no empty queue, and every descriptor
-- either active or free.
pub record IsValid (k : Kernel) : Type 0 where
  pub distinct : DistinctKeys k.asl
  pub non_empty : NonEmpty k.asl
  pub total : length k.asl + length k.semd_free ≡ maxproc

-- What the loop of `insertBlocked` returns.
abbrev Inserts : ℕ → ℕ → List Semd → Option (List Semd) → Type 0
Inserts a p ss none = has_key a ss ≡ false
Inserts a p ss (some ts) =
    ((b : ℕ) → waiting b ts ≡ (if a == b then waiting b ss ++ p ∷ [] else waiting b ss))
    × ((x : ℕ) → copies x (blocked ts) ≡ copies x (blocked ss) + (if p == x then 1 else 0))
    × ((b : ℕ) → has_key b ts ≡ has_key b ss)
    × (length ts ≡ length ss)
    × (DistinctKeys ss → DistinctKeys ts)
    × (NonEmpty ss → NonEmpty ts)

append_ne_nil : (xs : List ℕ) (p : ℕ) → xs ++ p ∷ [] ≢ []
append_ne_nil [] p e = cc
append_ne_nil (x ∷ xs) p e = cc

module _ (a p : ℕ) where
  hit-Inserts :
      (s : Semd) (ss : List Semd)
      → (s.s_key == a) ≡ true
      → Inserts a p (s ∷ ss) (some (record s { s_procq = s.s_procq ++ p ∷ [] } ∷ ss))
  hit-Inserts s ss hit = (
    λ b. ground arith,
    λ x. omega (
      arith,
      copies-append x (s.s_procq ++ p ∷ []) (blocked ss),
      copies-append x s.s_procq (p ∷ []),
      copies-append x s.s_procq (blocked ss),
    ),
    λ b. refl,
    refl,
    λ d. d,
    λ n. (append_ne_nil s.s_procq p, n.1),
  )

  miss-Inserts :
      (s : Semd) (ss : List Semd) (o : Option (List Semd))
      → (s.s_key == a) ≡ false
      → Inserts a p ss o
      → Inserts a p (s ∷ ss) (elim o [ none ↦ none | some ts ↦ some (s ∷ ts) ])
  miss-Inserts s ss none miss h = rw (miss, h)
  miss-Inserts s ss (some ts) miss h = (
    λ b. ground (arith, h.0 b),
    λ x. omega (
      arith,
      copies-append x s.s_procq (blocked ts),
      copies-append x s.s_procq (blocked ss),
      h.1 x,
    ),
    λ b. ground (arith, h.2 b),
    omega (arith, h.3),
    λ d. (h.2 s.s_key ∙ d.0, h.4 d.1),
    λ n. (n.0, h.5 n.1),
  )

  insert_active-Inserts : (ss : List Semd) → Inserts a p ss (insert_active a p ss)
  unfolding insert_active
  insert_active-Inserts [] = refl
  insert_active-Inserts (s ∷ ss) = elim (Bool-cases (s.s_key == a)) [
    | inl hit ↦ rw hit (hit-Inserts s ss hit)
    | inr miss ↦ rw miss (miss-Inserts s ss (insert_active a p ss) miss (insert_active-Inserts ss))
  ]

-- A kernel after `insertBlocked` succeeded: `p` waits last on `a`, and says so.
pub record Queued (a p : ℕ) (k k' : Kernel) : Type 0 where
  pub queues :
      (b : ℕ) → waiting b k'.asl ≡ (if a == b then waiting b k.asl ++ p ∷ [] else waiting b k.asl)
  pub counted :
      (x : ℕ) → copies x (blocked k'.asl) ≡ copies x (blocked k.asl) + (if p == x then 1 else 0)
  pub table : k'.pcb_table ≡ update k.pcb_table p (record (k.pcb_table p) { p_sem_add = a })
  pub others : Untouched k k'

-- A new descriptor behind the list.
abbrev fresh : ℕ → ℕ → ℕ → Semd
fresh a p i = record { index = i; s_key = a; s_procq = p ∷ [] }

activate-Queued :
    (a p : ℕ) (free : List ℕ) (k : Kernel)
    → has_key a k.asl ≡ false
    → (activate a p free k).0 ≡ false
    → Queued a p k (activate a p free k).1
unfolding activate
activate-Queued a p [] k h e = cc
activate-Queued a p (i ∷ free) k h e = record {
  queues = λ b. ground (
    arith,
    waiting-append b k.asl (fresh a p i ∷ []),
    waiting_absent a k.asl h,
    waiting_absent b k.asl,
  );
  counted = λ x. omega (arith, copies-blocked_append x k.asl (fresh a p i ∷ []));
  table = refl;
  others = relisted k _ _ _;
}

-- The kernel after the loop found a descriptor.
abbrev joined : ℕ → ℕ → List Semd → Kernel → Kernel
joined a p ts k = record k {
  asl = ts;
  pcb_table = update k.pcb_table p (record (k.pcb_table p) { p_sem_add = a });
}

-- How `insertBlocked` ends: no descriptor, or `p` queued.
abbrev pub Inserted : ℕ → ℕ → Kernel → Bool × Kernel → Type 0
Inserted a p k (full, k') =
    ((full ≡ true) × (k' ≡ k) × (has_key a k.asl ≡ false) × (k.semd_free ≡ []))
    ⊎ ((full ≡ false) × Queued a p k k')

activate-Inserted :
    (a p : ℕ) (free : List ℕ) (k : Kernel)
    → has_key a k.asl ≡ false
    → k.semd_free ≡ free
    → Inserted a p k (activate a p free k)
unfolding activate
activate-Inserted a p [] k h e = inl (refl, refl, h, e)
activate-Inserted a p (i ∷ free) k h e = inr (refl, activate-Queued a p (i ∷ free) k h refl)

-- `insertBlocked` puts the PCB at the tail of the queue of the semaphore and leaves all other
-- queues alone, or it returns TRUE: then the semaphore had no descriptor, no descriptor was free,
-- and nothing changed.
pub insert_blocked-Inserted : (a p : ℕ) (k : Kernel) → Inserted a p k (insert_blocked a p k)
unfolding insert_blocked
insert_blocked-Inserted a p k = go (insert_active a p k.asl) (insert_active-Inserts a p k.asl)
  where
    go :
        (o : Option (List Semd))
        → Inserts a p k.asl o
        → Inserted a p k (elim o [
          | none ↦ activate a p k.semd_free k
          | some ss ↦ (false, set_sem_add p a (record k { asl = ss }))
        ])
    go none h = activate-Inserted a p k.semd_free k h refl
    go (some ts) h =
        inr (refl, record { queues = h.0; counted = h.1; table = refl; others = relisted k _ _ _ })

DistinctKeys-snoc :
    (ss : List Semd) (s : Semd)
    → DistinctKeys ss
    → has_key s.s_key ss ≡ false
    → DistinctKeys (ss ++ s ∷ [])
DistinctKeys-snoc [] s d h = (refl, tt)
DistinctKeys-snoc (t ∷ ss) s d h = (
  ground (arith, has_key-append t.s_key ss (s ∷ []), d.0),
  DistinctKeys-snoc ss s d.1 (ground arith),
)

activate-IsValid :
    (a p : ℕ) (free : List ℕ) (k : Kernel)
    → has_key a k.asl ≡ false
    → k.semd_free ≡ free
    → IsValid k
    → IsValid (activate a p free k).1
unfolding activate
activate-IsValid a p [] k h e v = v
activate-IsValid a p (i ∷ free) k h e v = record {
  distinct = DistinctKeys-snoc k.asl (fresh a p i) v.distinct h;
  non_empty = NonEmpty-put k.asl (fresh a p i) [] (rw append-nil v.non_empty) (append_ne_nil [] p);
  total = omega (arith, length-append k.asl (fresh a p i ∷ []), ap length e, v.total);
}

-- `insertBlocked` keeps the list well formed.
pub insert_blocked-IsValid : (a p : ℕ) (k : Kernel) → IsValid k → IsValid (insert_blocked a p k).1
unfolding insert_blocked
insert_blocked-IsValid a p k v = go (insert_active a p k.asl) (insert_active-Inserts a p k.asl)
  where
    go :
        (o : Option (List Semd))
        → Inserts a p k.asl o
        → IsValid (
            let r : Bool × Kernel = elim o [
              | none ↦ activate a p k.semd_free k
              | some ss ↦ (false, set_sem_add p a (record k { asl = ss }))
            ] in
            r.1)
    go none h = activate-IsValid a p k.semd_free k h refl v
    go (some ts) h = record {
      distinct = h.4 v.distinct;
      non_empty = h.5 v.non_empty;
      total = omega (arith, h.3, v.total);
    }
