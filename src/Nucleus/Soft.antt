-- ===== src/Nucleus/Soft.antt =====
-- `softBlock_count` of the nucleus: how many processes wait for a device or for the clock.
use pand_ossh.Common.{
  ==_iff, Bool-cases, List, [], ap, arith, copies, inl, inr, is_pos, length, length-append, none,
  refl, some, subst, suc, sym, zero, ℕ, ◌+◌, ◌<◌, ◌==◌, ◌∷◌, ◌≡◌, ◌≢◌, ◌≤◌,
}
use pand_ossh.Nucleus.Capacity.{total, total_spare, length-total}
use pand_ossh.Nucleus.Places.{Inv}
use pand_ossh.Asl.Waiting.{waiting, blocked}
use pand_ossh.Machine.{
  Run, Outcome, Platform, Kernel, Semd, device_sem, nsuppsem, maxproc, halted, waits, panicked,
}
use pand_ossh.Scheduler.{start, dispatch, dispatch_from, idle}
use pand_ossh.Pcb.{remove_proc_q}

total-same : (n : ℕ) (f g : ℕ → ℕ) → ((i : ℕ) → i < n → f i ≡ g i) → total n f ≡ total n g
total-same zero f g h = refl
total-same (suc n) f g h =
    omega (arith, h n (omega arith), total-same n f g (λ i w. h i (omega (arith, w))))

-- A sum of which one member changed.
total_but_one :
    (n j : ℕ) (f g : ℕ → ℕ)
    → j < n
    → ((i : ℕ) → i ≢ j → f i ≡ g i)
    → total n f + g j ≡ total n g + f j
total_but_one zero j f g w h = absurd (omega (arith, w))
total_but_one (suc n) j f g w h = elim (Bool-cases (n == j)) [
  | inl e ↦
      let at : n ≡ j = (==_iff n j).0 e in
      let below = total-same n f g (λ i l. h i (λ same. omega (arith, l, at, same))) in
      omega (arith, below, ap f at, ap g at)
  | inr ne ↦
      let off : n ≢ j = λ e. cc ((==_iff n j).1 e, ne) in
      let rest = total_but_one n j f g (omega (arith, w, off)) h in omega (arith, rest, h n off)
]

-- How many processes wait on each semaphore of a device, and on that of the clock.
abbrev pub queue_of : Platform → List Semd → ℕ → ℕ
queue_of P ss i = length (waiting (device_sem P i) ss)

abbrev pub soft_blocked : Platform → List Semd → ℕ
soft_blocked P ss = total (suc nsuppsem) (queue_of P ss)

-- The semaphore is neither that of a device nor that of the clock.
abbrev pub IsOther : Platform → ℕ → Type 0
IsOther P a = (i : ℕ) → i < suc nsuppsem → a ≢ device_sem P i

abbrev pub Counted : Platform → Kernel → Type 0
Counted P k = k.soft_block_count ≡ soft_blocked P k.asl

module _ (P : Platform) (k k' : Kernel) (a : ℕ)
    (same : (b : ℕ) → a ≢ b → waiting b k'.asl ≡ waiting b k.asl) where
  -- Only the queue of a semaphore that is not counted changed.
  pub other-soft_blocked : IsOther P a → soft_blocked P k'.asl ≡ soft_blocked P k.asl
  other-soft_blocked o =
      total-same (suc nsuppsem) (queue_of P k'.asl) (queue_of P k.asl)
        (λ i w. ap length (same (device_sem P i) (o i w)))

  -- Only the queue of one that is counted changed.
  pub device-soft_blocked :
      (j : ℕ)
      → j < suc nsuppsem
      → a ≡ device_sem P j
      → soft_blocked P k'.asl + length (waiting a k.asl)
        ≡ soft_blocked P k.asl + length (waiting a k'.asl)
  device-soft_blocked j w e =
      subst
        (λ b.
          soft_blocked P k'.asl + length (waiting b k.asl)
          ≡ soft_blocked P k.asl + length (waiting b k'.asl))
        (sym e)
        (total_but_one (suc nsuppsem) j (queue_of P k'.asl) (queue_of P k.asl) w
          (λ i ne. ap length (same (device_sem P i) (λ h. ne (omega (arith, h, e))))))

-- A descriptor adds its queue at most.
cons-total :
    (P : Platform) (n : ℕ) (s : Semd) (ss : List Semd)
    → total n (queue_of P (s ∷ ss)) ≤ length s.s_procq + total n (queue_of P ss)
cons-total P zero s ss = omega arith
cons-total P (suc n) s ss = elim (Bool-cases (s.s_key == device_sem P n)) [
  | inl hit ↦
      let key = (==_iff s.s_key (device_sem P n)).0 hit in
      let below : total n (queue_of P (s ∷ ss)) ≡ total n (queue_of P ss) =
        total-same n _ _ (λ i w. ground (arith, key, w)) in
      ground (arith, hit, below)
  | inr miss ↦ ground (arith, miss, cons-total P n s ss)
]

soft_blocked-blocked : (P : Platform) (ss : List Semd) → soft_blocked P ss ≤ length (blocked ss)
soft_blocked-blocked P [] = omega arith
soft_blocked-blocked P (s ∷ ss) = omega (
  arith,
  cons-total P (suc nsuppsem) s ss,
  soft_blocked-blocked P ss,
  length-append s.s_procq (blocked ss),
)

-- They are no more than there are PCBs.
pub soft_blocked-le : (P : Platform) (k : Kernel) → Inv k → soft_blocked P k.asl ≤ maxproc
soft_blocked-le P k v = omega (
  arith,
  soft_blocked-blocked P k.asl,
  length-total maxproc (blocked k.asl) (λ a l. ground (arith, v.once a)),
  total_spare maxproc maxproc (λ a. copies a (blocked k.asl)) (λ a. ground (arith, v.once a)),
)

-- What an outcome of the scheduler says: HALT, that there is no process; WAIT, that none is ready and
-- one of them waits for a device or for the clock; PANIC, that there are processes, but none is ready and
-- none waits for a device or for the clock.
abbrev pub Judges : Platform → Kernel → Outcome → Type 0
Judges P k halted = (k.ready_queue ≡ []) × (k.process_count ≡ 0)
Judges P k waits = (k.ready_queue ≡ []) × (0 < soft_blocked P k.asl)
Judges P k panicked = (k.ready_queue ≡ []) × (k.process_count ≢ 0) × (soft_blocked P k.asl ≡ 0)
Judges P k _ = Unit {0}

-- A run without a fault that leaves `softBlock_count` right, and ends as the processes stand.
abbrev pub Counts : Platform → Run → Type 0
Counts P none = ⊥
Counts P (some (k, o)) = Counted P k × Judges P k o

dispatch_from-Counts :
    (P : Platform) (q : List ℕ) (k : Kernel)
    → k.ready_queue ≡ q
    → soft_blocked P k.asl ≤ maxproc
    → Counted P k
    → Counts P (some (dispatch_from P (remove_proc_q q) k))
unfolding dispatch_from idle start remove_proc_q
dispatch_from-Counts P (p ∷ q) k e few n = (n, tt)
dispatch_from-Counts P [] k e few n = elim (Bool-cases (k.process_count == 0)) [
  | inl gone ↦ rw gone (n, (e, (==_iff k.process_count 0).0 gone))
  | inr there ↦
      let some_left : k.process_count ≢ 0 = ground (arith, there) in
      rw there (elim (Bool-cases (is_pos k.soft_block_count)) [
        | inl some_wait ↦ rw some_wait (n, (e, ground (arith, n, some_wait)))
        | inr deadlock ↦ rw deadlock (n, (e, some_left, ground (arith, n, few, deadlock)))
      ])
]

-- The scheduler keeps the count, and judges by it.
pub dispatch-Counts :
    (P : Platform) (k : Kernel)
    → soft_blocked P k.asl ≤ maxproc
    → Counted P k
    → Counts P (some (dispatch P k))
unfolding dispatch
dispatch-Counts P k few n = dispatch_from-Counts P k.ready_queue k refl few n
