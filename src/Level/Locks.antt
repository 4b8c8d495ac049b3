-- ===== src/Level/Locks.antt =====
-- The mutex of the swap pool over `pager`: how often it is taken and given back.
use pand_ossh.Common.{
  Bool-cases, List, Option, [], ap, arith, if◌then◌else◌, inl, inr, is_some, neg32, none, refl,
  some, suc, true, update, zero, ℕ, ◌+◌, ◌<◌, ◌==◌, ◌∙◌, ◌∷◌, ◌≡◌, ◌≢◌, ◌⊎◌,
}
use pand_ossh.Machine.{PteEntry}
use pand_ossh.Level.Vm.{free_frame, invalidate, invalidate_if, free_frame_of, free_frames}
use pand_ossh.Level.{
  Swap, poolsize, set_pte, passeren, verhogen, call_effect, Call, call, Level, Services,
}

-- 1 for a P, or a V, on the mutex of the swap pool.
abbrev pub lock_of : Services → Call → ℕ
lock_of E (passeren a) = if a == E.swap_semaphore then 1 else 0
lock_of E _ = 0

abbrev pub unlock_of : Services → Call → ℕ
unlock_of E (verhogen a) = if a == E.swap_semaphore then 1 else 0
unlock_of E _ = 0

-- How often the mutex was taken, and given back.
abbrev pub locks : Services → List Call → ℕ
locks E [] = 0
locks E (c ∷ cs) = lock_of E c + locks E cs

abbrev pub unlocks : Services → List Call → ℕ
unlocks E [] = 0
unlocks E (c ∷ cs) = unlock_of E c + unlocks E cs

-- A frame without an owner, or with an entry of a page table.
abbrev pub IsMapped : Swap → Type 0
IsMapped w = (w.sw_asid ≡ neg32 1) ⊎ (is_some w.sw_pte ≡ true)

-- Every frame of the pool that has an owner has an entry of a page table, and the turn is a frame.
abbrev pub Mapped : Level → Type 0
Mapped l = ((i : ℕ) → i < poolsize → IsMapped (l.swap_pool i)) × (l.fifo_cont < poolsize)

-- What other processes do during a call leaves the caller's trace, its flag, numbered x, and the ASID
-- in its support structure s, and keeps the pool well formed; the three semaphores are different
-- variables.
pub record IsPrivate (E : Services) (s x : ℕ) : Type 0 where
  pub trace : (c : Call) (l : Level) → (E.syscall c l).1.trace ≡ l.trace
  pub flag :
      (c : Call) (l : Level) → (E.syscall c l).1.holding_swap_mutex x ≡ l.holding_swap_mutex x
  pub asid :
      (c : Call) (l : Level) → ((E.syscall c l).1.supports s).sup_asid ≡ (l.supports s).sup_asid
  pub mapped : (c : Call) (l : Level) → Mapped l → Mapped (E.syscall c l).1
  pub master : E.master_semaphore ≢ E.swap_semaphore
  pub shell : E.shell_semaphore ≢ E.swap_semaphore

-- The calls made between l and m take the mutex p times and give it back v times, and the pool stays
-- well formed.
pub record Counts (E : Services) (s x p v : ℕ) (l m : Level) : Type 0 where
  pub locked : locks E m.trace ≡ p + locks E l.trace
  pub unlocked : unlocks E m.trace ≡ v + unlocks E l.trace
  pub flag : m.holding_swap_mutex x ≡ l.holding_swap_mutex x
  pub asid : (m.supports s).sup_asid ≡ (l.supports s).sup_asid
  pub pool : Mapped l → Mapped m

pub Counts-refl : (E : Services) (s x : ℕ) (l : Level) → Counts E s x 0 0 l l
Counts-refl E s x l = record {
  locked = omega arith;
  unlocked = omega arith;
  flag = refl;
  asid = refl;
  pool = λ h. h;
}

pub Counts-trans :
    (E : Services) (s x p q v w : ℕ) (l m n : Level)
    → Counts E s x p v l m
    → Counts E s x q w m n
    → Counts E s x (q + p) (w + v) l n
Counts-trans E s x p q v w l m n a b = record {
  locked = omega (arith, a.locked, b.locked);
  unlocked = omega (arith, a.unlocked, b.unlocked);
  flag = b.flag ∙ a.flag;
  asid = b.asid ∙ a.asid;
  pool = λ h. b.pool (a.pool h);
}

pub call-Counts :
    (E : Services) (s x : ℕ) (c : Call) (l : Level)
    → IsPrivate E s x
    → Counts E s x (lock_of E c) (unlock_of E c) l (call_effect E c l)
unfolding call
call-Counts E s x c l h = record {
  locked = ap (locks E) (h.trace c _);
  unlocked = ap (unlocks E) (h.trace c _);
  flag = h.flag c _;
  asid = h.asid c _;
  pool = λ m. h.mapped c _ m;
}

-- Only the trace, the flags and the support structures count.
pub Counts-same :
    (E : Services) (s x p v : ℕ) (l l1 m m1 : Level)
    → (l1.trace ≡ l.trace)
      × (l1.holding_swap_mutex ≡ l.holding_swap_mutex)
      × (l1.supports ≡ l.supports)
    → (m1.trace ≡ m.trace)
      × (m1.holding_swap_mutex ≡ m.holding_swap_mutex)
      × (m1.supports ≡ m.supports)
    → (Mapped l1 → Mapped l)
    → (Mapped m → Mapped m1)
    → Counts E s x p v l m
    → Counts E s x p v l1 m1
Counts-same E s x p v l l1 m m1 (a, b, c) (d, e, f) g h r = record {
  locked = rw (a, d) r.locked;
  unlocked = rw (a, d) r.unlocked;
  flag = rw (b, e) r.flag;
  asid = rw (c, f) r.asid;
  pool = λ m. h (r.pool (g m));
}

pub lock-Counts :
    (E : Services) (s x : ℕ) (l : Level)
    → IsPrivate E s x
    → Counts E s x 1 0 l (call_effect E (passeren E.swap_semaphore) l)
lock-Counts E s x l h =
    let r = call-Counts E s x (passeren E.swap_semaphore) l h in
    record {
      locked = ground (arith, r.locked);
      unlocked = r.unlocked;
      flag = r.flag;
      asid = r.asid;
      pool = r.pool;
    }

pub unlock-Counts :
    (E : Services) (s x : ℕ) (l : Level)
    → IsPrivate E s x
    → Counts E s x 0 1 l (call_effect E (verhogen E.swap_semaphore) l)
unlock-Counts E s x l h =
    let r = call-Counts E s x (verhogen E.swap_semaphore) l h in
    record {
      locked = r.locked;
      unlocked = ground (arith, r.unlocked);
      flag = r.flag;
      asid = r.asid;
      pool = r.pool;
    }

-- A change of an entry of a page table.
pub set_pte-Counts :
    (E : Services) (s x : ℕ) (p : ℕ × ℕ) (e : PteEntry) (l : Level)
    → Counts E s x 0 0 l (set_pte p e l)
set_pte-Counts E s x p e l = record {
  locked = omega arith;
  unlocked = omega arith;
  flag = refl;
  asid = ground arith;
  pool = λ h. h;
}

pub invalidate_if-Counts :
    (E : Services) (s x : ℕ) (o : Option (ℕ × ℕ)) (l : Level)
    → Counts E s x 0 0 l (invalidate_if o l)
unfolding invalidate_if invalidate
invalidate_if-Counts E s x none l = Counts-refl E s x l
invalidate_if-Counts E s x (some p) l = set_pte-Counts E s x p _ l

pub update-IsMapped :
    (p : ℕ → Swap) (j : ℕ) (w : Swap)
    → IsMapped w
    → ((i : ℕ) → i < poolsize → IsMapped (p i))
    → (i : ℕ) → i < poolsize
    → IsMapped (update p j w i)
update-IsMapped p j w m all i b = elim (Bool-cases (i == j)) [
  | inl here ↦ rw here m
  | inr other ↦ rw other (all i b)
]

pub free_frame_of-Counts :
    (E : Services) (s x asid j : ℕ) (l : Level) → Counts E s x 0 0 l (free_frame_of asid j l)
unfolding free_frame_of
free_frame_of-Counts E s x asid j l = elim (Bool-cases ((l.swap_pool j).sw_asid == asid)) [
  | inl owned ↦
      let r = invalidate_if-Counts E s x (l.swap_pool j).sw_pte l in
      rw owned (record {
        locked = r.locked;
        unlocked = r.unlocked;
        flag = r.flag;
        asid = r.asid;
        pool = λ h. let m = r.pool h in (update-IsMapped _ j free_frame (inl refl) m.0, m.1);
      })
  | inr other ↦ rw other (Counts-refl E s x l)
]

pub free_frames-Counts :
    (E : Services) (s x asid n : ℕ) (l : Level) → Counts E s x 0 0 l (free_frames asid n l)
unfolding free_frames
free_frames-Counts E s x asid zero l = Counts-refl E s x l
free_frames-Counts E s x asid (suc n) l =
    Counts-trans E s x 0 0 0 0 l _ _ (free_frames-Counts E s x asid n l)
      (free_frame_of-Counts E s x asid n (free_frames asid n l))
