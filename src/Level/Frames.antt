-- ===== src/Level/Frames.antt =====
-- `freeSwapFrames` of phase3/src/vmSupport.c: the frames of a process that ends.
use pand_ossh.Level.{
  verhogen, not_mie, not_validon, passeren, call_effect, poolsize, Swap, get_pte, Level, Services,
}
use pand_ossh.Level.Vm.{
  free_frame, invalidate, invalidate_if, free_frames, free_frame_of, free_swap_frames,
}
use pand_ossh.Common.{
  ==_self, Bool-cases, Option, ap, arith, bit_and, if◌then◌else◌, inl, inr, ltb, none, refl, some,
  suc, zero, ℕ, ◌&&◌, ◌<◌, ◌==◌, ◌∙◌, ◌≡◌, ◌≢◌,
}

invalidate_if-pool : (o : Option (ℕ × ℕ)) (l : Level) → (invalidate_if o l).swap_pool ≡ l.swap_pool
unfolding invalidate_if invalidate
invalidate_if-pool none l = refl
invalidate_if-pool (some p) l = refl

free_frame_of-pool :
    (asid j x : ℕ) (l : Level)
    → (free_frame_of asid j l).swap_pool x
      ≡ (if (x == j) && ((l.swap_pool j).sw_asid == asid) then free_frame else l.swap_pool x)
unfolding free_frame_of
free_frame_of-pool asid j x l = ground (arith, invalidate_if-pool (l.swap_pool j).sw_pte l)

free_frames-pool :
    (asid n x : ℕ) (l : Level)
    → (free_frames asid n l).swap_pool x
      ≡ (if ltb x n && ((l.swap_pool x).sw_asid == asid) then free_frame else l.swap_pool x)
unfolding free_frames
free_frames-pool asid zero x l = ground arith
free_frames-pool asid (suc n) x l = ground (
  arith,
  free_frame_of-pool asid n x (free_frames asid n l),
  free_frames-pool asid n x l,
  free_frames-pool asid n n l,
)

-- The valid bit of an entry is cleared.
abbrev pub Invalid : ℕ × ℕ → Level → Type 0
Invalid p l = (v : ℕ) × ((get_pte p l).pte_entry_lo ≡ bit_and v not_validon)

invalidate-Invalid : (p q : ℕ × ℕ) (l : Level) → Invalid q l → Invalid q (invalidate p l)
unfolding invalidate
invalidate-Invalid p q l (v, e) = elim (Bool-cases ((q.0 == p.0) && (q.1 == p.1))) [
  | inl same ↦ ((get_pte p l).pte_entry_lo, ground arith)
  | inr other ↦ (v, ground arith)
]

invalidate_self : (p : ℕ × ℕ) (l : Level) → Invalid p (invalidate p l)
unfolding invalidate
invalidate_self p l = ((get_pte p l).pte_entry_lo, ground arith)

invalidate_if-Invalid :
    (o : Option (ℕ × ℕ)) (q : ℕ × ℕ) (l : Level) → Invalid q l → Invalid q (invalidate_if o l)
unfolding invalidate_if
invalidate_if-Invalid none q l h = h
invalidate_if-Invalid (some p) q l h = invalidate-Invalid p q l h

free_frame_of-Invalid :
    (asid j : ℕ) (q : ℕ × ℕ) (l : Level) → Invalid q l → Invalid q (free_frame_of asid j l)
unfolding free_frame_of
free_frame_of-Invalid asid j q l h = elim (Bool-cases ((l.swap_pool j).sw_asid == asid)) [
  | inl owned ↦ rw owned (invalidate_if-Invalid (l.swap_pool j).sw_pte q l h)
  | inr other ↦ rw other h
]

free_frame_of-frees :
    (asid j : ℕ) (q : ℕ × ℕ) (l : Level)
    → (l.swap_pool j).sw_asid ≡ asid
    → (l.swap_pool j).sw_pte ≡ some q
    → Invalid q (free_frame_of asid j l)
unfolding free_frame_of invalidate_if
free_frame_of-frees asid j q l owned e = rw (owned, ==_self asid, e) (invalidate_self q l)

free_frames-frees :
    (asid n j : ℕ) (q : ℕ × ℕ) (l : Level)
    → j < n
    → (l.swap_pool j).sw_asid ≡ asid
    → (l.swap_pool j).sw_pte ≡ some q
    → Invalid q (free_frames asid n l)
unfolding free_frames
free_frames-frees asid zero j q l h owned e = ground arith
free_frames-frees asid (suc n) j q l h owned e = elim (Bool-cases (j == n)) [
  | inl last ↦
      let same : (free_frames asid n l).swap_pool n ≡ l.swap_pool j =
        ground (arith, free_frames-pool asid n n l) in
      free_frame_of-frees asid n q (free_frames asid n l)
        (ap (λ (s : Swap). s.sw_asid) same ∙ owned) (ap (λ (s : Swap). s.sw_pte) same ∙ e)
  | inr before ↦
      free_frame_of-Invalid asid n q (free_frames asid n l)
        (free_frames-frees asid n j q l (ground arith) owned e)
]

-- What the loop leaves: the frames of the process are free, all others as before, and no entry of a
-- page table that stood for a freed frame is valid.
pub record Freed (asid : ℕ) (l m : Level) : Type 0 where
  pub freed : (j : ℕ) → j < poolsize → (l.swap_pool j).sw_asid ≡ asid → m.swap_pool j ≡ free_frame
  pub others : (j : ℕ) → (l.swap_pool j).sw_asid ≢ asid → m.swap_pool j ≡ l.swap_pool j
  pub invalid :
      (j : ℕ) (q : ℕ × ℕ)
      → j < poolsize
      → (l.swap_pool j).sw_asid ≡ asid
      → (l.swap_pool j).sw_pte ≡ some q
      → Invalid q m

-- Between the P that takes the mutex and the V that gives it back.
abbrev pub FreesUnderMutex : Services → ℕ → Level → Type 0
FreesUnderMutex E asid l =
    let l1 = call_effect E (passeren E.swap_semaphore) l in
    (m : Level) × (free_swap_frames E asid l ≡ call_effect E (verhogen E.swap_semaphore) m)
    × Freed asid l1 m
    × (m.tlb ≡ E.cleared)
    × (m.status ≡ l1.status)

-- When a process ends, between taking and giving back the mutex of the swap pool each of its frames
-- becomes free and the page table entry of that frame invalid, the frames of all other processes
-- stay, the TLB is cleared, and the interrupts are as they were.
pub free_swap_frames-Frees : (E : Services) (asid : ℕ) (l : Level) → FreesUnderMutex E asid l
unfolding free_swap_frames
free_swap_frames-Frees E asid l =
    let l1 = call_effect E (passeren E.swap_semaphore) l in
    let l2 = record l1 { status = bit_and l1.status not_mie } in
    let l3 = free_frames asid poolsize l2 in
    (
      record l3 { tlb = E.cleared; status = l1.status },
      refl,
      record {
        freed = λ j h owned. ground (arith, free_frames-pool asid poolsize j l2);
        others = λ j ne. ground (arith, free_frames-pool asid poolsize j l2);
        invalid = λ j q h owned e. free_frames-frees asid poolsize j q l2 h owned e;
      },
      refl,
      refl,
    )
