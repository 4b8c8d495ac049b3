-- ===== src/Auxfun.antt =====
-- phase2/src/auxfun.c: the copy of a processor state.
use pand_ossh.Common.{ℕ, zero, suc, ◌<◌, ◌≡◌, refl, arith, update, ltb, if◌then◌else◌}
use pand_ossh.Machine.{Platform, State}

-- The loop over the registers, up to the n-th.
unfoldable pub copy_gprs : ℕ → (ℕ → ℕ) → (ℕ → ℕ) → ℕ → ℕ
copy_gprs zero dst src = dst
copy_gprs (suc n) dst src = update (copy_gprs n dst src) n (src n)

-- `copyState(dst, src)`
unfoldable pub copy_state : Platform → State → State → State
copy_state P dst src = record {
  entry_hi = src.entry_hi;
  cause = src.cause;
  status = src.status;
  pc_epc = src.pc_epc;
  mie = src.mie;
  gpr = copy_gprs P.gpr_len dst.gpr src.gpr;
}

-- The fields of `s` are those of `t`, and so are the registers that exist.
pub record SameState (P : Platform) (s t : State) : Type 0 where
  pub entry_hi : s.entry_hi ≡ t.entry_hi
  pub cause : s.cause ≡ t.cause
  pub status : s.status ≡ t.status
  pub pc_epc : s.pc_epc ≡ t.pc_epc
  pub mie : s.mie ≡ t.mie
  pub gpr : (i : ℕ) → i < P.gpr_len → s.gpr i ≡ t.gpr i

pub copy_gprs_lem :
    (n i : ℕ) (dst src : ℕ → ℕ) → copy_gprs n dst src i ≡ (if ltb i n then src i else dst i)
unfolding copy_gprs
copy_gprs_lem zero i dst src = ground arith
copy_gprs_lem (suc n) i dst src = ground (arith, copy_gprs_lem n i dst src)

-- After `copyState` the two states agree in every field and every register.
pub copy_state-SameState : (P : Platform) (dst src : State) → SameState P (copy_state P dst src) src
unfolding copy_state
copy_state-SameState P dst src = record {
  entry_hi = refl;
  cause = refl;
  status = refl;
  pc_epc = refl;
  mie = refl;
  gpr = λ i h. ground (arith, copy_gprs_lem P.gpr_len i dst.gpr src.gpr);
}
