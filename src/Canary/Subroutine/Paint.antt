-- ===== src/Canary/Subroutine/Paint.antt =====
-- What `paint_subroutine` of src/canary.rs leaves in the memory of the target.
use probe_run.Base.{
  ℕ, zero, suc, ◌+◌, ◌-◌, ◌≤◌, ◌<◌, ◌≡◌, ◌⊎◌, inl, inr, refl, ◌∙◌, subst, none, List, length,
  get_or, replicate, ltb, ◌==◌, true, arith, Bool-cases,
}
use probe_run.Result.{ok}
use probe_run.U32.{Profile}
use probe_run.Core.{Core}
use probe_run.Canary.Subroutine.{
  canary_u8, paint_code, paint_size, execute_subroutine, overwrite_subroutine, paint,
}
use probe_run.Canary.Subroutine.Words.{first_touched}

pub get_or-replicate : (n i v d : ℕ) → i < n → get_or (replicate n v) i d ≡ v
get_or-replicate zero i v d h = absurd (omega arith)
get_or-replicate (suc n) zero v d h = refl
get_or-replicate (suc n) (suc i) v d h = get_or-replicate n i v d (omega arith)

pub untouched :
    (mem : ℕ → ℕ) (n a : ℕ)
    → ((x : ℕ) → a ≤ x → x < a + n → mem x ≡ canary_u8)
    → first_touched mem a n ≡ none
untouched mem zero a h = refl
untouched mem (suc n) a h =
    let here : (mem a == canary_u8) ≡ true = ground (arith, h a (omega arith) (omega arith)) in
    rw here (untouched mem n (a + 1) (λ x low high. h x (omega arith) (omega arith)))

module _ (core : Core) (p : Profile) (mem : core.State → ℕ → ℕ) where
  -- the bytes are written by the probe, and no others
  pub record Wrote (addr : ℕ) (bytes : List ℕ) (s s' : core.State) : Type 0 where
    pub inside : (i : ℕ) → i < length bytes → mem s' (addr + i) ≡ get_or bytes i 0
    pub outside : (x : ℕ) → (x < addr) ⊎ (addr + length bytes ≤ x) → mem s' x ≡ mem s x

  -- If the probe writes the bytes that it is given and no others, and the subroutine does what its Rust
  -- function says (it writes the pattern to the words behind itself, up to and with the one at the end
  -- of the range), then after a painting that succeeds every byte of the range and of the word behind it is
  -- the pattern, the place of the subroutine included, and the measurement's search finds nothing there.
  pub paint_lem :
      (low size : ℕ) (s t s' : core.State)
      → paint_size ≤ size
      → ((addr : ℕ) (bytes : List ℕ) (u u' : core.State)
          → core.write_8 addr bytes u ≡ (ok tt, u')
          → Wrote addr bytes u u')
      → execute_subroutine core p low size paint_code s ≡ (ok tt, t)
      → ((x : ℕ) → low + paint_size ≤ x → x < low + size + 4 → mem t x ≡ canary_u8)
      → paint core p low size s ≡ (ok tt, s')
      → ((x : ℕ) → low ≤ x → x < low + size + 4 → mem s' x ≡ canary_u8)
        × (first_touched (mem s') low size ≡ none)
  unfolding paint overwrite_subroutine
  paint_lem low size s t s' fits writes ran behind h =
      (painted, untouched (mem s') size low (λ x above below. painted x above (omega arith)))
    where
      overwritten : core.write_8 low (replicate paint_size canary_u8) t ≡ (ok tt, s')
      overwritten = rw ran at h

      wrote : Wrote low (replicate paint_size canary_u8) t s'
      wrote = writes low (replicate paint_size canary_u8) t s' overwritten

      painted : (x : ℕ) → low ≤ x → x < low + size + 4 → mem s' x ≡ canary_u8
      painted x above below = elim (Bool-cases (ltb x (low + paint_size))) [
        | inl place ↦
            let i_small : x - low < paint_size = ground arith in
            let at : low + (x - low) ≡ x = omega arith in
            subst (λ y. mem s' y ≡ canary_u8) at
              (wrote.inside (x - low) i_small
                ∙ get_or-replicate paint_size (x - low) canary_u8 0 i_small)
        | inr later ↦ wrote.outside x (inr (ground arith)) ∙ behind x (ground arith) below
      ]
