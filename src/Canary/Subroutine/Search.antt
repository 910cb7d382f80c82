-- ===== src/Canary/Subroutine/Search.antt =====
-- The measurement of src/canary.rs finds the lowest touched byte of the whole painted memory.
use probe_run.Base.{
  ℕ, ◌+◌, ◌*◌, ◌≤◌, ◌<◌, ◌≡◌, inl, inr, refl, sym, ap, ◌∙◌, false, Option, none, some, ◌==◌, arith,
}
use probe_run.Result.{ok}
use probe_run.U32.{Profile, u32_mod, add_u32-fits}
use probe_run.Core.{Core}
use probe_run.Canary.Subroutine.{
  measure_code, measure_size, position, to_le_bytes, execute_subroutine, touched_at, expect_touched,
  search_with_probe, get_result, run_measure, measure,
}
use probe_run.Canary.Subroutine.Words.{
  IsMemory, bytes_at, word_at, first_touched, measured, more, bytes_in, to_le_bytes-word_at,
  touched_at-first, first_touched-more, first_touched-hit, bytes_in_lem, more_lem,
}
use probe_run.Canary.Subroutine.Match.{Matches, matches}

module _ (core : Core) (p : Profile) (mem : ℕ → ℕ) where
  get_result-touched :
      (b word i : ℕ) (t : core.State)
      → core.read_core_reg 0 t ≡ (ok b, t)
      → (b == 0) ≡ false
      → core.read_word_32 b t ≡ (ok word, t)
      → position (to_le_bytes word) ≡ some i
      → get_result core p t ≡ (touched_at core p b (some i), t)
  unfolding get_result
  get_result-touched b word i t reg nonzero at pos =
      rw reg (rw nonzero (rw at (ap (λ r. (expect_touched core p b r, t)) pos)))

  -- what the word that the subroutine reported leads to
  result-Matches :
      (low w : ℕ) (t : core.State)
      → IsMemory mem
      → 0 < low
      → low + bytes_in w < u32_mod
      → core.read_core_reg 0 t ≡ (ok (measured mem low w), t)
      → ((b : ℕ)
          → low ≤ b
          → b + 4 ≤ low + bytes_in w
          → core.read_word_32 b t ≡ (ok (word_at mem b), t))
      → get_result core p t ≡ (ok (first_touched mem low (bytes_in w)), t)
  unfolding get_result
  result-Matches low w t small positive fits reg word = by_match (matches mem w low small)
    where
      by_match :
          Matches mem low w → get_result core p t ≡ (ok (first_touched mem low (bytes_in w)), t)
      by_match (inl (untouched, zero_word)) = rw reg (rw (untouched, zero_word) refl)
      by_match (inr (b, i, found, above, below, first, at, lt)) =
          get_result-touched b (word_at mem b) i t (reg ∙ ap (λ v. (ok v, t)) found) (ground arith)
            (word b above below) (ap position (to_le_bytes-word_at mem b small) ∙ at)
          ∙ ap (λ r. (r, t)) (rw (add_u32-fits p b i (omega arith)) (ap ok (sym first)))

  -- A run of the subroutine of the measurement that does what its Rust function says: it leaves in R0 the first
  -- of the words behind itself that is not the pattern, and these words stay as they were.
  pub record Measured (low w size : ℕ) (s t : core.State) : Type 0 where
    pub ran : execute_subroutine core p low size measure_code s ≡ (ok tt, t)
    pub reported : core.read_core_reg 0 t ≡ (ok (measured mem (low + 20) w), t)
    pub kept :
        (b : ℕ)
        → low + 20 ≤ b
        → b + 4 ≤ low + size
        → core.read_word_32 b t ≡ (ok (word_at mem b), t)

  -- If the probe reads the memory at the subroutine's place as it is and the subroutine, where it is run, does
  -- what its Rust function says, then the measurement finds the lowest byte of the whole range
  -- that is not the pattern, or that there is none: for a range of 20 bytes and `w` words that does not
  -- start at 0 and ends within 32-bit addresses.
  pub measure-first_touched :
      (low w size : ℕ) (s t : core.State)
      → IsMemory mem
      → size ≡ 20 + 4 * w
      → 0 < low
      → low + size < u32_mod
      → core.read_8 low measure_size s ≡ (ok (bytes_at mem low 20), s)
      → (first_touched mem low 20 ≡ none → Measured low w size s t)
      → (measure core p low size s).0 ≡ ok (first_touched mem low size)
  unfolding measure search_with_probe run_measure
  measure-first_touched low w size s t small count positive fits read runs = rw read (
      rw (touched_at-first core p mem low 20 (omega arith))
        (by_probe (first_touched mem low 20) refl))
    where
      whole : first_touched mem low size ≡ first_touched mem low (more 20 (bytes_in w))
      whole =
          let total : size ≡ more 20 (bytes_in w) =
            omega (arith, count, more_lem 20 (bytes_in w), bytes_in_lem w) in
          ap (first_touched mem low) total

      by_probe :
          (r : Option ℕ)
          → first_touched mem low 20 ≡ r
          → (run_measure core p low size r s).0 ≡ ok (first_touched mem low size)
      by_probe (some x) e = ap ok (sym (whole ∙ first_touched-hit mem 20 (bytes_in w) low x e))
      by_probe none e =
          let m = runs e in
          let inner =
            result-Matches (low + 20) w t small (omega arith) (omega (arith, bytes_in_lem w))
              m.reported (λ b above below. m.kept b above (omega (arith, bytes_in_lem w))) in
          rw m.ran (rw inner (ap ok (sym (whole ∙ first_touched-more mem 20 (bytes_in w) low e))))
