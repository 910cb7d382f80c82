-- ===== src/Canary/Thumb/Painted.antt =====
-- What a painting with the machine code of src/canary.rs leaves in the memory of the target.
use probe_run.Base.{
  ℕ, suc, ◌+◌, ◌-◌, ◌*◌, ◌≤◌, ◌<◌, ◌≡◌, ◌⊎◌, inl, inr, ap, ◌∙◌, sym, subst, replicate, ltb, arith,
  Bool-cases,
}
use probe_run.Result.{ok}
use probe_run.U32.{Profile, u32_mod}
use probe_run.Exec.{>>=-Returns, Returns-elim, Returns-intro}
use probe_run.Core.{Core}
use probe_run.Canary.Subroutine.{
  canary_u8, canary_u32, paint_code, execute_subroutine, overwrite_subroutine, paint,
}
use probe_run.Canary.Subroutine.Paint.{get_or-replicate}
use probe_run.Canary.Thumb.{Machine, write_bytes}
use probe_run.Canary.Thumb.Step.{write_bytes-inside, write_bytes-outside}
use probe_run.Canary.Thumb.Paint.{steps, paint_code-paint_fn, paint_fn_lem}
use probe_run.Canary.Thumb.Target.{IsThumb, Ran, execute-Ran, run_unique}

-- The whole range and the word behind it hold the pattern, and the rest of the memory is as it was.
abbrev pub IsPainted : (low size : ℕ) → (before after : ℕ → ℕ) → Type 0
IsPainted low size before after =
    ((x : ℕ) → low ≤ x → x < low + size + 4 → after x ≡ canary_u8)
    × ((x : ℕ) → (x < low) ⊎ (low + size + 4 ≤ x) → after x ≡ before x)

module _ (low w size : ℕ) (count : size ≡ 12 + 4 * w) (fits : low + size + 4 < u32_mod) where
  -- the memory with the code in place
  abbrev with_code : (ℕ → ℕ) → ℕ → ℕ
  with_code memory = write_bytes low paint_code memory

  -- the run of the code paints what is behind it
  run-memory :
      (before after : Machine)
      → Ran low size paint_code before after
      → ((x : ℕ) → low + 12 ≤ x → x < low + size + 4 → after.memory x ≡ canary_u8)
        × ((x : ℕ)
            → (x < low + 12) ⊎ (low + size + 4 ≤ x)
            → after.memory x ≡ with_code before.memory x)
  run-memory before after (n, m, pc, ran, left) =
      let (memory', ends, inside, outside) =
        paint_fn_lem (suc w) (low + 12) (low + size) (with_code before.memory) (omega arith) fits in
      let (a', done) =
        paint_code-paint_fn low (low + size) canary_u32 before.r3 (omega arith) fits (suc (suc w))
          (low + 12) before.carry_flag before.zero_flag (with_code before.memory) memory'
          (λ k small. write_bytes-inside low paint_code before.memory k small) (omega arith) ends in
      let same : after.memory ≡ memory' =
        ap (λ q. q.memory) left
        ∙ ap (λ q. q.memory) (run_unique n (steps (suc (suc w))) _ m _ ran done) in
      (
        λ x above below. ap (λ f. f x) same ∙ inside x above below,
        λ x out. ap (λ f. f x) same ∙ outside x out,
      )

  overwritten-IsPainted :
      (before after : Machine)
      → Ran low size paint_code before after
      → IsPainted low size before.memory (write_bytes low (replicate 12 canary_u8) after.memory)
  overwritten-IsPainted before after r = (inside, outside)
    where
      inside :
          (x : ℕ)
          → low ≤ x
          → x < low + size + 4
          → write_bytes low (replicate 12 canary_u8) after.memory x ≡ canary_u8
      inside x above below = elim (Bool-cases (ltb x (low + 12))) [
        | inl place ↦
            let at : low + (x - low) ≡ x = omega arith in
            subst (λ y. write_bytes low (replicate 12 canary_u8) after.memory y ≡ canary_u8) at
              (write_bytes-inside low (replicate 12 canary_u8) after.memory (x - low) (ground arith)
                ∙ get_or-replicate 12 (x - low) canary_u8 0 (ground arith))
        | inr later ↦
            write_bytes-outside low (replicate 12 canary_u8) after.memory x (inr (ground arith))
            ∙ (run-memory before after r).0 x (ground arith) below
      ]

      outside :
          (x : ℕ)
          → (x < low) ⊎ (low + size + 4 ≤ x)
          → write_bytes low (replicate 12 canary_u8) after.memory x ≡ before.memory x
      outside x (inl h) =
          write_bytes-outside low (replicate 12 canary_u8) after.memory x (inl h)
          ∙ (run-memory before after r).1 x (inl (omega arith))
          ∙ write_bytes-outside low paint_code before.memory x (inl h)
      outside x (inr h) =
          write_bytes-outside low (replicate 12 canary_u8) after.memory x (inr (omega arith))
          ∙ (run-memory before after r).1 x (inr h)
          ∙ write_bytes-outside low paint_code before.memory x (inr (omega arith))

  -- On a core that carries out the instructions of the machine code, a painting that succeeds writes
  -- the pattern to every byte of the range and of the word behind it, the place of the code included,
  -- and leaves the rest of the memory as it was: for a range of 12 bytes and `w` words that ends,
  -- with the word behind it, within 32-bit addresses.
  pub paint-IsPainted :
      (core : Core) (view : core.State → Machine) (p : Profile) (s s' : core.State)
      → IsThumb core view
      → paint core p low size s ≡ (ok tt, s')
      → IsPainted low size (view s).memory (view s').memory
  unfolding paint overwrite_subroutine
  paint-IsPainted core view p s s' thumb painted =
      Returns-elim P (paint core p low size s) painted (
        >>=-Returns P (execute_subroutine core p low size paint_code)
          (λ _. overwrite_subroutine core p low) s
          (λ _ t e. Returns-intro P (overwrite_subroutine core p low t) (λ _ u e'.
            let over = thumb.bytes_written low (replicate 12 canary_u8) t u e' in
            let r =
              Returns-elim (λ _ v. Ran low size paint_code (view s) (view v)) _ e
                (execute-Ran core view thumb p low size paint_code s (omega arith) (omega arith)) in
            subst (IsPainted low size (view s).memory) (sym (ap (λ q. q.memory) over))
              (overwritten-IsPainted (view s) (view t) r))))
    where
      P : Unit {0} → core.State → Type 0
      P _ u = IsPainted low size (view s).memory (view u).memory
