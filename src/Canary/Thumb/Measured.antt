-- ===== src/Canary/Thumb/Measured.antt =====
-- What a measurement with the machine code of src/canary.rs finds in the memory of the target.
use probe_run.Base.{
  ℕ, zero, suc, ◌+◌, ◌*◌, ◌≤◌, ◌<◌, ◌≡◌, inl, inr, refl, ap, ◌∙◌, sym, subst, Option, none, some,
  List, [], ◌∷◌, All, false, ◌==◌, arith, if◌then◌else◌,
}
use probe_run.Result.{Result, ok}
use probe_run.U32.{Profile, u32_mod, add_u32-fits}
use probe_run.Exec.{pure, lift, ◌>>=◌, Returns, >>=-Returns, Returns-elim}
use probe_run.Core.{Core}
use probe_run.Canary.Subroutine.{
  canary_u8, canary_u32, measure_code, position, to_le_bytes, touched_at, expect_touched,
  execute_subroutine, search_with_probe, get_result, run_measure, measure,
}
use probe_run.Canary.Subroutine.Words.{
  IsMemory, word_at, first_touched, measured, more, bytes_in, bytes_in_lem, more_lem,
  to_le_bytes-word_at, touched_at-first, first_touched-more, first_touched-hit,
}
use probe_run.Canary.Subroutine.Match.{Matches, matches}
use probe_run.Canary.Thumb.{Machine, write_bytes}
use probe_run.Canary.Thumb.Step.{write_bytes-inside, write_bytes-outside}
use probe_run.Canary.Thumb.Measure.{steps, measure_code-measure_fn, measure_fn-measured}
use probe_run.Canary.Thumb.Target.{IsThumb, Ran, execute-Ran, run_unique}

first_touched-same :
    (n a : ℕ) (mem mem' : ℕ → ℕ)
    → ((x : ℕ) → a ≤ x → mem x ≡ mem' x)
    → first_touched mem a n ≡ first_touched mem' a n
first_touched-same zero a mem mem' h = refl
first_touched-same (suc n) a mem mem' h = rw (h a (omega arith)) (
    ap (λ later. if mem' a == canary_u8 then later else some a)
      (first_touched-same n (a + 1) mem mem' (λ x above. h x (omega arith))))

write_bytes-IsMemory :
    (a : ℕ) (bytes : List ℕ) (mem : ℕ → ℕ)
    → All (λ b. b < 256) bytes
    → IsMemory mem
    → IsMemory (write_bytes a bytes mem)
write_bytes-IsMemory a [] mem h small x = small x
write_bytes-IsMemory a (b ∷ rest) mem (h, hs) small x =
    ground (arith, write_bytes-IsMemory (a + 1) rest mem hs small x)

module _ (core : Core) (view : core.State → Machine) (thumb : IsThumb core view) (p : Profile) where
  -- what is made of the word that R0 points to
  result-touched :
      (mem : ℕ → ℕ) (a w : ℕ) (t : core.State)
      → IsMemory mem
      → 0 < a
      → a + bytes_in w < u32_mod
      → (view t).r0 ≡ measured mem a w
      → (view t).memory ≡ mem
      → Returns (λ found _. found ≡ first_touched mem a (bytes_in w)) (get_result core p t)
  unfolding get_result
  result-touched mem a w t small positive fits in_r0 kept =
      >>=-Returns Q (core.read_core_reg 0) inspect t (λ v t1 e.
        by_match v t1 (thumb.r0_read v t t1 e ∙ in_r0)
          (ap (λ q. q.memory) (thumb.reg_read 0 v t t1 e) ∙ kept) (matches mem w a small))
    where
      Q : Option ℕ → core.State → Type 0
      Q found _ = found ≡ first_touched mem a (bytes_in w)

      finish : ℕ → ℕ → core.State → Result (Option ℕ) × core.State
      finish addr word = lift (expect_touched core p addr (position (to_le_bytes word)))

      inspect : ℕ → core.State → Result (Option ℕ) × core.State
      inspect addr = if addr == 0 then pure none else (core.read_word_32 addr >>= finish addr)

      by_match :
          (v : ℕ) (t1 : core.State)
          → v ≡ measured mem a w
          → (view t1).memory ≡ mem
          → Matches mem a w
          → Returns Q (inspect v t1)
      by_match v t1 is same (inl (untouched, zero_word)) = rw (is, zero_word) (sym untouched)
      by_match v t1 is same (inr (b, i, found, above, below, first, at, lt)) =
          let nonzero : (b == 0) ≡ false = ground arith in
          rw (is, found)
            (rw nonzero (
              >>=-Returns Q (core.read_word_32 b) (finish b) t1 (λ word t2 e.
                let (is_word, _) = thumb.word_read b word t1 t2 e in
                let pos : position (to_le_bytes word) ≡ some i =
                  ap (λ z. position (to_le_bytes z)) (is_word ∙ ap (λ m. word_at m b) same)
                  ∙ ap position (to_le_bytes-word_at mem b small)
                  ∙ at in
                subst (λ r. Returns Q (lift (expect_touched core p b r) t2)) (sym pos)
                  (rw (add_u32-fits p b i (omega arith)) (sym first)))))

module _ (core : Core) (view : core.State → Machine) (thumb : IsThumb core view) (p : Profile)
    (low w size : ℕ) (count : size ≡ 20 + 4 * w) (positive : 0 < low)
    (fits : low + size < u32_mod) where
  -- the bytes at the place of the code, read by the probe
  search-touched :
      (s : core.State)
      → Returns
          (λ found t. (found ≡ first_touched (view s).memory low 20) × (view t ≡ view s))
          (search_with_probe core p low s)
  unfolding search_with_probe
  search-touched s =
      >>=-Returns Q (core.read_8 low 20) (λ buf. lift (touched_at core p low (position buf))) s
        (λ buf t e.
          let (is, same) = thumb.bytes_read low 20 buf s t e in
          rw (is, touched_at-first core p (view s).memory low 20 (omega arith)) (refl, same))
    where
      Q : Option ℕ → core.State → Type 0
      Q found t = (found ≡ first_touched (view s).memory low 20) × (view t ≡ view s)

  -- the run of the code searches what is behind it
  run-measured :
      (before after : Machine)
      → Ran low size measure_code before after
      → (after.r0 ≡ measured (write_bytes low measure_code before.memory) (low + 20) w)
        × (after.memory ≡ write_bytes low measure_code before.memory)
  run-measured before after (n, m, pc, ran, left) =
      let mem = write_bytes low measure_code before.memory in
      let (m', done, in_r0, kept) =
        measure_code-measure_fn low (low + size) canary_u32 (omega arith) mem
          (λ k small. write_bytes-inside low measure_code before.memory k small) (suc w) (low + 20)
          before.r3 before.carry_flag before.zero_flag (measured mem (low + 20) w)
          (measure_fn-measured w (low + 20) (low + size) mem (omega arith) fits) in
      let same : m ≡ m' = run_unique n (steps (suc w)) _ m m' ran done in
      (
        ap (λ q. q.r0) left ∙ ap (λ q. q.r0) same ∙ in_r0,
        ap (λ q. q.memory) left ∙ ap (λ q. q.memory) same ∙ kept,
      )

  whole : (mem : ℕ → ℕ) → first_touched mem low (more 20 (bytes_in w)) ≡ first_touched mem low size
  whole mem =
      let total : more 20 (bytes_in w) ≡ size =
        omega (arith, count, more_lem 20 (bytes_in w), bytes_in_lem w) in
      ap (first_touched mem low) total

  -- the two searches together are one of the whole range
  behind-touched :
      (mem : ℕ → ℕ)
      → first_touched mem low 20 ≡ none
      → first_touched (write_bytes low measure_code mem) (low + 20) (bytes_in w)
        ≡ first_touched mem low size
  behind-touched mem none_here =
      first_touched-same (bytes_in w) (low + 20) (write_bytes low measure_code mem) mem
        (λ x above. write_bytes-outside low measure_code mem x (inr above))
      ∙ sym (first_touched-more mem 20 (bytes_in w) low none_here)
      ∙ whole mem

  -- On a core that carries out the instructions of the machine code, a measurement that succeeds finds
  -- the lowest byte of the whole range that is not the pattern, or that there is none: for a range of
  -- 20 bytes and `w` words that does not start at 0 and ends within 32-bit addresses, and a memory
  -- of bytes.
  pub measure-touched :
      (s s' : core.State) (found : Option ℕ)
      → IsMemory (view s).memory
      → measure core p low size s ≡ (ok found, s')
      → found ≡ first_touched (view s).memory low size
  unfolding measure run_measure
  measure-touched s s' found small h = Returns-elim Q (measure core p low size s) h (
      >>=-Returns Q (search_with_probe core p low) (run_measure core p low size) s (λ r t e.
        by_probe r t
          (Returns-elim
            (λ found t. (found ≡ first_touched (view s).memory low 20) × (view t ≡ view s)) _ e
            (search-touched s)).0
          (Returns-elim
            (λ found t. (found ≡ first_touched (view s).memory low 20) × (view t ≡ view s)) _ e
            (search-touched s)).1))
    where
      mem : ℕ → ℕ
      mem = (view s).memory

      Q : Option ℕ → core.State → Type 0
      Q found _ = found ≡ first_touched mem low size

      by_probe :
          (r : Option ℕ) (t : core.State)
          → r ≡ first_touched mem low 20
          → view t ≡ view s
          → Returns Q (run_measure core p low size r t)
      by_probe (some x) t is same =
          sym (first_touched-hit mem 20 (bytes_in w) low x (sym is)) ∙ whole mem
      by_probe none t is same =
          >>=-Returns Q (execute_subroutine core p low size measure_code) (λ _. get_result core p) t
            (λ _ u e.
              let (in_r0, kept) = run-measured (view s) (view u) (
                subst (λ v. Ran low size measure_code v (view u)) same
                  (Returns-elim (λ _ v. Ran low size measure_code (view t) (view v)) _ e
                    (execute-Ran core view thumb p low size measure_code t (omega arith)
                      (omega arith)))) in
              subst (λ z. Returns (λ found _. found ≡ z) (get_result core p u))
                (behind-touched mem (sym is))
                (result-touched core view thumb p (write_bytes low measure_code mem) (low + 20) w u
                  (write_bytes-IsMemory low measure_code mem (omega arith) small) (omega arith)
                  (omega (arith, bytes_in_lem w)) in_r0 kept))
