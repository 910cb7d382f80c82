-- ===== src/Canary/Thumb/Measure.antt =====
-- The machine code of `measure_subroutine` in src/canary.rs carries out the Rust function that stands
-- above it.
mod Round
use mathlib.Core.Option.{some-injective}
use probe_run.Base.{
  ℕ, zero, suc, ◌+◌, ◌-◌, ◌*◌, ◌%◌, ◌≤◌, ◌<◌, ◌≡◌, refl, ap, sym, ◌∙◌, Option, none, some, Bool,
  true, false, leb, ltb, ◌==◌, arith, Bool-cases, inl, inr,
}
use probe_run.U32.{u32_mod}
use probe_run.Canary.Subroutine.{measure_code, canary_u32}
use probe_run.Canary.Subroutine.Words.{word_at, measured}
use probe_run.Canary.Thumb.{
  r0, r1, r2, r3, cs, ne, cmp, branch_if, branch, ldr, adds, movs, bkpt, Machine, run, decode,
  execute,
}
use probe_run.Canary.Thumb.Step.{Loaded, machine, run-step, run-pc}
use Round.{ended, found, passed}

-- The Rust function, with a number of rounds as its fuel.
unfoldable pub measure_fn : ℕ → (low_addr high_addr pattern : ℕ) → (ℕ → ℕ) → Option ℕ
measure_fn zero low_addr high_addr pattern memory = none
measure_fn (suc n) low_addr high_addr pattern memory = elim (ltb low_addr high_addr) [
  | true ↦ elim (word_at memory low_addr == pattern) [
    | true ↦ measure_fn n ((low_addr + 4) % u32_mod) high_addr pattern memory
    | false ↦ some low_addr
  ]
  | false ↦ some 0
]

-- A run stops at the breakpoint, with a value in R0 and the memory as it was.
abbrev pub StopsWith : ℕ → (ℕ → ℕ) → Option Machine → Type 0
StopsWith result memory r = (m : Machine) × (r ≡ some m) × (m.r0 ≡ result) × (m.memory ≡ memory)

-- seven instructions to a round
abbrev pub steps : ℕ → ℕ
steps zero = 0
steps (suc n) = suc (suc (suc (suc (suc (suc (suc (steps n)))))))

steps_lem : (n : ℕ) → steps n ≡ 7 * n
steps_lem zero = refl
steps_lem (suc n) = omega (arith, steps_lem n)

module _ (base b p : ℕ) (fits : base + 20 < u32_mod) (memory : ℕ → ℕ)
    (loaded : Loaded base measure_code memory) where
  -- The machine code carries out the Rust function: where that ends, the code stops at its breakpoint
  -- with the function's result in R0, and has written nothing.
  pub measure_code-measure_fn :
      (n a x : ℕ) (c z : Bool) (result : ℕ)
      → measure_fn n a b p memory ≡ some result
      → StopsWith result memory (run (steps n) (machine a b p x base c z memory))
  unfolding measure_fn
  measure_code-measure_fn zero a x c z result h = cc
  measure_code-measure_fn (suc n) a x c z result h = elim (Bool-cases (ltb a b)) [
    | inl e ↦ elim (Bool-cases (word_at memory a == p)) [
      | inl same ↦
          let (m, ran, in_r0, kept) =
            measure_code-measure_fn n ((a + 4) % u32_mod) (word_at memory a) (leb u32_mod (a + 4))
              ((a + 4) % u32_mod == 0) result (rw (e, same, measure_fn) at h) in
          (
            m,
            passed base b p x a memory fits loaded (steps n) c z (ground arith) same ∙ ran,
            in_r0,
            kept,
          )
      | inr other ↦ (
        machine a b p (word_at memory a) (base + 16) (leb p (word_at memory a)) false memory,
        found base b p x a memory fits loaded (suc (steps n)) c z (ground arith) other,
        some-injective _ _ (rw (e, other, measure_fn) at h),
        refl,
      )
    ]
    | inr e ↦ (
      machine 0 b p x (base + 16) true true memory,
      ended base b p x a memory fits loaded (suc (suc (suc (steps n)))) c z (ground arith),
      some-injective _ _ (rw (e, measure_fn) at h),
      refl,
    )
  ]

measure_fn-more :
    (n a b p : ℕ) (memory : ℕ → ℕ)
    → ltb a b ≡ true
    → (word_at memory a == p) ≡ true
    → measure_fn (suc n) a b p memory ≡ measure_fn n ((a + 4) % u32_mod) b p memory
unfolding measure_fn
measure_fn-more n a b p memory h same = rw (h, same, measure_fn) refl

-- The Rust function ends with the first word of the range that is not the pattern, or with 0.
pub measure_fn-measured :
    (w a b : ℕ) (memory : ℕ → ℕ)
    → a + 4 * w ≡ b
    → b < u32_mod
    → measure_fn (suc w) a b canary_u32 memory ≡ some (measured memory a w)
unfolding measure_fn
measure_fn-measured zero a b memory count small =
    let stop : ltb a b ≡ false = ground arith in rw (stop, measure_fn) refl
measure_fn-measured (suc w) a b memory count small =
    let go : ltb a b ≡ true = ground arith in
    elim (Bool-cases (word_at memory a == canary_u32)) [
      | inl same ↦
          measure_fn-more (suc w) a b canary_u32 memory go same
          ∙ rw same (
              ap (λ q. measure_fn (suc w) q b canary_u32 memory) (omega arith)
              ∙ measure_fn-measured w (a + 4) b memory (omega arith) small)
      | inr other ↦ rw (go, other, measure_fn) refl
    ]

-- If the machine code lies in the memory within 32-bit addresses, and the range is one of words and ends
-- within 32-bit addresses, then the code comes to its breakpoint within seven instructions for each
-- word of the range and seven more, with the result of the Rust function in R0, which is the address of
-- the first word of the range that is not the pattern, or 0 if there is none; and it writes nothing.
pub measure_code-IsMeasure :
    (base a b w x : ℕ) (c z : Bool) (memory : ℕ → ℕ)
    → Loaded base measure_code memory
    → base + 20 < u32_mod
    → a + 4 * w ≡ b
    → b < u32_mod
    → (m : Machine) × (run (7 * w + 7) (machine a b canary_u32 x base c z memory) ≡ some m)
      × (measure_fn (w + 1) a b canary_u32 memory ≡ some m.r0)
      × (m.r0 ≡ measured memory a w)
      × (m.memory ≡ memory)
measure_code-IsMeasure base a b w x c z memory loaded placed count end =
    let ends = measure_fn-measured w a b memory count end in
    let (m, ran, in_r0, kept) =
      measure_code-measure_fn base b canary_u32 placed memory loaded (suc w) a x c z
        (measured memory a w) ends in
    let instructions : 7 * w + 7 ≡ steps (suc w) = omega (arith, steps_lem w) in
    let rounds : w + 1 ≡ suc w = omega arith in
    (
      m,
      ap (λ n. run n (machine a b canary_u32 x base c z memory)) instructions ∙ ran,
      ap (λ n. measure_fn n a b canary_u32 memory) rounds ∙ ends ∙ ap some (sym in_r0),
      in_r0,
      kept,
    )
