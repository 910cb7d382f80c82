-- ===== src/Canary/Float.antt =====
-- The floating-point arithmetic that src/canary.rs relies on, and its comparison of a percentage.
use probe_run.Base.{
  ℕ, suc, ◌+◌, ◌*◌, ◌≤◌, ◌<◌, ◌≡◌, ◌⊎◌, inl, inr, Bool, true, false, arith, Bool-cases, ltb,
}
use probe_run.U32.{u32_mod}
use probe_run.Canary.{F64, is_overflow_likely, kib}

-- What IEEE 754 gives for a few operations on 32-bit integers. `Near x p q k`: `x` is the fraction p/q
-- but for `k` roundings, each of which is off by 1 in 2^53 at most. Integers are exact; a product or
-- a quotient is rounded once. Two fractions are compared rightly if they differ and their distance
-- is more than the roundings: in the whole numbers p t and r q, of which the latter is below 2^49,
-- four roundings are less than 1.
pub record IsRounded (f64 : F64) : Type 1 where
  pub Near : f64.Carrier → (p q k : ℕ) → Type 0
  pub integer : (n : ℕ) → n < u32_mod → Near (f64.from_u32 n) n 1 0
  pub quotient :
      (x y : f64.Carrier) (p q j r t k : ℕ)
      → Near x p q j
      → Near y r t k
      → 0 < r
      → j + k < 4
      → Near (f64.div x y) (p * t) (q * r) (suc (j + k))
  pub product :
      (x y : f64.Carrier) (p q j r t k : ℕ)
      → Near x p q j
      → Near y r t k
      → j + k < 4
      → Near (f64.mul x y) (p * r) (q * t) (suc (j + k))
  pub above :
      (x y : f64.Carrier) (p q j r t k : ℕ)
      → Near x p q j
      → Near y r t k
      → j + k ≤ 4
      → r * q < 0x2_0000_0000_0000
      → r * q < p * t
      → f64.gt x y ≡ true
  pub below :
      (x y : f64.Carrier) (p q j r t k : ℕ)
      → Near x p q j
      → Near y r t k
      → j + k ≤ 4
      → r * q < 0x2_0000_0000_0000
      → p * t < r * q
      → f64.gt x y ≡ false

-- A judgement by nine tenths of a size; just at nine tenths it may be either.
abbrev pub IsVerdict : (used size : ℕ) → Bool → Type 0
IsVerdict used size likely =
    ((9 * size < 10 * used) × (likely ≡ true))
    ⊎ (((10 * used < 9 * size) × (likely ≡ false)) ⊎ (10 * used ≡ 9 * size))

module _ (f64 : F64) (rounded : IsRounded f64) where
  kib-Near : (n : ℕ) → n < u32_mod → rounded.Near (kib f64 n) (n * 1) (1 * 1024) 1
  kib-Near n small =
      rounded.quotient (f64.from_u32 n) (f64.from_u32 1024) n 1 0 1024 1 0 (rounded.integer n small)
        (rounded.integer 1024 (omega arith)) (omega arith) (omega arith)

  abbrev percentage : (used size : ℕ) → f64.Carrier
  percentage used size = f64.mul (f64.div (kib f64 used) (kib f64 size)) (f64.from_u32 100)

  percentage-Near :
      (used size : ℕ)
      → used < u32_mod
      → 0 < size
      → size < u32_mod
      → rounded.Near
          (percentage used size)
          (used * 1 * (1 * 1024) * 100)
          (1 * 1024 * (size * 1) * 1)
          4
  percentage-Near used size used_small pos small =
      rounded.product (f64.div (kib f64 used) (kib f64 size)) (f64.from_u32 100)
        (used * 1 * (1 * 1024)) (1 * 1024 * (size * 1)) 3 100 1 0
        (rounded.quotient (kib f64 used) (kib f64 size) (used * 1) (1 * 1024) 1 (size * 1)
          (1 * 1024) 1 (kib-Near used used_small) (kib-Near size small) (omega arith) (omega arith))
        (rounded.integer 100 (omega arith)) (omega arith)

  pub is_overflow_likely-IsVerdict :
      (used size : ℕ)
      → used < u32_mod
      → 0 < size
      → size < u32_mod
      → IsVerdict used size (is_overflow_likely f64 used (kib f64 size))
  unfolding is_overflow_likely
  is_overflow_likely-IsVerdict used size used_small pos small =
      let near = percentage-Near used size used_small pos small in
      let ninety = rounded.integer 90 (omega arith) in
      elim (Bool-cases (ltb (9 * size) (10 * used))) [
        | inl over ↦ inl (
          ground arith,
          rounded.above _ _ _ _ 4 90 1 0 near ninety (omega arith) (omega arith) (ground arith),
        )
        | inr not_over ↦ elim (Bool-cases (ltb (10 * used) (9 * size))) [
          | inl under ↦ inr (
              inl (
                ground arith,
                rounded.below _ _ _ _ 4 90 1 0 near ninety (omega arith) (omega arith)
                    (ground arith),
              ))
          | inr same ↦ inr (inr (ground arith))
        ]
      ]
