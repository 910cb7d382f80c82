-- ===== src/Canary/Thumb/Paint.antt =====
-- The machine code of `paint_subroutine` in src/canary.rs carries out the Rust function that stands
-- above it.
mod Round
use mathlib.Core.Option.{some-injective}
use probe_run.Base.{
  ℕ, zero, suc, ◌+◌, ◌-◌, ◌*◌, ◌⊎◌, ltb, ◌%◌, ◌≤◌, ◌<◌, ◌≡◌, refl, ap, ◌∙◌, Option, none, some,
  Bool, true, false, leb, ◌==◌, ◌&&◌, not, arith, Bool-cases, inl, inr,
}
use probe_run.U32.{u32_mod}
use probe_run.Canary.Subroutine.{canary_u8, canary_u32, to_le_bytes, paint_code}
use probe_run.Canary.Thumb.{
  Machine, r0, r1, r2, hi, cmp, branch_if, branch, stmia, bkpt, run, write_word, decode, execute,
}
use probe_run.Canary.Thumb.Step.{
  Loaded, machine, run-step, run-pc, write_word-Loaded, write_bytes-outside,
}
use Round.{more, done}

-- The Rust function, with a number of rounds as its fuel.
unfoldable pub paint_fn : ℕ → (low_addr high_addr pattern : ℕ) → (ℕ → ℕ) → Option (ℕ → ℕ)
paint_fn zero low_addr high_addr pattern memory = none
paint_fn (suc n) low_addr high_addr pattern memory = elim (leb low_addr high_addr) [
  | true ↦
      paint_fn n ((low_addr + 4) % u32_mod) high_addr pattern (write_word low_addr pattern memory)
  | false ↦ some memory
]

paint_fn-more :
    (n a b p : ℕ) (memory : ℕ → ℕ)
    → leb a b ≡ true
    → paint_fn (suc n) a b p memory ≡ paint_fn n ((a + 4) % u32_mod) b p (write_word a p memory)
unfolding paint_fn
paint_fn-more n a b p memory h = rw (h, paint_fn) refl

-- four instructions to a round
abbrev pub steps : ℕ → ℕ
steps zero = 3
steps (suc n) = suc (suc (suc (suc (steps n))))

steps_lem : (n : ℕ) → steps n ≡ 4 * n + 3
steps_lem zero = refl
steps_lem (suc n) = omega (arith, steps_lem n)

module _ (base b p x : ℕ) (fits : base + 12 < u32_mod) (end : b + 4 < u32_mod) where
  -- The machine code carries out the Rust function: where that ends, the code stops at its breakpoint,
  -- with the memory that the function leaves.
  pub paint_code-paint_fn :
      (n a : ℕ) (c z : Bool) (memory memory' : ℕ → ℕ)
      → Loaded base paint_code memory
      → base + 12 ≤ a
      → paint_fn n a b p memory ≡ some memory'
      → (a' : ℕ) × (run (steps n) (machine a b p x base c z memory)
          ≡ some (machine a' b p x (base + 8) true false memory'))
  unfolding paint_fn
  paint_code-paint_fn zero a c z memory memory' loaded behind h = cc
  paint_code-paint_fn (suc n) a c z memory memory' loaded behind h = elim (Bool-cases (leb a b)) [
    | inl e ↦
        let up : (a + 4) % u32_mod ≡ a + 4 = ground arith in
        let (a', ran) =
          paint_code-paint_fn n ((a + 4) % u32_mod) (leb b a) (a == b) (write_word a p memory)
            memory' (write_word-Loaded base paint_code a p memory behind loaded) (omega (arith, up))
            (rw (e, paint_fn) at h) in
        (a', more base b p x a memory fits loaded (steps n) c z (ground arith) behind ∙ ran)
    | inr e ↦
        let left : memory ≡ memory' = some-injective _ _ (rw (e, paint_fn) at h) in
        (
          a,
          done base b p x a memory fits loaded (suc (steps n)) c z (ground arith)
              ∙ ap (λ m. some (machine a b p x (base + 8) true false m)) left,
        )
  ]

word_painted :
    (a : ℕ) (memory : ℕ → ℕ) (x : ℕ)
    → a ≤ x
    → x < a + 4
    → write_word a canary_u32 memory x ≡ canary_u8
unfolding write_word to_le_bytes
word_painted a memory x above below = ground arith

-- The Rust function ends, and writes the pattern to the words from the first address up to and with
-- the one at the last address, and to no others.
pub paint_fn_lem :
    (w a b : ℕ) (memory : ℕ → ℕ)
    → a + 4 * w ≡ b + 4
    → b + 4 < u32_mod
    → (memory' : ℕ → ℕ) × (paint_fn (suc w) a b canary_u32 memory ≡ some memory')
      × ((x : ℕ) → a ≤ x → x < b + 4 → memory' x ≡ canary_u8)
      × ((x : ℕ) → (x < a) ⊎ (b + 4 ≤ x) → memory' x ≡ memory x)
unfolding paint_fn write_word to_le_bytes
paint_fn_lem zero a b memory count end =
    let stop : leb a b ≡ false = ground arith in
    (memory, rw (stop, paint_fn) refl, λ x above below. absurd (omega arith), λ x out. refl)
paint_fn_lem (suc w) a b memory count end =
    let go : leb a b ≡ true = ground arith in
    let up : (a + 4) % u32_mod ≡ a + 4 = omega arith in
    let (memory', ends, inside, outside) =
      paint_fn_lem w (a + 4) b (write_word a canary_u32 memory) (omega arith) end in
    (
      memory',
      paint_fn-more (suc w) a b canary_u32 memory go
          ∙ ap (λ q. paint_fn (suc w) q b canary_u32 (write_word a canary_u32 memory)) up
          ∙ ends,
      λ x above below. elim (Bool-cases (ltb x (a + 4))) [
        | inl here ↦ outside x (inl (ground arith)) ∙ word_painted a memory x above (ground arith)
        | inr later ↦ inside x (ground arith) below
      ],
      λ x out. elim out [
        | inl h ↦
            outside x (inl (omega arith))
            ∙ write_bytes-outside a (to_le_bytes canary_u32) memory x (inl h)
        | inr h ↦
            outside x (inr h)
            ∙ write_bytes-outside a (to_le_bytes canary_u32) memory x (inr (omega arith))
      ],
    )

-- If the machine code lies in the memory within 32-bit addresses, and the range lies behind it, is
-- one of words and ends, with the word at its last address, within 32-bit addresses, then the code comes
-- to its breakpoint within four instructions for each word of the range and seven more, with the
-- memory that the Rust function leaves: the pattern in the words from the first address up to and with the one
-- at the last address, and the rest as it was.
pub paint_code-IsPaint :
    (base a b w x : ℕ) (c z : Bool) (memory : ℕ → ℕ)
    → Loaded base paint_code memory
    → base + 12 ≤ a
    → a + 4 * w ≡ b + 4
    → b + 4 < u32_mod
    → (m : Machine) × (run (4 * w + 7) (machine a b canary_u32 x base c z memory) ≡ some m)
      × (paint_fn (w + 1) a b canary_u32 memory ≡ some m.memory)
      × ((y : ℕ) → a ≤ y → y < b + 4 → m.memory y ≡ canary_u8)
      × ((y : ℕ) → (y < a) ⊎ (b + 4 ≤ y) → m.memory y ≡ memory y)
paint_code-IsPaint base a b w x c z memory loaded behind count end =
    let (memory', ends, inside, outside) = paint_fn_lem w a b memory count end in
    let (a', ran) =
      paint_code-paint_fn base b canary_u32 x (omega arith) end (suc w) a c z memory memory' loaded
        behind ends in
    let instructions : 4 * w + 7 ≡ steps (suc w) = omega (arith, steps_lem w) in
    let rounds : w + 1 ≡ suc w = omega arith in
    (
      machine a' b canary_u32 x (base + 8) true false memory',
      ap (λ n. run n (machine a b canary_u32 x base c z memory)) instructions ∙ ran,
      ap (λ n. paint_fn n a b canary_u32 memory) rounds ∙ ends,
      inside,
      outside,
    )
