-- ===== src/Cortexm/Laws.antt =====
-- The Thumb bit functions of src/cortexm.rs as arithmetic.
use probe_run.Base.{ℕ, ◌+◌, ◌-◌, ◌/◌, ◌%◌, ◌^◌, ◌<◌, ◌≡◌, ◌↔◌, true, arith, ◌==◌}
use probe_run.Base.Bits.{bit_and_even, bit_and-one, bit_or-one, bit_and_step, bit_and_ones, bit_and}
use probe_run.U32.{u32_mod}
use probe_run.Cortexm.{clear_thumb_bit, set_thumb_bit, is_thumb_bit_set, subroutine_eq}

pub clear_thumb_bit_lem : (a : ℕ) → a < u32_mod → clear_thumb_bit a ≡ a - a % 2
unfolding clear_thumb_bit
clear_thumb_bit_lem a h = bit_and_even a h

pub set_thumb_bit_lem : (a : ℕ) → set_thumb_bit a ≡ a + 1 - a % 2
unfolding set_thumb_bit
set_thumb_bit_lem a = bit_or-one a

pub is_thumb_bit_set_lem : (a : ℕ) → is_thumb_bit_set a ≡ (a % 2 == 1)
unfolding is_thumb_bit_set
is_thumb_bit_set_lem a = rw (bit_and-one a)

-- Two 32-bit addresses name the same subroutine exactly when they differ at most in the Thumb bit.
pub subroutine_eq_iff :
    (a b : ℕ) → a < u32_mod → b < u32_mod → (subroutine_eq a b ≡ true) ↔ (a / 2 ≡ b / 2)
unfolding subroutine_eq
subroutine_eq_iff a b ha hb = ground (arith, bit_and_even a ha, bit_and_even b hb)

-- The mask clears the lowest digit of the lowest 32, whatever stands above them.
bit_and_mask : (a : ℕ) → bit_and a (2 ^ 32 - 2) ≡ a % 2 ^ 32 - a % 2
bit_and_mask a = omega (arith, bit_and_step a (2 ^ 32 - 2), bit_and_ones 31 (a / 2))

pub subroutine_eq-clear : (a : ℕ) → subroutine_eq a (clear_thumb_bit a) ≡ true
unfolding subroutine_eq clear_thumb_bit
subroutine_eq-clear a = ground (arith, bit_and_mask a, bit_and_mask (bit_and a (2 ^ 32 - 2)))
