-- ===== src/Cortexm.antt =====
-- src/cortexm.rs: Cortex-M constants and the Thumb bit of addresses.
pub mod Laws
use probe_run.Base.{ℕ, ◌-◌, Bool, ◌==◌}
use probe_run.Base.Bits.{bit_and, bit_or}
use probe_run.U32.{u32_max}

abbrev pub exc_return_marker : ℕ
exc_return_marker = 0xff00_0000

-- `1 << 4`
abbrev pub exc_return_ftype_mask : ℕ
exc_return_ftype_mask = 16

abbrev pub thumb_bit : ℕ
thumb_bit = 1

-- the bounds of `VALID_RAM_ADDRESS`, a half-open range
abbrev pub valid_ram_start : ℕ
valid_ram_start = 0x2000_0000

abbrev pub valid_ram_end : ℕ
valid_ram_end = 0x4000_0000

-- `!x` on 32 bits
abbrev pub not_u32 : ℕ → ℕ
not_u32 x = u32_max - x

unfoldable pub clear_thumb_bit : ℕ → ℕ
clear_thumb_bit addr = bit_and addr (not_u32 thumb_bit)

unfoldable pub is_thumb_bit_set : ℕ → Bool
is_thumb_bit_set addr = bit_and addr thumb_bit == thumb_bit

unfoldable pub set_thumb_bit : ℕ → ℕ
set_thumb_bit addr = bit_or addr thumb_bit

unfoldable pub subroutine_eq : ℕ → ℕ → Bool
subroutine_eq addr1 addr2 = bit_and addr1 (not_u32 thumb_bit) == bit_and addr2 (not_u32 thumb_bit)

pub record VectorTable : Type 0 where
  pub initial_stack_pointer : ℕ
  pub hard_fault : ℕ

unfoldable pub is_hard_fault : ℕ → VectorTable → Bool
unfolding subroutine_eq
is_hard_fault pc vector_table = subroutine_eq pc vector_table.hard_fault
