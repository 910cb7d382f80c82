-- ===== src/Canary/Thumb.antt =====
-- The machine that the two subroutines of src/canary.rs run on: the instructions that stand beside
-- their bytes in the source, as the Armv6-M Thumb instruction set encodes and carries them out.
-- Addresses and registers are 32-bit words, and the memory is a function from addresses to bytes.
pub mod Step
pub mod Paint
pub mod Measure
pub mod Target
pub mod Painted
pub mod Measured
pub mod Listing
use probe_run.Base.{
  ℕ, zero, suc, ◌+◌, ◌-◌, ◌*◌, ◌/◌, ◌%◌, Bool, not, ◌&&◌, Option, none, some, List, [], ◌∷◌, ltb,
  leb, ◌==◌, if◌then◌else◌,
}
use probe_run.U32.{u32_mod}
use probe_run.Canary.Subroutine.{to_le_bytes}
use probe_run.Canary.Subroutine.Words.{word_at}

pub data Register : Type 0 where
  r0 r1 r2 r3 : Register

-- unsigned higher, carry set, and not equal
pub data Condition : Type 0 where
  hi cs ne : Condition

-- The offset of a branch is relative to the instruction, as in the listings of the source, and a
-- negative one wraps.
pub data Instruction : Type 0 where
  cmp : (first second : Register) → Instruction
  branch_if : Condition → (offset : ℕ) → Instruction
  branch : (offset : ℕ) → Instruction
  stmia : (address value : Register) → Instruction
  ldr : (target address : Register) → Instruction
  adds : (target source : Register) → ℕ → Instruction
  movs : (target : Register) → ℕ → Instruction
  bkpt : Instruction

-- the registers in use, two of the condition flags, and the memory
pub record Machine : Type 0 where
  pub r0 : ℕ
  pub r1 : ℕ
  pub r2 : ℕ
  pub r3 : ℕ
  pub pc : ℕ
  pub carry_flag : Bool
  pub zero_flag : Bool
  pub memory : ℕ → ℕ

abbrev register : ℕ → Option Register
register n =
    if n == 0
    then some Register.r0
    else if n == 1
    then some Register.r1
    else if n == 2
    then some Register.r2
    else if n == 3
    then some Register.r3
    else none

-- a list of one register, as `stmia` has it
abbrev single_register : ℕ → Option Register
single_register n =
    if n == 1
    then some Register.r0
    else if n == 2
    then some Register.r1
    else if n == 4
    then some Register.r2
    else if n == 8
    then some Register.r3
    else none

abbrev condition : ℕ → Option Condition
condition n =
    if n == 1 then some ne else if n == 2 then some cs else if n == 8 then some hi else none

abbrev wrap : ℕ → ℕ
wrap a = a % u32_mod

-- The offset that a branch encodes by half its distance from the address four bytes behind it, a
-- signed number with `limit` values.
abbrev offset_of : (limit : ℕ) → ℕ → ℕ
offset_of limit n = wrap (4 + (if ltb (2 * n) limit then 2 * n else u32_mod + 2 * n - 2 * limit))

abbrev with_one : {A : Type 0} → (A → Instruction) → Option A → Option Instruction
with_one f none = none
with_one f (some a) = some (f a)

abbrev with_two : {A B : Type 0} → (A → B → Instruction) → Option A → Option B → Option Instruction
with_two f (some a) (some b) = some (f a b)
with_two f _ _ = none

-- the instruction that a halfword encodes, of those that the subroutines consist of
unfoldable pub decode : ℕ → Option Instruction
decode w =
    if w / 64 == 0b01000_01010
    then with_two cmp (register (w % 8)) (register (w / 8 % 8))
    else if w / 4096 == 0b1101
    then with_one (λ c. branch_if c (offset_of 256 (w % 256))) (condition (w / 256 % 16))
    else if w / 2048 == 0b11100
    then some (branch (offset_of 2048 (w % 2048)))
    else if w / 2048 == 0b11000
    then with_two stmia (register (w / 256 % 8)) (single_register (w % 256))
    else if w / 64 == 0b01101_00000
    then with_two ldr (register (w % 8)) (register (w / 8 % 8))
    else if w / 512 == 0b0001110
    then with_two (λ d n. adds d n (w / 64 % 8)) (register (w % 8)) (register (w / 8 % 8))
    else if w / 2048 == 0b00100
    then with_one (λ d. movs d (w % 256)) (register (w / 256 % 8))
    else if w / 256 == 0b10111110
    then some bkpt
    else none

abbrev read : Machine → Register → ℕ
read m r0 = m.r0
read m r1 = m.r1
read m r2 = m.r2
read m r3 = m.r3

abbrev write : Register → ℕ → Machine → Machine
write r0 v m = record m { r0 = v }
write r1 v m = record m { r1 = v }
write r2 v m = record m { r2 = v }
write r3 v m = record m { r3 = v }

-- bytes written to successive addresses
abbrev pub write_bytes : ℕ → List ℕ → (ℕ → ℕ) → ℕ → ℕ
write_bytes a [] memory x = memory x
write_bytes a (b ∷ rest) memory x = if x == a then b else write_bytes (a + 1) rest memory x

unfoldable pub write_word : ℕ → ℕ → (ℕ → ℕ) → ℕ → ℕ
unfolding to_le_bytes
write_word a w memory = write_bytes a (to_le_bytes w) memory

abbrev next : Machine → Machine
next m = record m { pc = wrap (m.pc + 2) }

abbrev jump : ℕ → Machine → Machine
jump offset m = record m { pc = wrap (m.pc + offset) }

abbrev holds : Condition → Machine → Bool
holds hi m = m.carry_flag && not m.zero_flag
holds cs m = m.carry_flag
holds ne m = not m.zero_flag

unfoldable pub execute : Instruction → Machine → Machine
unfolding write_word
execute (cmp first second) m = next (record m {
  carry_flag = leb (read m second) (read m first);
  zero_flag = read m first == read m second;
})
execute (branch_if c offset) m = if holds c m then jump offset m else next m
execute (branch offset) m = jump offset m
execute (stmia address value) m = next (
    write address (wrap (read m address + 4))
      (record m { memory = write_word (read m address) (read m value) m.memory }))
execute (ldr target address) m = next (write target (word_at m.memory (read m address)) m)
execute (adds target source n) m =
    let sum = read m source + n in
    next (
      write target (wrap sum)
        (record m { carry_flag = leb u32_mod sum; zero_flag = wrap sum == 0 }))
execute (movs target n) m = next (write target n (record m { zero_flag = n == 0 }))
execute bkpt m = m

abbrev halfword_at : (ℕ → ℕ) → ℕ → ℕ
halfword_at memory a = memory a + memory (a + 1) * 256

-- Instructions are carried out up to a breakpoint. `none` if the fuel ran out, or at a halfword that
-- is no such instruction.
unfoldable pub run : ℕ → Machine → Option Machine
unfolding decode execute
run zero m = none
run (suc n) m = elim (decode (halfword_at m.memory m.pc)) [
  | none ↦ none
  | some bkpt ↦ some m
  | some i ↦ run n (execute i m)
]
