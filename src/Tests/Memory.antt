-- ===== src/Tests/Memory.antt =====
-- The stack range, the registers, the stacked frame and the canary at concrete inputs.
use probe_run.Base.{ℕ, ◌+◌, ◌*◌, ◌<◌, ◌≤◌, ◌≡◌, refl, true, false, some, List, [], ◌∷◌, ltb, arith}
use probe_run.Base.Int.{pos, ◌+ℤ◌, as_u32}
use probe_run.Result.{ok}
use probe_run.U32.{dev, release, add_u32, sub_u32, add_offset}
use probe_run.Registers
use probe_run.Registers.{Registers, register_and_offset, offset, sp_reg, store}
use probe_run.Stacked
use probe_run.Stacked.{Stacked, from_words}
use probe_run.Stacked.Laws.{read_sound}
use probe_run.Elf.ObjectFile.{Section}
use probe_run.TargetInfo.{
  RamRegion, MemoryRegion, StackInfo, ram, other, extract_stack_info, extract_active_ram_region,
  narrow, narrow_all, visit,
}
use probe_run.TargetInfo.Stack.{IsStackRange, extract_stack_info_sound, extract_stack_info_total}
use probe_run.Canary.{F64}
use probe_run.Tests.Device.{Memory, memory_core, set, bytes_from}

abbrev region : RamRegion
region = record { start = 0x2000_0000; end = 0x2000_1000 }

abbrev regions : List MemoryRegion
regions = other ∷ ram (record { start = 0x1000_0000; end = 0x1000_0800 }) ∷ ram region ∷ []

abbrev section_at : ℕ → ℕ → Section
section_at address size = record { index = 1; address = address; size = size; bytes = ok [] }

-- `.data` and `.bss` at the start of the RAM, `.text` in flash, and an empty section
abbrev sections : List Section
sections =
    section_at 0x2000_0000 0x10
    ∷ section_at 0x400 0x900
    ∷ section_at 0x2000_0010 0x30
    ∷ section_at 0x2000_0040 0
    ∷ []

abbrev info : StackInfo
info = record { lowest = 0x2000_0040; highest = 0x2000_0ffc; data_below_stack = true }

picked : extract_active_ram_region regions 0x2000_1000 ≡ some region
unfolding extract_active_ram_region
picked = refl

found : extract_stack_info dev sections 0x2000_1000 region ≡ ok (some info)
unfolding extract_stack_info sub_u32 narrow_all visit add_u32 narrow
found = refl

extract_stack_info_sound_example : IsStackRange region sections 0x2000_1000 info
extract_stack_info_sound_example =
    extract_stack_info_sound dev region sections 0x2000_1000 info
      (omega arith, (omega arith, (omega arith, (omega arith, tt)))) (omega arith) (omega arith)
      found

extract_stack_info_total_example :
    (i : StackInfo) × (extract_stack_info dev sections 0x2000_1000 region ≡ ok (some i))
    × IsStackRange region sections 0x2000_1000 i
extract_stack_info_total_example =
    extract_stack_info_total dev region sections 0x2000_1000
      (omega arith, (omega arith, (omega arith, (omega arith, tt)))) (omega arith) (omega arith)
      (
        λ (a, b, c, d). omega arith,
        (
          λ (a, b, c, d). omega arith,
          (λ (a, b, c, d). omega arith, (λ (a, b, c, d). omega arith, tt)),
        ),
      )

abbrev memory : Memory
memory = record {
  words = set (set (λ a. 0xaaaa_aaaa) 0x2000_0014 0x605) 0x2000_0018 0x410;
  registers = set (λ r. 0) 0 0x2000_0014;
}

abbrev stacked : Stacked
stacked = record { lr = 0x605; pc = 0x410; contains_fpu_regs = false }

stacked-read :
    Stacked.read memory_core release 0x2000_0000 false 0x2000_0000 0x2000_1000 memory
    ≡ (ok (some stacked), memory)
unfolding Stacked.read add_u32
stacked-read = refl

read_sound_example :
    (start : ℕ) × (words : List ℕ) × (0x2000_0000 ≤ start)
    × (start + 8 < 0x2000_1000)
    × (memory_core.read_32 start 2 memory ≡ (ok words, memory))
    × (stacked ≡ from_words false words)
read_sound_example =
    read_sound memory_core release 0x2000_0000 false 0x2000_0000 0x2000_1000 memory memory stacked
      (omega arith) stacked-read

abbrev registers : Registers memory_core
registers = Registers.new {core = memory_core} 0x605 0x2000_0000 memory

abbrev with_r7 : Registers memory_core
with_r7 = record { cache = store registers.cache 7 0; device = memory }

r7_read : Registers.get 7 registers ≡ (ok 0, with_r7)
unfolding Registers.get Registers.new
r7_read = refl

abbrev with_cfa : Registers memory_core
with_cfa = record { cache = store registers.cache sp_reg 0x2000_0010; device = memory }

cfa_updated :
    Registers.update_cfa dev (register_and_offset sp_reg (pos 0x10)) registers ≡ (ok true, with_cfa)
unfolding Registers.update_cfa Registers.new add_offset ◌+ℤ◌ as_u32
cfa_updated = refl

sp_cached : registers.cache sp_reg ≡ some 0x2000_0000
unfolding Registers.new
sp_cached = refl

abbrev bytes : List ℕ
bytes = bytes_from memory 0x2000_0010 20

-- fractions in place of floating-point numbers
abbrev pub fractions : F64
fractions = record {
  Carrier = ℕ × ℕ;
  from_u32 = λ n. (n, 1);
  div = λ x y. (x.0 * y.1, x.1 * y.0);
  mul = λ x y. (x.0 * y.0, x.1 * y.1);
  gt = λ x y. ltb (y.0 * x.1) (x.0 * y.1);
}
