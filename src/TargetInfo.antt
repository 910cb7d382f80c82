-- ===== src/TargetInfo.antt =====
-- src/target_info.rs: the RAM region of the stack, and the part of it that no section uses.
pub mod Ram
pub mod Stack
pub mod Compat
use probe_run.Base.{
  ℕ, ◌+◌, Bool, true, false, ◌&&◌, Option, none, some, List, [], ◌∷◌, ltb, ◌==◌, in_range,
  in_closed, if◌then◌else◌,
}
use probe_run.Result.{Result, ok, ◌>>=◌}
use probe_run.U32.{Profile, add_u32, sub_u32, saturate_u32}
use probe_run.Elf.ObjectFile.{Section, ObjectFile}
use probe_run.Elf.Symbols.{expect_u32}

-- `probe_rs::config::RamRegion`: the bounds of a half-open range
pub record RamRegion : Type 0 where
  pub start : ℕ
  pub end : ℕ

-- `probe_rs::config::MemoryRegion`
pub data MemoryRegion : Type 0 where
  ram : RamRegion → MemoryRegion
  other : MemoryRegion

-- `range` is the closed range from `lowest` to `highest`
pub record StackInfo : Type 0 where
  pub lowest : ℕ
  pub highest : ℕ
  pub data_below_stack : Bool

unfoldable pub extract_active_ram_region : List MemoryRegion → ℕ → Option RamRegion
extract_active_ram_region [] initial_stack_pointer = none
extract_active_ram_region (ram region ∷ rest) initial_stack_pointer =
    if in_closed region.start region.end initial_stack_pointer
    then some region
    else extract_active_ram_region rest initial_stack_pointer
extract_active_ram_region (other ∷ rest) initial_stack_pointer =
    extract_active_ram_region rest initial_stack_pointer

-- The branches on a section that is not empty: `none` if no stack range can be determined, else
-- the new lower end.
unfoldable pub narrow : Profile → RamRegion → (first last : ℕ) → (lo hi : ℕ) → Result (Option ℕ)
narrow profile region first last lo hi =
    if in_range region.start region.end last
    then (if in_closed first last hi
        then ok none
        else if in_closed lo hi last
        then (do next ← add_u32 profile last 1; ok (some next))
        else ok (some lo))
    else ok (some lo)

-- one round of the loop over the sections
unfoldable pub visit : Profile → RamRegion → Section → (lo hi : ℕ) → Result (Option ℕ)
unfolding expect_u32
visit profile region section lo hi = do
  size ← expect_u32 section.size
  if size == 0 then ok (some lo) else do
    lowest_address ← expect_u32 section.address
    end ← add_u32 profile lowest_address size
    highest_address ← sub_u32 profile end 1
    narrow profile region lowest_address highest_address lo hi

unfoldable pub narrow_all : Profile → RamRegion → List Section → (lo hi : ℕ) → Result (Option ℕ)
narrow_all profile region [] lo hi = ok (some lo)
narrow_all profile region (section ∷ rest) lo hi = do
  next ← visit profile region section lo hi
  elim next [ none ↦ ok none | some lo' ↦ narrow_all profile region rest lo' hi ]

abbrev pub stack_info : RamRegion → ℕ → Option ℕ → Option StackInfo
stack_info region hi none = none
stack_info region hi (some lo) =
    some (record { lowest = lo; highest = hi; data_below_stack = ltb region.start lo })

unfoldable pub extract_stack_info :
    Profile → List Section → (initial_stack_pointer : ℕ) → RamRegion → Result (Option StackInfo)
extract_stack_info profile sections initial_stack_pointer region = do
  hi ← sub_u32 profile initial_stack_pointer 4
  lo ← narrow_all profile region sections (saturate_u32 region.start) hi
  ok (stack_info region hi lo)

pub record TargetInfo : Type 0 where
  pub active_ram_region : Option RamRegion
  pub memory_map : List MemoryRegion
  pub stack_info : Option StackInfo
  pub stack_start : ℕ

-- `probe_map` is the memory map of the probe's target, `memory_map` that of the session.
unfoldable pub new :
    Profile
    → List Section
    → (initial_stack_pointer : ℕ) → (memory_map probe_map : List MemoryRegion) → (stack_start : ℕ)
    → Result TargetInfo
new profile sections initial_stack_pointer memory_map probe_map stack_start =
    let region = extract_active_ram_region probe_map initial_stack_pointer in
    do
      info ← elim region [
        | none ↦ ok none
        | some r ↦ extract_stack_info profile sections initial_stack_pointer r
      ]
      ok (record {
        active_ram_region = region;
        memory_map = memory_map;
        stack_info = info;
        stack_start = stack_start;
      })
