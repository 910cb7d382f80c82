-- ===== src/TargetInfo/Compat.antt =====
-- `check_processor_target_compatability` of src/target_info.rs, with the warning that it logs as its
-- result.
pub mod Laws
use probe_run.Base.{
  ◌≡◌, ◌↔◌, ◌⊎◌, inl, inr, refl, ap, Bool, true, false, ◌||◌, Option, none, some, List, [], ◌∷◌,
  any, if◌then◌else◌, Bool-cases, sym, ◌∙◌,
}
use probe_run.Base.Text.{Str, str, str_eq, starts_with}
use probe_run.Result.{Result, ok, panic, unreachable, ◌>>=◌}
use probe_run.Dep.StdPath.{StdPath, Component, normal, root_dir, cur_dir, parent_dir}

-- `probe_rs::CoreType`
pub data CoreType : Type 0 where
  armv6m armv7a armv7m armv7em armv8a armv8m riscv : CoreType

pub data Warning : Type 0 where
  unsupported : CoreType → Warning
  mismatch : (target : Str) → CoreType → (recommendation : Str) → Warning

-- a component as lossy text
abbrev pub to_string_lossy : Component → Str
to_string_lossy root_dir = str "/"
to_string_lossy cur_dir = str "."
to_string_lossy parent_dir = str ".."
to_string_lossy (normal s) = s.lossy

-- the first component that starts with `thumbv`
unfoldable pub find_target : StdPath → Option Str
find_target [] = none
find_target (c ∷ rest) =
    let later = find_target rest in
    if starts_with (str "thumbv") (to_string_lossy c) then some (to_string_lossy c) else later

-- what the test of the match accepts, or `none` where it returns early
abbrev pub targets_of : CoreType → Option (List Str)
targets_of armv6m = some (str "thumbv6m-none-eabi" ∷ [])
targets_of armv7m = some (str "thumbv7m-none-eabi" ∷ [])
targets_of armv7em = some (str "thumbv7em-none-eabi" ∷ str "thumbv7em-none-eabihf" ∷ [])
targets_of armv8m = some (
    str "thumbv8m.base-none-eabi"
    ∷ str "thumbv8m.main-none-eabi"
    ∷ str "thumbv8m.main-none-eabihf"
    ∷ [])
targets_of _ = none

abbrev pub recommendation : CoreType → Result Str
recommendation armv6m = ok (str "must be 'thumbv6m-none-eabi'")
recommendation armv7m = ok (str "should be 'thumbv7m-none-eabi'")
recommendation armv7em =
    ok (str "should be 'thumbv7em-none-eabi' (no FPU) or 'thumbv7em-none-eabihf' (with FPU)")
recommendation armv8m = ok (
    str
      "should be 'thumbv8m.base-none-eabi' (M23), 'thumbv8m.main-none-eabi' (M33 no FPU), or 'thumbv8m.main-none-eabihf' (M33 with FPU)")
recommendation armv7a = panic unreachable
recommendation armv8a = panic unreachable
recommendation riscv = panic unreachable

-- the architectures that the match returns early for
abbrev pub unmatched : CoreType → Option Warning
unmatched riscv = none
unmatched core_type = some (unsupported core_type)

unfoldable pub compare : Str → CoreType → Option (List Str) → Result (Option Warning)
compare target core_type none = ok (unmatched core_type)
compare target core_type (some targets) =
    if any (str_eq target) targets
    then ok none
    else (do advice ← recommendation core_type; ok (some (mismatch target core_type advice)))

unfoldable pub check_processor_target_compatability : CoreType → StdPath → Result (Option Warning)
unfolding find_target compare
check_processor_target_compatability core_type elf_path = elim (find_target elf_path) [
  | none ↦ ok none
  | some target ↦ compare target core_type (targets_of core_type)
]
