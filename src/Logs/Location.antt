-- ===== src/Logs/Location.antt =====
-- `location_info` and `forward_to_logger` of src/main.rs.
use probe_run.Base.{ℕ, ◌%◌, Bool, Option, none, some, if◌then◌else◌}
use probe_run.U32.{u32_mod}
use probe_run.Base.Text.{Str}
use probe_run.Base.Opt.{◌>>=◌}
use probe_run.Dep.StdPath.{StdPath, display}
use probe_run.Elf.Defmt.{Location, Locations, get}
use probe_run.Dep.Recognise.{from_std_path, format_short, format_highlight}

-- what `location_info` returns: the file, the line and the module path
abbrev pub Info : Type 0
Info = Option Str × Option ℕ × Option Str

-- `strip_prefix` takes the working directory off a path, if the path is below it.
module _ (bold dimmed : Str → Str) (strip_prefix : StdPath → Option StdPath)
    (shorten_paths : Bool) where
  unfoldable pub path_text : StdPath → Str
  path_text file = elim (strip_prefix file) [
    | some relpath ↦ display relpath
    | none ↦
        let dep_path = from_std_path file in
        if shorten_paths then format_short dep_path else format_highlight bold dimmed dep_path
  ]

  abbrev pub info_of : Option Location → Info
  info_of none = (none, none, none)
  info_of (some location) =
      (some (path_text location.file), some (location.line % u32_mod), some location.module_path)

  unfoldable pub location_info : (index : ℕ) → Option Locations → Info
  unfolding path_text
  location_info index locations = info_of (do table ← locations; get index table)
