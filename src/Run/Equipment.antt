-- ===== src/Run/Equipment.antt =====
-- What `run_target_program` of src/main.rs calls of probe-rs, of the file system and of the logger, in
-- front of the attached core. All of it acts on one state with the core, and is a parameter.
use probe_run.Base.{ℕ, Bool, List}
use probe_run.Base.Text.{Str}
use probe_run.Result.{Result}
use probe_run.Exec.{Exec}
use probe_run.Core.{Core}
use probe_run.Probe.{DebugProbeInfo}
use probe_run.TargetInfo.{MemoryRegion}
use probe_run.TargetInfo.Compat.{CoreType}
use probe_run.Dep.StdPath.{StdPath}
use probe_run.Elf.Parse.{Crates}
use probe_run.Run.Logger.{TimestampWarning}

-- `probe_rs::Target`: the type of its first core, and its memory map
pub record Target : Type 0 where
  pub core_type : CoreType
  pub memory_map : List MemoryRegion

-- `flashing::DownloadOptions`
pub record DownloadOptions : Type 0 where
  pub dry_run : Bool
  pub disable_double_buffering : Bool
  pub verify : Bool

pub record Setup (core : Core) : Type 1 where
  pub exists : StdPath → core.State → Bool
  -- opens the file, and adds the chips that it describes
  pub add_target_from_yaml : StdPath → Exec core.State (Unit {0})
  pub get_target_by_name : Str → Exec core.State Target
  pub Probe : Type 0
  pub list_all : core.State → List DebugProbeInfo
  pub open_info : DebugProbeInfo → Result Probe
  pub set_speed : Probe → ℕ → Result Probe
  -- with the permission to erase all, or without
  pub attach : Probe → Target → (allow_erase_all : Bool) → Exec core.State (Unit {0})
  pub attach_under_reset : Probe → Target → (allow_erase_all : Bool) → Exec core.State (Unit {0})
  pub erase_all : Exec core.State (Unit {0})
  pub download : StdPath → DownloadOptions → Exec core.State (Unit {0})
  -- the memory map of the session's target
  pub session_memory_map : core.State → List MemoryRegion
  pub session_core : ℕ → Exec core.State (Unit {0})
  -- reads the file, for the crates that parse it
  pub read_file : StdPath → Exec core.State Crates
  -- installs the logger with a filter on the records (whether one is a defmt frame, its target and
  -- its level), and returns whether the log format has a timestamp
  pub init_logger :
      (log_format host_log_format : Str)
      → (json : Bool) → (Bool → Str → ℕ → Bool)
      → core.State
      → Bool × core.State
  pub warn_of_timestamp : TimestampWarning → core.State → core.State
