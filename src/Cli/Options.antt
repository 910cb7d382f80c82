-- ===== src/Cli/Options.antt =====
-- `Opts` of src/cli.rs, which `clap` fills. The arguments behind the path of the image are dropped.
use probe_run.Base.{ℕ, Bool, Option}
use probe_run.Base.Text.{Str}
use probe_run.Dep.StdPath.{StdPath}

pub record Opts : Type 0 where
  pub backtrace : Str
  pub backtrace_limit : ℕ
  pub chip : Option Str
  pub chip_description_path : Option StdPath
  pub connect_under_reset : Bool
  pub disable_double_buffering : Bool
  pub elf : Option StdPath
  pub erase_all : Bool
  pub json : Bool
  pub list_chips : Bool
  pub list_probes : Bool
  pub log_format : Option Str
  pub host_log_format : Option Str
  pub measure_stack : Bool
  pub no_flash : Bool
  pub probe : Option Str
  pub shorten_paths : Bool
  pub speed : Option ℕ
  pub verbose : ℕ
  pub verify : Bool
  pub version : Bool
