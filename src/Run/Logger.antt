-- ===== src/Run/Logger.antt =====
-- How `run_target_program` of src/main.rs sets up the logger.
use probe_run.Base.{ℕ, Bool, true, false, not, ◌&&◌, Option, none, some, ◌==◌, leb, if◌then◌else◌}
use probe_run.Base.Text.{Str, str, starts_with}
use probe_run.Cli.Options.{Opts}
use probe_run.Elf.Defmt.{Table}

abbrev pub default_log_format_with_timestamp : Str
default_log_format_with_timestamp = str "{t} {L} {s}\n└─ {m} @ {F}:{l}"

abbrev pub default_log_format_without_timestamp : Str
default_log_format_without_timestamp = str "{L} {s}\n└─ {m} @ {F}:{l}"

abbrev pub default_host_log_format : Str
default_host_log_format = str "(HOST) {L} {s}"

abbrev pub default_verbose_host_log_format : Str
default_verbose_host_log_format = str "(HOST) {L} {s}\n└─ {m} @ {F}:{l}"

abbrev pub is_timestamping_available : Option Table → Bool
is_timestamping_available none = false
is_timestamping_available (some table) = table.has_timestamp

unfoldable pub log_format : Opts → (timestamping : Bool) → Str
log_format opts timestamping = elim opts.log_format [
  | some format ↦ format
  | none ↦
      if timestamping
      then default_log_format_with_timestamp
      else default_log_format_without_timestamp
]

unfoldable pub host_log_format : Opts → Str
host_log_format opts = elim opts.host_log_format [
  | some format ↦ format
  | none ↦ if opts.verbose == 0 then default_host_log_format else default_verbose_host_log_format
]

-- `log::Level`, from 1 for errors up to 5
abbrev pub info : ℕ
info = 3

-- what the logger is to show: whether a record is a defmt frame, its target and its level
unfoldable pub is_shown :
    (verbose : ℕ) → (is_defmt_frame : Bool) → (target : Str) → (level : ℕ) → Bool
is_shown verbose is_defmt_frame target level =
    if is_defmt_frame
    then true
    else if verbose == 0
    then starts_with (str "probe_run") target && leb level info
    else if verbose == 1
    then starts_with (str "probe_run") target
    else true

pub data TimestampWarning : Type 0 where
  not_implemented not_in_format : TimestampWarning

unfoldable pub timestamp_warning : (in_format timestamping : Bool) → Option TimestampWarning
timestamp_warning in_format timestamping =
    if in_format && not timestamping
    then some not_implemented
    else if not in_format && timestamping
    then some not_in_format
    else none
