-- ===== src/Backtrace/Settings.antt =====
-- `Settings` and `BacktraceOptions` of src/backtrace/mod.rs.
use probe_run.Base.{ℕ, Bool, ◌||◌, ltb, if◌then◌else◌}
use probe_run.Base.Text.{Str, str, str_eq}
use probe_run.Cli.Options.{Opts}
use probe_run.Result.{Result, ok, panic, expectation, ◌>>=◌}

pub data BacktraceOptions : Type 0 where
  auto never always : BacktraceOptions

-- Any other text panics.
unfoldable pub from_text : Str → Result BacktraceOptions
from_text item =
    if str_eq item (str "auto") || str_eq item (str "Auto")
    then ok auto
    else if str_eq item (str "never") || str_eq item (str "Never")
    then ok never
    else if str_eq item (str "always") || str_eq item (str "Always")
    then ok always
    else panic expectation

-- without the working directory, which is used up when the frames are symbolicated
pub record Settings : Type 0 where
  pub backtrace_limit : ℕ
  pub backtrace : BacktraceOptions
  pub halted_due_to_signal : Bool
  pub include_addresses : Bool
  pub shorten_paths : Bool
  pub stack_overflow : Bool

unfoldable pub new :
    (halted_due_to_signal : Bool) → Opts → (stack_overflow : Bool) → Result Settings
unfolding from_text
new halted_due_to_signal opts stack_overflow = do
  backtrace ← from_text opts.backtrace
  ok (record {
    backtrace_limit = opts.backtrace_limit;
    backtrace = backtrace;
    halted_due_to_signal = halted_due_to_signal;
    include_addresses = ltb 0 opts.verbose;
    shorten_paths = opts.shorten_paths;
    stack_overflow = stack_overflow;
  })

abbrev pub panic_present : Settings → Bool
panic_present settings = settings.stack_overflow || settings.halted_due_to_signal
