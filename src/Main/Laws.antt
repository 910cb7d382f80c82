-- ===== src/Main/Laws.antt =====
-- What `main` of src/main.rs does where a helper option is given.
use probe_run.Base.{ℕ, List, ◌≡◌, Bool, true, false, ◌||◌, Option, some}
use probe_run.Base.Text.{Str}
use probe_run.Result.{Result}
use probe_run.Core.{Core}
use probe_run.Cli
use probe_run.Probe.{ProbeLine}
use probe_run.Cli.{Command}
use probe_run.Cli.Options.{Opts}
use probe_run.Cli.Output.{print_version}
use probe_run.Logs.Host.{Host}
use probe_run.Run.Equipment.{Setup}
use probe_run.Run.{Env}
use probe_run.Main.{Terminal, configure_terminal_colorization, warn_if, exit_success}

-- one of the helper commands is asked for
abbrev pub asks_for_help : Opts → Bool
asks_for_help opts = opts.version || (opts.list_probes || opts.list_chips)

-- The command for the helper options: the version first, then the probes, then the chips.
pub data IsHelper (opts : Opts) : Command → Type 0 where
  version : opts.version ≡ true → IsHelper opts Command.print_version
  probes : opts.version ≡ false → opts.list_probes ≡ true → IsHelper opts Command.print_probes
  chips :
      opts.version ≡ false
      → opts.list_probes ≡ false
      → opts.list_chips ≡ true
      → IsHelper opts Command.print_chips

-- What the terminal does keeps a property of the state, such as one of the device.
pub record Keeps {core : Core} (terminal : Terminal core) (P : core.State → Type 0) : Type 0 where
  pub deprecated : (s : core.State) → P s → P (terminal.deprecated s)
  pub set_override : (b : Bool) (s : core.State) → P s → P (terminal.set_override b s)
  pub warn : (s : core.State) → P s → P (terminal.warn_of_measure_stack s)
  pub families : (s : core.State) → P s → P (terminal.families s).1
  pub print_lines : (lines : List Str) (s : core.State) → P s → P (terminal.print_lines lines s)
  pub print_probes :
      (lines : List ProbeLine) (s : core.State) → P s → P (terminal.print_probes lines s)

abbrev pub IsSuccess : Option ℕ → Type 0
IsSuccess code = code ≡ some exit_success

module _ {core : Core} (host : Host core) (setup : Setup core) (env : Env core host)
    (terminal : Terminal core) (opts : Opts) where
  -- the state when the command is carried out: the two warnings are given and the colours are set
  abbrev pub ready : core.State → core.State
  ready s =
      warn_if host setup env terminal opts.measure_stack
        (configure_terminal_colorization host setup env terminal (terminal.deprecated s))
