-- ===== src/Main.antt =====
-- src/main.rs: `main`, and the commands of src/cli.rs that it carries out. `clap` parses the arguments,
-- and ends the process itself where they do not fit.
pub mod Laws
use probe_run.Base.{ℕ, Bool, false, Option, none, some, List, if◌then◌else◌}
use probe_run.Base.Text.{Str, str, str_eq}
use probe_run.Result.{Result, ok, err, panic}
use probe_run.Exec.{Exec, pure, lift, ◌>>=◌, ◌>>◌}
use probe_run.Core.{Core}
use probe_run.Cli
use probe_run.Cli.{Command}
use probe_run.Cli.Options.{Opts}
use probe_run.Cli.Output.{ChipFamily, print_chips, print_version}
use probe_run.Probe
use probe_run.Probe.{ProbeLine}
use probe_run.Logs.Host.{Host}
use probe_run.Run.Equipment.{Setup}
use probe_run.Run.{Env, run_target_program}

-- The terminal and the environment of the process, and what is fixed when the program is built.
pub record Terminal (core : Core) : Type 0 where
  pub version : Str
  pub git_describe : Str
  pub defmt_versions : List Str
  -- `TERM`, if it is set to readable text
  pub term : core.State → Option Str
  pub set_override : Bool → core.State → core.State
  pub families : Exec core.State (List ChipFamily)
  pub print_lines : List Str → core.State → core.State
  pub print_probes : List ProbeLine → core.State → core.State
  -- the two warnings about deprecated things
  pub deprecated : core.State → core.State
  pub warn_of_measure_stack : core.State → core.State

abbrev pub exit_success : ℕ
exit_success = 0

module _ {core : Core} (host : Host core) (setup : Setup core) (env : Env core host)
    (terminal : Terminal core) where
  abbrev do_it : (core.State → core.State) → Exec core.State (Unit {0})
  do_it f s = (ok tt, f s)

  unfoldable pub configure_terminal_colorization : core.State → core.State
  configure_terminal_colorization s = elim (terminal.term s) [
    | none ↦ s
    | some term ↦ if str_eq term (str "dumb") then terminal.set_override false s else s
  ]

  abbrev pub warn_if : Bool → core.State → core.State
  warn_if measure_stack s = if measure_stack then terminal.warn_of_measure_stack s else s

  -- the registry of the chips, which `expect` may find missing
  abbrev pub listed_chips : Exec core.State (List Str)
  listed_chips s = let (r, t) = terminal.families s in (print_chips r, t)

  abbrev pub list_probes : Exec core.State (Unit {0})
  list_probes s = (ok tt, terminal.print_probes (Probe.print (setup.list_all s)) s)

  unfoldable pub carry_out : Opts → Command → Exec core.State (Option ℕ)
  carry_out opts Command.print_version = do
    lines ← lift (print_version terminal.version terminal.git_describe terminal.defmt_versions)
    do_it (terminal.print_lines lines)
    pure (some exit_success)
  carry_out opts Command.print_probes = list_probes >> pure (some exit_success)
  carry_out opts Command.print_chips = do
    lines ← listed_chips
    do_it (terminal.print_lines lines)
    pure (some exit_success)
  carry_out opts (Command.run_target_program elf chip) =
      run_target_program host setup env elf chip opts

  unfoldable pub handle_arguments : Opts → Exec core.State (Option ℕ)
  unfolding carry_out
  handle_arguments opts = do
    do_it (warn_if opts.measure_stack)
    command ← lift (Cli.handle_arguments opts)
    carry_out opts command

  -- the exit code of the process, or `none` if the fuel of a loop ran out
  unfoldable pub main : Opts → Exec core.State (Option ℕ)
  unfolding configure_terminal_colorization handle_arguments
  main opts = do
    do_it terminal.deprecated
    do_it configure_terminal_colorization
    handle_arguments opts
