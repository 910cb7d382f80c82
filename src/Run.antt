-- ===== src/Run.antt =====
-- src/main.rs: `run_target_program`. The fuel of its loops is an argument.
pub mod Equipment
pub mod Prepare
pub mod Logger
pub mod Course
pub mod Laws
pub mod Success
pub mod Traced
pub mod Unread
use probe_run.Base.{ℕ, Bool, true, false, Option, none, some, List}
use probe_run.Base.Text.{Str}
use probe_run.Result.{ok}
use probe_run.U32.{Profile}
use probe_run.Exec.{Exec, pure, lift, ◌>>=◌, ◌>>◌}
use probe_run.Core.{Core}
use probe_run.Dep.StdPath.{StdPath}
use probe_run.Cli.Options.{Opts}
use probe_run.Elf.Parse.{
  Elf, parse, main_fn_address, reset_fn_range, program_uses_heap, rtt_buffer_address,
}
use probe_run.TargetInfo
use probe_run.TargetInfo.{TargetInfo, MemoryRegion}
use probe_run.Canary.{F64, Canary, install, measure}
use probe_run.Startup.{analyze_vector_table, start_program}
use probe_run.Logs.Host.{Host}
use probe_run.Logs.Print.{print_logs, timeout}
use probe_run.Backtrace.Outcome.{Outcome, exit_code}
use probe_run.Backtrace.Unwind
use probe_run.Backtrace.Unwind.{Context, Output}
use probe_run.Backtrace.Symbolicate.{Symbols}
use probe_run.Backtrace.Settings
use probe_run.Backtrace.Settings.{Settings}
use probe_run.Backtrace.Print
use probe_run.Backtrace.Print.{Report}
use Equipment.{Setup, Target}
use Prepare.{lookup_probe_target, attach_to_probe, flash}
use Logger.{
  is_timestamping_available, log_format, host_log_format, is_shown, timestamp_warning,
  TimestampWarning,
}

-- The rest of the surroundings: how the build treats overflow, the value of
-- `PROBE_RUN_IGNORE_VERSION`, text styles, the working directory (`env::current_dir` reads it, and
-- `strip_prefix` and `symbols` refer to it), the debug information, the standard error, and the fuel
-- for the decoder, the wait and the unwinder.
pub record Env (core : Core) (host : Host core) : Type 1 where
  pub profile : Profile
  pub ignore_version : Option Str
  pub f64 : F64
  pub bold : Str → Str
  pub dimmed : Str → Str
  pub current_dir : Exec core.State (Unit {0})
  pub strip_prefix : StdPath → Option StdPath
  pub symbols : Elf → Symbols
  pub report : List Report → core.State → core.State
  pub rounds : host.decoder.State → ℕ
  pub wait_fuel : ℕ
  pub unwind_fuel : ℕ

-- what the unwinder reads of the image and of the target
abbrev pub context : Profile → Elf → TargetInfo → Context
context profile elf target_info = record {
  profile = profile;
  vector_table = elf.vector_table;
  debug_frame = elf.debug_frame;
  reset_fn_start = (reset_fn_range elf).0;
  reset_fn_end = (reset_fn_range elf).1;
  active_ram_region = target_info.active_ram_region;
  stack_start = target_info.stack_start;
}

abbrev look : {S A : Type 0} → (S → A) → Exec S A
look f s = (ok (f s), s)

module _ {core : Core} (host : Host core) (setup : Setup core) (env : Env core host) where
  -- the image and the target, read after the reset
  unfoldable pub gather : StdPath → Target → List MemoryRegion → Exec core.State (Elf × TargetInfo)
  gather elf_path probe_target memory_map = do
    vectors ← analyze_vector_table core env.profile
    crates ← setup.read_file elf_path
    elf ← lift (parse crates env.profile env.ignore_version vectors.1)
    target_info ← lift (
        TargetInfo.new env.profile elf.elf.sections elf.vector_table.initial_stack_pointer
          memory_map probe_target.memory_map vectors.0)
    pure (elf, target_info)

  abbrev warn : Option TimestampWarning → core.State → core.State
  warn none s = s
  warn (some w) s = setup.warn_of_timestamp w s

  unfoldable pub init_logger : Elf → Opts → Exec core.State (Unit {0})
  init_logger elf opts s =
      let timestamping = is_timestamping_available elf.defmt_table in
      let (has_timestamp, t) =
        setup.init_logger (log_format opts timestamping) (host_log_format opts) opts.json
          (is_shown opts.verbose) s in
      (ok tt, warn (timestamp_warning has_timestamp timestamping) t)

  abbrev pub measure_if : Elf → Option (Canary env.f64) → Exec core.State Bool
  measure_if elf none = pure false
  measure_if elf (some canary) =
      measure core env.profile env.f64 elf.vector_table.initial_stack_pointer canary

  abbrev pub printed : Elf → Settings → Option Output → Exec core.State (Option Outcome)
  printed elf settings none s = (ok none, s)
  printed elf settings (some unwind) s =
      let (reports, outcome) = Print.print env.bold env.dimmed (env.symbols elf) settings unwind in
      (ok (some outcome), env.report reports s)

  -- `backtrace::print`
  unfoldable pub print_backtrace : Elf → TargetInfo → Settings → Exec core.State (Option Outcome)
  print_backtrace elf target_info settings =
      Unwind.target core (context env.profile elf target_info) env.unwind_fuel
      >>= printed elf settings

  -- the target is reset
  unfoldable pub finish : Option Outcome → Exec core.State (Option ℕ)
  finish none = pure none
  finish (some outcome) = core.reset_and_halt timeout >> pure (some (exit_code outcome))

  -- from the end of the wait on
  unfoldable pub conclude :
      Elf → TargetInfo → Option (Canary env.f64) → Opts → Option Bool → Exec core.State (Option ℕ)
  unfolding print_backtrace finish
  conclude elf target_info canary opts none = pure none
  conclude elf target_info canary opts (some halted_due_to_signal) = do
    stack_overflow ← measure_if elf canary
    settings ← lift (Settings.new halted_due_to_signal opts stack_overflow)
    outcome ← print_backtrace elf target_info settings
    finish outcome

  -- with the image and the target known
  unfoldable pub supervise : Elf → TargetInfo → Opts → Exec core.State (Option ℕ)
  unfolding conclude init_logger
  supervise elf target_info opts = do
    init_logger elf opts
    canary ← install core env.profile env.f64 (program_uses_heap elf) target_info.stack_info
    start_program core env.profile (main_fn_address elf) (rtt_buffer_address elf)
        elf.vector_table.hard_fault
    env.current_dir
    halted_due_to_signal ←
        print_logs host env.bold env.dimmed env.strip_prefix env.rounds env.wait_fuel elf
          target_info.memory_map opts
    conclude elf target_info canary opts halted_due_to_signal

  -- the exit code, or `none` if the fuel of a loop ran out
  unfoldable pub run_target_program :
      StdPath → (chip_name : Str) → Opts → Exec core.State (Option ℕ)
  unfolding gather supervise
  run_target_program elf_path chip_name opts = do
    probe_target ← lookup_probe_target setup elf_path chip_name opts
    attach_to_probe setup probe_target opts
    flash setup elf_path opts
    memory_map ← look setup.session_memory_map
    setup.session_core 0
    core.reset_and_halt timeout
    info ← gather elf_path probe_target memory_map
    supervise info.0 info.1 opts
