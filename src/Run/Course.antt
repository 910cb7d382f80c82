-- ===== src/Run/Course.antt =====
-- The states that a whole run of `run_target_program` in src/main.rs goes through.
use probe_run.Base.{ℕ, ◌≡◌, Bool, Option, some}
use probe_run.Base.Text.{Str}
use probe_run.Result.{ok}
use probe_run.Core.{Core}
use probe_run.Dep.StdPath.{StdPath}
use probe_run.Cli.Options.{Opts}
use probe_run.Elf.Parse.{Elf, main_fn_address, program_uses_heap, rtt_buffer_address}
use probe_run.TargetInfo.{TargetInfo}
use probe_run.Canary.{Canary, install}
use probe_run.Startup.{start_program}
use probe_run.Logs.Host.{Host}
use probe_run.Logs.Print.{timeout}
use probe_run.Logs.Print.Signals.{Signals}
use probe_run.Logs.Print.Laws.{Reported}
use probe_run.Backtrace.Unwind
use probe_run.Backtrace.Unwind.{Context, Output}
use probe_run.Backtrace.Settings
use probe_run.Backtrace.Settings.{Settings, BacktraceOptions, from_text}
use probe_run.Backtrace.Print
use probe_run.Backtrace.Print.Laws.{code_of}
use probe_run.Run.Equipment.{Setup, Target}
use probe_run.Run.Prepare.{lookup_probe_target, attach_to_probe, flash}
use probe_run.Run.{Env, context, gather, init_logger, measure_if}

module _ {core : Core} (host : Host core) (signals : Signals host) (setup : Setup core)
    (env : Env core host) (opts : Opts) where
  -- What is done before the logger is set up: the image and the target are those of `gather`, after the
  -- image was written to the chip and the core was reset.
  abbrev pub Gathered :
      StdPath
      → (chip_name : Str) → (s : core.State) → Elf
      → TargetInfo
      → (ready : core.State) → Type 0
  Gathered elf_path chip_name s elf target_info ready =
      (probe_target : Target) × (found : core.State) × (attached : core.State)
      × (flashed : core.State) × (held : core.State) × (halted : core.State) × (lookup_probe_target
            setup elf_path chip_name opts s
          ≡ (ok probe_target, found))
      × (attach_to_probe setup probe_target opts found ≡ (ok tt, attached))
      × (flash setup elf_path opts attached ≡ (ok tt, flashed))
      × (setup.session_core 0 flashed ≡ (ok tt, held))
      × (core.reset_and_halt timeout held ≡ (ok tt, halted))
      × (gather host setup env elf_path probe_target (setup.session_memory_map flashed) halted
          ≡ (ok (elf, target_info), ready))

  -- What is done then, up to the wait: the canary is installed, the program started, and the working
  -- directory read.
  abbrev pub Begun :
      Elf
      → TargetInfo
      → (s : core.State) → Option (Canary env.f64)
      → (waiting : core.State) → Type 0
  Begun elf target_info s canary waiting =
      (logging : core.State) × (painted : core.State) × (running : core.State) × (init_logger host
          setup env elf opts s
        ≡ (ok tt, logging))
      × (install core env.profile env.f64 (program_uses_heap elf) target_info.stack_info logging
          ≡ (ok canary, painted))
      × (start_program core env.profile (main_fn_address elf) (rtt_buffer_address elf)
            elf.vector_table.hard_fault painted
          ≡ (ok tt, running))
      × (env.current_dir running ≡ (ok tt, waiting))

  -- The rest of a run that has an exit code: the canary is measured in the state in which the wait
  -- ended, the unwinder starts in the state behind that, and the last call on the core resets it.
  pub record Supervised (elf : Elf) (target_info : TargetInfo) (s : core.State) (code : ℕ)
      (s' : core.State) : Type 0 where
    pub canary : Option (Canary env.f64)
    pub waiting : core.State
    pub begun : Begun elf target_info s canary waiting
    pub signal : Bool
    pub stop : core.State
    pub waited :
        Reported host signals env.bold env.dimmed env.strip_prefix env.rounds elf
          target_info.memory_map opts signal waiting stop
    pub overflow : Bool
    pub before : core.State
    pub measured : measure_if host setup env elf canary stop ≡ (ok overflow, before)
    pub settings : Settings
    pub chosen : Settings.new signal opts overflow ≡ ok settings
    pub unwind : Output
    pub after : core.State
    pub unwound :
        Unwind.target core (context env.profile elf target_info) env.unwind_fuel before
        ≡ (ok (some unwind), after)
    pub code_is : code ≡ code_of unwind.outcome signal
    pub reset :
        core.reset_and_halt timeout
          (env.report (Print.print env.bold env.dimmed (env.symbols elf) settings unwind).0 after)
        ≡ (ok tt, s')

  -- A run from a state to another, with its exit code.
  pub record Finished (elf_path : StdPath) (chip_name : Str) (s : core.State) (code : ℕ)
      (s' : core.State) : Type 0 where
    pub elf : Elf
    pub target_info : TargetInfo
    pub ready : core.State
    pub gathered : Gathered elf_path chip_name s elf target_info ready
    pub supervised : Supervised elf target_info ready code s'
