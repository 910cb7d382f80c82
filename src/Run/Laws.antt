-- ===== src/Run/Laws.antt =====
-- What an exit code of `run_target_program` in src/main.rs says of the run.
use probe_run.Base.{ℕ, ◌≡◌, ◌∙◌, sym, ap, Bool, Option, none, some, ltb, subst}
use probe_run.Base.Text.{Str}
use probe_run.Result.{Result, ok, err, panic, ok-injective}
use probe_run.Result
use probe_run.Exec.{lift, ◌>>=◌, Returns, >>=-Returns, >>=->>=-Returns, Returns-elim}
use probe_run.Core.{Core}
use probe_run.Dep.StdPath.{StdPath}
use probe_run.Cli.Options.{Opts}
use probe_run.Elf.Parse.{Elf, main_fn_address, program_uses_heap, rtt_buffer_address}
use probe_run.TargetInfo.{TargetInfo}
use probe_run.Canary.{Canary, install}
use probe_run.Startup.{start_program}
use probe_run.Logs.Host.{Host}
use probe_run.Logs.Print.{print_logs, timeout}
use probe_run.Logs.Print.Signals.{Signals}
use probe_run.Logs.Print.Laws.{print_logs-Reported}
use probe_run.Backtrace.Unwind
use probe_run.Backtrace.Unwind.{Context, Output}
use probe_run.Backtrace.Settings
use probe_run.Backtrace.Settings.{Settings, BacktraceOptions, from_text}
use probe_run.Backtrace.Print.Laws.{print-code_of, code_of}
use probe_run.Run.Equipment.{Setup}
use probe_run.Run.Prepare.{lookup_probe_target, attach_to_probe, flash}
use probe_run.Run.{
  Env, context, gather, init_logger, measure_if, printed, print_backtrace, finish, conclude,
  supervise, run_target_program,
}
use probe_run.Run.Course.{Gathered, Begun, Supervised, Finished}

pub new-halted :
    (halted : Bool) (opts : Opts) (overflow : Bool) (settings : Settings)
    → Settings.new halted opts overflow ≡ ok settings
    → settings.halted_due_to_signal ≡ halted
unfolding Settings.new
new-halted halted opts overflow settings h = by_text (from_text opts.backtrace) h
  where
    by_text :
        (r : Result BacktraceOptions)
        → Result.◌>>=◌ r (λ backtrace. ok (record {
          backtrace_limit = opts.backtrace_limit;
          backtrace = backtrace;
          halted_due_to_signal = halted;
          include_addresses = ltb 0 opts.verbose;
          shorten_paths = opts.shorten_paths;
          stack_overflow = overflow;
        }))
          ≡ ok settings
        → settings.halted_due_to_signal ≡ halted
    by_text (ok b) h = ap (λ s. s.halted_due_to_signal) (sym (ok-injective h))
    by_text (err e) h = cc
    by_text (panic p) h = cc

module _ {core : Core} (host : Host core) (signals : Signals host) (setup : Setup core)
    (env : Env core host) (opts : Opts) where
  module _ (elf : Elf) (target_info : TargetInfo) (s : core.State) where
    abbrev MayEnd : Option ℕ → core.State → Type 0
    MayEnd none s' = Unit
    MayEnd (some code) s' = Supervised host signals setup env opts elf target_info s code s'

    conclude-MayEnd :
        (canary : Option (Canary env.f64)) (waiting stop : core.State) (signal : Option Bool)
        → Begun host signals setup env opts elf target_info s canary waiting
        → print_logs host env.bold env.dimmed env.strip_prefix env.rounds env.wait_fuel elf
            target_info.memory_map opts waiting
          ≡ (ok signal, stop)
        → Returns MayEnd (conclude host setup env elf target_info canary opts signal stop)
    unfolding conclude print_backtrace finish
    conclude-MayEnd canary waiting stop none begun waited = tt
    conclude-MayEnd canary waiting stop (some signal) begun waited =
        >>=-Returns MayEnd (measure_if host setup env elf canary) _ stop λ overflow before measured.
          >>=-Returns MayEnd (lift (Settings.new signal opts overflow)) _ before λ settings t made.
            >>=->>=-Returns MayEnd
              (Unwind.target core (context env.profile elf target_info) env.unwind_fuel)
              (printed host setup env elf settings) (finish host setup env) t
              λ unwind after unwound.
                by_output overflow before measured settings (ap (λ q. q.0) made) unwind after (
                  subst
                    (λ t.
                      Unwind.target core (context env.profile elf target_info) env.unwind_fuel t
                      ≡ (ok unwind, after))
                    (sym (ap (λ q. q.1) made)) unwound)
      where
        by_output :
            (overflow : Bool) (before : core.State)
            → measure_if host setup env elf canary stop ≡ (ok overflow, before)
            → (settings : Settings) → Settings.new signal opts overflow ≡ ok settings
            → (unwind : Option Output) (after : core.State)
            → Unwind.target core (context env.profile elf target_info) env.unwind_fuel before
              ≡ (ok unwind, after)
            → Returns MayEnd
                ((printed host setup env elf settings unwind >>= finish host setup env) after)
        by_output overflow before measured settings chosen none after unwound = tt
        by_output overflow before measured settings chosen (some unwind) after unwound =
            >>=-Returns MayEnd (core.reset_and_halt timeout) _ _ λ u s' reset. record {
              canary = canary;
              waiting = waiting;
              begun = begun;
              signal = signal;
              stop = stop;
              waited =
                  print_logs-Reported host signals env.bold env.dimmed env.strip_prefix env.rounds
                    elf target_info.memory_map opts env.wait_fuel waiting stop signal waited;
              overflow = overflow;
              before = before;
              measured = measured;
              settings = settings;
              chosen = chosen;
              unwind = unwind;
              after = after;
              unwound = unwound;
              code_is =
                  print-code_of env.bold env.dimmed settings (env.symbols elf) unwind
                  ∙ ap (code_of unwind.outcome) (new-halted signal opts overflow settings chosen);
              reset = reset;
            }

    supervise-MayEnd : Returns MayEnd (supervise host setup env elf target_info opts s)
    unfolding supervise
    supervise-MayEnd =
        >>=-Returns MayEnd (init_logger host setup env elf opts) _ s λ u logging logger.
          >>=-Returns MayEnd
            (install core env.profile env.f64 (program_uses_heap elf) target_info.stack_info) _
            logging
            λ canary painted installed.
              >>=-Returns MayEnd
                (start_program core env.profile (main_fn_address elf) (rtt_buffer_address elf)
                  elf.vector_table.hard_fault)
                _ painted
                λ v running started.
                  >>=-Returns MayEnd env.current_dir _ running λ w waiting directory.
                    >>=-Returns MayEnd
                      (print_logs host env.bold env.dimmed env.strip_prefix env.rounds env.wait_fuel
                        elf target_info.memory_map opts)
                      _ waiting
                      λ signal stop waited.
                        conclude-MayEnd canary waiting stop signal
                          (logging, painted, running, logger, installed, started, directory) waited

  module _ (elf_path : StdPath) (chip_name : Str) (s : core.State) where
    abbrev MayFinish : Option ℕ → core.State → Type 0
    MayFinish none s' = Unit
    MayFinish (some code) s' = Finished host signals setup env opts elf_path chip_name s code s'

    whole :
        (elf : Elf) (target_info : TargetInfo) (ready : core.State)
        → Gathered host signals setup env opts elf_path chip_name s elf target_info ready
        → Returns MayFinish (supervise host setup env elf target_info opts ready)
    whole elf target_info ready gathered =
        weaken (supervise host setup env elf target_info opts ready)
          (supervise-MayEnd elf target_info ready)
      where
        weaken :
            (r : Result (Option ℕ) × core.State)
            → Returns (MayEnd elf target_info ready) r
            → Returns MayFinish r
        weaken (ok none, t) h = tt
        weaken (ok (some code), t) h = record {
          elf = elf;
          target_info = target_info;
          ready = ready;
          gathered = gathered;
          supervised = h;
        }
        weaken (err e, t) h = tt
        weaken (panic p, t) h = tt

    -- A run that has an exit code went all the way: it found the image and the target, set up the
    -- canary, started the program and waited for it, each step in the state that the one before it left.
    -- The code is that of what the unwinder returned in the state behind the wait and the measurement:
    -- a fault gives SIGABRT, else a signal that ended the wait gives SIGINT, else it is 0. The reports
    -- were made before the core was reset, in the state that is left behind.
    pub run_target_program-Finished :
        (s' : core.State) (code : ℕ)
        → run_target_program host setup env elf_path chip_name opts s ≡ (ok (some code), s')
        → Finished host signals setup env opts elf_path chip_name s code s'
    unfolding run_target_program
    run_target_program-Finished s' code h =
        Returns-elim MayFinish (run_target_program host setup env elf_path chip_name opts s) h (
          >>=-Returns MayFinish (lookup_probe_target setup elf_path chip_name opts) _ s
            λ probe_target s1 e1.
              >>=-Returns MayFinish (attach_to_probe setup probe_target opts) _ s1 λ u2 s2 e2.
                >>=-Returns MayFinish (flash setup elf_path opts) _ s2 λ u3 s3 e3.
                  >>=-Returns MayFinish (setup.session_core 0) _ s3 λ u4 s4 e4.
                    >>=-Returns MayFinish (core.reset_and_halt timeout) _ s4 λ u5 s5 e5.
                      >>=-Returns MayFinish
                        (gather host setup env elf_path probe_target (setup.session_memory_map s3))
                        _ s5
                        λ info s6 e6.
                          whole info.0 info.1 s6
                            (probe_target, s1, s2, s3, s4, s5, e1, e2, e3, e4, e5, e6))
