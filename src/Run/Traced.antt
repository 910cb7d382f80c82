-- ===== src/Run/Traced.antt =====
-- From the end of the wait in src/main.rs to the exit code, for a program whose stack records how it came
-- to where it stopped.
use probe_run.Base.{
  ℕ, ◌≤◌, ◌≡◌, ◌⊎◌, refl, ap, ◌∙◌, Bool, true, false, ◌&&◌, ◌||◌, Option, some, List, [], any,
  if◌then◌else◌,
}
use probe_run.Result.{ok}
use probe_run.Exec.{pure, ◌>>◌}
use probe_run.Core.{Core}
use probe_run.Cortexm.{is_hard_fault}
use probe_run.Registers.{pc_reg, sp_reg, lr_reg}
use probe_run.Cli.Options.{Opts}
use probe_run.Elf.Parse.{Elf}
use probe_run.TargetInfo.{TargetInfo}
use probe_run.Canary.{Canary}
use probe_run.Logs.Host.{Host}
use probe_run.Logs.Print.{timeout}
use probe_run.Backtrace.Outcome.{Outcome, exit_code, sigabrt, sigint, is_ok, is_stack_overflow}
use probe_run.Backtrace.Settings
use probe_run.Backtrace.Settings.{Settings, auto, never, always}
use probe_run.Backtrace.Unwind.{Context, RawFrame, is_exception, overflowed_stack}
use probe_run.Backtrace.Unwind.Report.{outcome_at}
use probe_run.Backtrace.Unwind.Chain.{Chain}
use probe_run.Backtrace.Unwind.Chain.Advance.{ends_badly}
use probe_run.Backtrace.Unwind.Chain.Loop.{rounds}
use probe_run.Backtrace.Unwind.Chain.Complete.{found_of, target-IsComplete}
use probe_run.Backtrace.Print
use probe_run.Backtrace.Print.{Report, final_outcome, wants_backtrace}
use probe_run.Backtrace.Print.Trace.{IsTrace, is_shown, print-IsTrace}
use probe_run.Run.Equipment.{Setup}
use probe_run.Run.{Env, context, measure_if, printed, print_backtrace, finish, conclude}
use probe_run.Run.Laws.{new-halted}

-- the exit code, by where the program stopped and why
abbrev pub code_of : (fault halted : Bool) → ℕ
code_of true halted = sigabrt
code_of false true = sigint
code_of false false = 0

-- In the automatic mode a backtrace is wanted after a signal, a stack overflow (measured, or found at a
-- hard fault), at the end of a corrupted stack and for an exception.
abbrev pub is_wanted : Context → Settings → (pc sp last : ℕ) → List RawFrame → Bool
is_wanted ctx settings pc sp last frames = elim settings.backtrace [
  | never ↦ false
  | always ↦ true
  | auto ↦
      (settings.stack_overflow || settings.halted_due_to_signal)
      || (is_hard_fault pc ctx.vector_table && overflowed_stack sp ctx.active_ram_region)
      || ends_badly ctx last
      || any is_exception frames
]

module _ (core : Core) (ctx : Context) (s : core.State) (settings : Settings) (pc sp last : ℕ)
    (frames : List RawFrame) where
  found_code :
      exit_code (final_outcome settings (found_of core ctx s pc sp frames last).outcome)
      ≡ code_of (is_hard_fault pc ctx.vector_table) settings.halted_due_to_signal
  unfolding final_outcome exit_code
  found_code =
      by (is_hard_fault pc ctx.vector_table) (overflowed_stack sp ctx.active_ram_region)
        settings.halted_due_to_signal
    where
      by :
          (fault overflowed halted : Bool)
          → exit_code (
              let o =
                if fault
                then (if overflowed then Outcome.stack_overflow else Outcome.hard_fault)
                else Outcome.ok in
              if halted && is_ok o then Outcome.ctrl_c else o)
            ≡ code_of fault halted
      by true true true = refl
      by true true false = refl
      by true false true = refl
      by true false false = refl
      by false overflowed true = refl
      by false overflowed false = refl

  overflow_found :
      is_stack_overflow (outcome_at ctx pc sp)
      ≡ (is_hard_fault pc ctx.vector_table && overflowed_stack sp ctx.active_ram_region)
  overflow_found =
      by (is_hard_fault pc ctx.vector_table) (overflowed_stack sp ctx.active_ram_region)
    where
      by :
          (fault overflowed : Bool)
          → is_stack_overflow (
              if fault
              then (if overflowed then Outcome.stack_overflow else Outcome.hard_fault)
              else Outcome.ok)
            ≡ (fault && overflowed)
      by true true = refl
      by true false = refl
      by false overflowed = refl

  found_wanted :
      wants_backtrace settings (found_of core ctx s pc sp frames last)
      ≡ is_wanted ctx settings pc sp last frames
  unfolding wants_backtrace
  found_wanted =
      ap
        (λ overflow. elim settings.backtrace [
          | never ↦ false
          | always ↦ true
          | auto ↦
              (settings.stack_overflow || settings.halted_due_to_signal)
              || overflow
              || ends_badly ctx last
              || any is_exception frames
        ])
        overflow_found

module _ {core : Core} (host : Host core) (setup : Setup core) (env : Env core host) (elf : Elf)
    (target_info : TargetInfo) (opts : Opts) where
  -- what is reported of a stack that records these frames
  abbrev pub Reports :
      Settings → (s : core.State) (pc sp last : ℕ) → List RawFrame → List Report → Type 0
  Reports settings s pc sp last frames reports =
      let ctx = context env.profile elf target_info in
      let shown =
        is_shown env.bold env.dimmed (env.symbols elf) settings
          (is_wanted ctx settings pc sp last frames) frames in
      ((shown ≡ false) × (reports ≡ []))
      ⊎ ((shown ≡ true)
          × IsTrace env.bold env.dimmed (env.symbols elf) settings
              (found_of core ctx s pc sp frames last) reports)

  print_backtrace-Chain :
      (settings : Settings) (t : core.State) (pc sp lr last : ℕ) (frames : List RawFrame)
      → Chain core (context env.profile elf target_info) t pc sp lr frames last
      → rounds frames ≤ env.unwind_fuel
      → core.read_core_reg pc_reg t ≡ (ok pc, t)
      → core.read_core_reg sp_reg t ≡ (ok sp, t)
      → core.read_core_reg lr_reg t ≡ (ok lr, t)
      → let (reports, outcome) =
          Print.print env.bold env.dimmed
            (env.symbols elf)
            settings
            (found_of core (context env.profile elf target_info) t pc sp frames last) in
        print_backtrace host setup env elf target_info settings t
        ≡ (ok (some outcome), env.report reports t)
  unfolding print_backtrace
  print_backtrace-Chain settings t pc sp lr last frames chain enough at_pc at_sp at_lr =
      rw
        (target-IsComplete core (context env.profile elf target_info) t env.unwind_fuel pc sp lr
          last frames chain enough at_pc at_sp at_lr)
        refl

  print-code :
      (settings : Settings) (t : core.State) (pc sp last : ℕ) (frames : List RawFrame)
      → exit_code (
          (Print.print env.bold env.dimmed
            (env.symbols elf)
            settings
            (found_of core (context env.profile elf target_info) t pc sp frames last)).1)
        ≡ code_of (is_hard_fault pc elf.vector_table) settings.halted_due_to_signal
  unfolding Print.print
  print-code settings t pc sp last frames =
      found_code core (context env.profile elf target_info) t settings pc sp last frames

  pub conclude-printed :
      (canary : Option (Canary env.f64)) (halted overflow : Bool) (settings : Settings)
      (s t u : core.State) (outcome : Outcome)
      → measure_if host setup env elf canary s ≡ (ok overflow, t)
      → Settings.new halted opts overflow ≡ ok settings
      → print_backtrace host setup env elf target_info settings t ≡ (ok (some outcome), u)
      → conclude host setup env elf target_info canary opts (some halted) s
        ≡ (core.reset_and_halt timeout >> pure (some (exit_code outcome))) u
  unfolding conclude finish
  conclude-printed canary halted overflow settings s t u outcome measured chosen printed =
      rw (measured, conclude) (rw (chosen, conclude) (rw (printed, conclude) refl))

  -- Suppose that the option for the backtrace is read, and that the stack of the program, when the wait has
  -- ended and the canary is measured, records a chain of frames, with as much fuel as it has subroutines.
  -- Then the run goes on to the reset with a fixed exit code: that of a fault exactly if the program
  -- stopped at the hard fault handler, else that of an interrupt exactly if a signal halted it, else 0.
  -- What is reported before that is the trace of exactly these frames, up to the limit, with a note if
  -- the range of the reset handler is known and the outermost lies outside it; or nothing, if no
  -- backtrace is wanted or the limit is 0.
  pub conclude-Reports :
      (canary : Option (Canary env.f64)) (halted overflow : Bool) (settings : Settings)
      (s t : core.State) (pc sp lr last : ℕ) (frames : List RawFrame)
      → measure_if host setup env elf canary s ≡ (ok overflow, t)
      → Settings.new halted opts overflow ≡ ok settings
      → Chain core (context env.profile elf target_info) t pc sp lr frames last
      → rounds frames ≤ env.unwind_fuel
      → core.read_core_reg pc_reg t ≡ (ok pc, t)
      → core.read_core_reg sp_reg t ≡ (ok sp, t)
      → core.read_core_reg lr_reg t ≡ (ok lr, t)
      → (reports : List Report) × Reports settings t pc sp last frames reports
        × (conclude host setup env elf target_info canary opts (some halted) s
            ≡ (core.reset_and_halt timeout
                  >> pure (some (code_of (is_hard_fault pc elf.vector_table) halted)))
                (env.report reports t))
  conclude-Reports canary halted overflow settings s t pc sp lr last frames measured chosen chain
        enough at_pc at_sp at_lr =
      let ctx = context env.profile elf target_info in
      let unwind = found_of core ctx t pc sp frames last in
      (
        (Print.print env.bold env.dimmed (env.symbols elf) settings unwind).0,
        print-IsTrace env.bold env.dimmed (env.symbols elf) settings unwind
            (is_wanted ctx settings pc sp last frames)
            (found_wanted core ctx t settings pc sp last frames),
        conclude-printed canary halted overflow settings s t _ _ measured chosen
              (print_backtrace-Chain settings t pc sp lr last frames chain enough at_pc at_sp at_lr)
            ∙ ap
                (λ code. (core.reset_and_halt timeout >> pure (some code)) (
                  env.report (Print.print env.bold env.dimmed (env.symbols elf) settings unwind).0
                    t))
                (print-code settings t pc sp last frames
                  ∙ ap (λ b. code_of (is_hard_fault pc elf.vector_table) b)
                      (new-halted halted opts overflow settings chosen)),
      )
