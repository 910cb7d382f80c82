-- ===== src/Run/Success.antt =====
-- What it means that `run_target_program` of src/main.rs returns 0.
use probe_run.Base.{
  ℕ, ◌≡◌, ◌⊎◌, inl, inr, sym, ◌∙◌, subst, ◌≢◌, Bool, true, false, some, Bool-cases, if◌then◌else◌,
}
use probe_run.Base.Text.{Str}
use probe_run.Result.{Error, ok}
use probe_run.Core.{Core}
use probe_run.Cortexm.{is_hard_fault}
use probe_run.Registers.{pc_reg}
use probe_run.Dep.StdPath.{StdPath}
use probe_run.Cli.Options.{Opts}
use probe_run.Elf.Parse.{Elf}
use probe_run.TargetInfo.{TargetInfo}
use probe_run.Backtrace.Outcome
use probe_run.Backtrace.Unwind.{Context, Output, with_error, start, overflowed_stack}
use probe_run.Backtrace.Unwind.Report.{StartsAt, outcome_at}
use probe_run.Backtrace.Print.Laws.{code_of-eq-zero}
use probe_run.Backtrace.Unwind.Target.{Unread, IsStop, target-IsStop}
use probe_run.Logs.Host.{Host}
use probe_run.Logs.Print.Signals.{Signals}
use probe_run.Logs.Print.Laws.{Reported}
use probe_run.Run.Equipment.{Setup}
use probe_run.Run.{Env, context, run_target_program}
use probe_run.Run.Course.{Finished}
use probe_run.Run.Laws.{run_target_program-Finished}

outcome_at-ok :
    (ctx : Context) (pc sp : ℕ)
    → outcome_at ctx pc sp ≡ Outcome.ok
    → is_hard_fault pc ctx.vector_table ≡ false
outcome_at-ok ctx pc sp h = elim (Bool-cases (is_hard_fault pc ctx.vector_table)) [
  | inl fault ↦ absurd (no_fault (overflowed_stack sp ctx.active_ram_region) (rw fault at h))
  | inr plain ↦ plain
]
  where
    no_fault : (b : Bool) → (if b then Outcome.stack_overflow else Outcome.hard_fault) ≢ Outcome.ok
    no_fault true h = cc
    no_fault false h = cc

module _ {core : Core} (host : Host core) (signals : Signals host) (setup : Setup core)
    (env : Env core host) (opts : Opts) where
  -- Where the program stopped, by what the unwinder read from `s` on: outside the hard fault handler, at
  -- the first frame that is returned; or one of the three registers could not be read.
  abbrev pub StopsWell : Elf → (s s' : core.State) → Output → Type 0
  StopsWell elf s s' o =
      ((e : Error) × Unread core s e s' × (o ≡ with_error start e))
      ⊎ ((pc : ℕ) × (t : core.State) × (core.read_core_reg pc_reg s ≡ (ok pc, t))
          × (is_hard_fault pc elf.vector_table ≡ false)
          × StartsAt pc o.raw_frames)

  stop-StopsWell :
      (elf : Elf) (target_info : TargetInfo) (s s' : core.State) (o : Output)
      → o.outcome ≡ Outcome.ok
      → IsStop core (context env.profile elf target_info) s s' o
      → StopsWell elf s s' o
  stop-StopsWell elf target_info s s' o fine (inl unread) = inl unread
  stop-StopsWell elf target_info s s' o fine (inr (pc, sp, t, at, (outcome, starts, sound))) = inr (
    pc,
    t,
    at,
    outcome_at-ok (context env.profile elf target_info) pc sp (sym outcome ∙ fine),
    starts,
  )

  -- A run that returns 0, with the states that it went through: no signal ended its wait, whose loop came
  -- to its end in a round that found the core halted for the second time in a row, or in which the
  -- channel failed. And in the state behind the wait and the measurement, where the unwinder began, the
  -- program counter lay outside the hard fault handler and became the first frame of the output, unless
  -- one of the three registers could not be read there.
  pub run_target_program-StopsWell :
      (elf_path : StdPath) (chip_name : Str) (s s' : core.State)
      → run_target_program host setup env elf_path chip_name opts s ≡ (ok (some 0), s')
      → (f : Finished host signals setup env opts elf_path chip_name s 0 s') × Reported host signals
          env.bold env.dimmed env.strip_prefix env.rounds f.elf f.target_info.memory_map opts false
          f.supervised.waiting f.supervised.stop
        × StopsWell f.elf f.supervised.before f.supervised.after f.supervised.unwind
  run_target_program-StopsWell elf_path chip_name s s' h =
      let f = run_target_program-Finished host signals setup env opts elf_path chip_name s s' 0 h in
      let v = f.supervised in
      let (fine, quiet) = code_of-eq-zero v.unwind.outcome v.signal (sym v.code_is) in
      (
        f,
        subst
            (λ b.
              Reported host signals env.bold env.dimmed env.strip_prefix env.rounds f.elf
                f.target_info.memory_map opts b v.waiting v.stop)
            quiet v.waited,
        stop-StopsWell f.elf f.target_info v.before v.after v.unwind fine (
            target-IsStop core (context env.profile f.elf f.target_info) env.unwind_fuel v.before
              v.after v.unwind v.unwound),
      )
