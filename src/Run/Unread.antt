-- ===== src/Run/Unread.antt =====
-- The end of a run in src/main.rs when the debug probe cannot read the registers of the stopped core.
use probe_run.Base.{
  ℕ, zero, suc, ◌<◌, ◌≡◌, ◌≢◌, ◌⊎◌, inl, inr, refl, ap, ◌∙◌, Bool, true, false, ◌&&◌, ◌||◌, Option,
  some, List, [], ◌∷◌, ltb, ◌==◌, if◌then◌else◌, arith,
}
use probe_run.Base.Text.{Str}
use probe_run.Result.{Error, ok, err}
use probe_run.Exec.{Exec, pure, ◌>>◌}
use probe_run.Core.{Core}
use probe_run.Registers.{pc_reg, sp_reg, lr_reg}
use probe_run.Cli.Options.{Opts}
use probe_run.Elf.Parse.{Elf}
use probe_run.TargetInfo.{TargetInfo}
use probe_run.Canary.{Canary}
use probe_run.Logs.Host.{Host}
use probe_run.Logs.Print.{timeout}
use probe_run.Backtrace.Outcome.{Outcome, exit_code}
use probe_run.Backtrace.Settings
use probe_run.Backtrace.Settings.{Settings, BacktraceOptions, auto, never, always, panic_present}
use probe_run.Backtrace.Unwind.{
  Context, Output, with_error, start, read_or_return, unwind_core, target,
}
use probe_run.Backtrace.Symbolicate
use probe_run.Backtrace.Symbolicate.{Symbols}
use probe_run.Backtrace.Pp.{title, backtrace, print_frames}
use probe_run.Backtrace.Print
use probe_run.Backtrace.Print.{
  Report, line, call_stack_corrupted, backtrace_error, final_outcome, effective_limit,
  wants_backtrace,
}
use probe_run.Backtrace.Unwind.Target.{Unread, pc_unread, sp_unread, lr_unread}
use probe_run.Run.Equipment.{Setup}
use probe_run.Run.{Env, context, measure_if, print_backtrace}
use probe_run.Run
use probe_run.Run.Traced.{code_of, conclude-printed}
use probe_run.Run.Laws.{new-halted}

module _ (core : Core) (ctx : Context) where
  reads :
      {s t : core.State} {val : ℕ} (reg : ℕ) (k : ℕ → Exec core.State (Option Output))
      → core.read_core_reg reg s ≡ (ok val, t)
      → read_or_return core ctx reg k s ≡ k val t
  unfolding read_or_return
  reads {val = val} reg k at = rw (at, read_or_return) (ap (λ r. k val r.1) at)

  fails :
      {s t : core.State} {e : Error} (reg : ℕ) (k : ℕ → Exec core.State (Option Output))
      → core.read_core_reg reg s ≡ (err e, t)
      → read_or_return core ctx reg k s ≡ (ok (some (with_error start e)), t)
  unfolding read_or_return
  fails {e = e} reg k at =
      rw (at, read_or_return) (ap (λ r. (ok (some (with_error start e)), r.1)) at)

  target-Unread :
      (fuel : ℕ) {s u : core.State} {e : Error}
      → Unread core s e u
      → target core ctx fuel s ≡ (ok (some (with_error start e)), u)
  unfolding target
  target-Unread fuel unread =
      let last : ℕ → ℕ → Exec core.State (Option Output) =
        λ pc sp. read_or_return core ctx lr_reg λ lr. unwind_core core ctx fuel pc sp lr in
      let rest : ℕ → Exec core.State (Option Output) =
        λ pc. read_or_return core ctx sp_reg (last pc) in
      elim unread [
        | pc_unread e t at ↦ fails pc_reg rest at
        | sp_unread e pc t u at_pc at ↦ reads pc_reg rest at_pc ∙ fails sp_reg (last pc) at
        | lr_unread e pc sp t u v at_pc at_sp at ↦
            reads pc_reg rest at_pc
            ∙ reads sp_reg (last pc) at_sp
            ∙ fails lr_reg (λ lr. unwind_core core ctx fuel pc sp lr) at
      ]

-- What is reported of the error: nothing where backtraces are off or their limit is 0.
abbrev pub Told : Settings → Error → List Report → Type 0
Told settings e reports =
    (((settings.backtrace ≡ never) ⊎ (settings.backtrace_limit ≡ 0)) × (reports ≡ []))
    ⊎ ((settings.backtrace ≢ never)
        × (0 < settings.backtrace_limit)
        × (reports ≡ line title ∷ call_stack_corrupted ∷ backtrace_error e ∷ []))

module _ (bold dimmed : Str → Str) (symbols : Symbols) where
  print-Told :
      (settings : Settings) (e : Error)
      → Told settings e ((Print.print bold dimmed symbols settings (with_error start e)).0)
  unfolding Print.print effective_limit wants_backtrace backtrace print_frames Symbolicate.frames
  print-Told settings e =
      by settings.backtrace settings.backtrace_limit (panic_present settings)
        (line title ∷ call_stack_corrupted ∷ backtrace_error e ∷ [])
    where
      positive : (limit : ℕ) → 0 < limit → ltb 0 (if limit == 0 then 0 else limit) ≡ true
      positive limit h =
          let some_limit : (limit == 0) ≡ false = ground arith in rw some_limit (ground arith)

      by :
          (mode : BacktraceOptions) (limit : ℕ) (present : Bool) (told : List Report)
          → let wanted : Bool = elim mode [
            | never ↦ false
            | always ↦ true
            | auto ↦ present || false || true || false
          ] in
            let reports = if wanted && ltb 0 (if limit == 0 then 0 else limit) then told else [] in
            (((mode ≡ never) ⊎ (limit ≡ 0)) × (reports ≡ []))
            ⊎ ((mode ≢ never) × (0 < limit) × (reports ≡ told))
      by never limit present told = inl (inl refl, refl)
      by always zero present told = inl (inr refl, refl)
      by always (suc limit) present told =
          inr ((λ h. cc), omega arith, rw (positive (suc limit) (omega arith)) refl)
      by auto zero true told = inl (inr refl, refl)
      by auto zero false told = inl (inr refl, refl)
      by auto (suc limit) true told =
          inr ((λ h. cc), omega arith, rw (positive (suc limit) (omega arith)) refl)
      by auto (suc limit) false told =
          inr ((λ h. cc), omega arith, rw (positive (suc limit) (omega arith)) refl)

  print-code :
      (settings : Settings) (e : Error)
      → exit_code ((Print.print bold dimmed symbols settings (with_error start e)).1)
        ≡ code_of false settings.halted_due_to_signal
  unfolding Print.print final_outcome exit_code
  print-code settings e = by settings.halted_due_to_signal
    where
      by :
          (halted : Bool)
          → exit_code (if halted && true then Outcome.ctrl_c else Outcome.ok) ≡ code_of false halted
      by true = refl
      by false = refl

module _ {core : Core} (host : Host core) (setup : Setup core) (env : Env core host) (elf : Elf)
    (target_info : TargetInfo) (opts : Opts) where
  print_backtrace-Unread :
      (settings : Settings) (t u : core.State) (e : Error)
      → Unread core t e u
      → let (reports, outcome) =
          Print.print env.bold env.dimmed (env.symbols elf) settings (with_error start e) in
        print_backtrace host setup env elf target_info settings t
        ≡ (ok (some outcome), env.report reports u)
  unfolding print_backtrace
  print_backtrace-Unread settings t u e unread =
      rw (target-Unread core (context env.profile elf target_info) env.unwind_fuel unread) refl

  -- If the option for the backtrace is read, but the program counter, the stack pointer or the link
  -- register is not, when the wait has ended and the canary is measured, the run goes on to the reset
  -- with the exit code of success, or that of an interrupt if a signal halted the program. The error
  -- is reported, behind the title of the backtrace and a note on a corrupted stack, unless backtraces
  -- are off or their limit is 0, which stands for no limit.
  pub conclude-Unread :
      (canary : Option (Canary env.f64)) (halted overflow : Bool) (settings : Settings)
      (s t u : core.State) (e : Error)
      → measure_if host setup env elf canary s ≡ (ok overflow, t)
      → Settings.new halted opts overflow ≡ ok settings
      → Unread core t e u
      → (reports : List Report) × Told settings e reports
        × (Run.conclude host setup env elf target_info canary opts (some halted) s
            ≡ (core.reset_and_halt timeout >> pure (some (code_of false halted)))
                (env.report reports u))
  conclude-Unread canary halted overflow settings s t u e measured chosen unread =
      let (reports, outcome) =
        Print.print env.bold env.dimmed (env.symbols elf) settings (with_error start e) in
      (
        reports,
        print-Told env.bold env.dimmed (env.symbols elf) settings e,
        conclude-printed host setup env elf target_info opts canary halted overflow settings s t _ _
              measured chosen (print_backtrace-Unread settings t u e unread)
            ∙ ap (λ code. (core.reset_and_halt timeout >> pure (some code)) (env.report reports u))
                (print-code env.bold env.dimmed (env.symbols elf) settings e
                  ∙ ap (code_of false) (new-halted halted opts overflow settings chosen)),
      )
