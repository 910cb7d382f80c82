-- ===== src/Backtrace/Print.antt =====
-- `print` of src/backtrace/mod.rs: whether the backtrace is printed, and the outcome of the run.
pub mod Laws
pub mod Trace
use probe_run.Base.{
  ℕ, ◌%◌, ◌&&◌, ◌||◌, Bool, true, false, Option, none, some, List, [], ◌∷◌, ◌++◌, any, length, ltb,
  ◌==◌, if◌then◌else◌,
}
use probe_run.Base.Text.{Str}
use probe_run.U32.{u32_mod}
use probe_run.Result.{Error}
use probe_run.Backtrace.Outcome
use probe_run.Backtrace.Outcome.{Outcome, is_ok, is_stack_overflow, ctrl_c}
use probe_run.Backtrace.Unwind.{Output, is_exception}
use probe_run.Backtrace.Settings.{Settings, BacktraceOptions, auto, never, always, panic_present}
use probe_run.Backtrace.Symbolicate
use probe_run.Backtrace.Symbolicate.{Frame, Symbols}
use probe_run.Backtrace.Pp
use probe_run.Backtrace.Pp.{Line}

-- what is printed on stderr or logged
pub data Report : Type 0 where
  line : Line → Report
  call_stack_corrupted : Report
  backtrace_error : Error → Report

unfoldable pub wants_backtrace : Settings → Output → Bool
wants_backtrace settings unwind = elim settings.backtrace [
  | never ↦ false
  | always ↦ true
  | auto ↦
      panic_present settings
      || is_stack_overflow unwind.outcome
      || unwind.corrupted
      || any is_exception unwind.raw_frames
]

-- `0` disables the limit; the number of frames is cast to 32 bits
unfoldable pub effective_limit : ℕ → ℕ → ℕ
effective_limit limit frames = if limit == 0 then frames % u32_mod else limit

abbrev pub as_reports : List Line → List Report
as_reports [] = []
as_reports (l ∷ rest) = line l ∷ as_reports rest

abbrev pub error_report : Option Error → List Report
error_report none = []
error_report (some e) = backtrace_error e ∷ []

unfoldable pub final_outcome : Settings → Outcome → Outcome
final_outcome settings outcome =
    if settings.halted_due_to_signal && is_ok outcome then ctrl_c else outcome

-- The part behind the unwinding: the reports in their order, and the outcome.
unfoldable pub print :
    (bold dimmed : Str → Str) → Symbols → Settings → Output → List Report × Outcome
unfolding wants_backtrace effective_limit final_outcome
print bold dimmed symbols settings unwind =
    let frames = Symbolicate.frames symbols unwind.raw_frames in
    let limit = effective_limit settings.backtrace_limit (length frames) in
    let limited = record settings { backtrace_limit = limit } in
    let reports : List Report =
      as_reports (Pp.backtrace bold dimmed limited frames)
      ++ ((if unwind.corrupted then call_stack_corrupted ∷ [] else [])
          ++ error_report unwind.processing_error) in
    (
      if wants_backtrace settings unwind && ltb 0 limit then reports else [],
      final_outcome settings unwind.outcome,
    )
