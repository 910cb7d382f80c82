-- ===== src/Backtrace/Print/Trace.antt =====
-- What `print` of src/backtrace/mod.rs reports of an output of the unwinder.
use probe_run.Base.{
  ◌≡◌, ◌⊎◌, inl, inr, refl, Bool, true, false, ◌&&◌, List, [], ◌∷◌, ◌++◌, length, ltb,
  if◌then◌else◌, arith, Bool-cases,
}
use probe_run.Base.Text.{Str}
use probe_run.Backtrace.Unwind.{Output, RawFrame}
use probe_run.Backtrace.Settings.{Settings}
use probe_run.Backtrace.Symbolicate
use probe_run.Backtrace.Symbolicate.{Symbols, Frame}
use probe_run.Backtrace.Pp.{Line, title}
use probe_run.Backtrace.Pp.Laws.{IsShown, backtrace-IsShown}
use probe_run.Backtrace.Print.{
  Report, call_stack_corrupted, as_reports, error_report, print, effective_limit, wants_backtrace,
}

module _ (bold dimmed : Str → Str) (symbols : Symbols) (settings : Settings) where
  -- the settings with the limit that counts
  abbrev pub limited : List RawFrame → Settings
  limited raw = record settings {
    backtrace_limit =
        effective_limit settings.backtrace_limit (length (Symbolicate.frames symbols raw));
  }

  -- a backtrace of the frames up to the limit, with a note if the stack is corrupted
  abbrev pub IsTrace : Output → List Report → Type 0
  IsTrace unwind reports =
      (lines : List Line) × (reports
        ≡ as_reports (title ∷ lines)
          ++ ((if unwind.corrupted then call_stack_corrupted ∷ [] else [])
              ++ error_report unwind.processing_error))
      × IsShown bold dimmed (limited unwind.raw_frames) 0
          (Symbolicate.frames symbols unwind.raw_frames) lines

  abbrev pub is_shown : Bool → List RawFrame → Bool
  is_shown wanted raw = wanted && ltb 0 (limited raw).backtrace_limit

  pub print-IsTrace :
      (unwind : Output) (wanted : Bool)
      → wants_backtrace settings unwind ≡ wanted
      → ((is_shown wanted unwind.raw_frames ≡ false)
          × ((print bold dimmed symbols settings unwind).0 ≡ []))
        ⊎ ((is_shown wanted unwind.raw_frames ≡ true)
            × IsTrace unwind ((print bold dimmed symbols settings unwind).0))
  unfolding print
  print-IsTrace unwind wanted same = elim (Bool-cases (is_shown wanted unwind.raw_frames)) [
    | inr off ↦ inl (off, rw same (rw off refl))
    | inl on ↦
        let raw = unwind.raw_frames in
        let (lines, printed, shown) =
          backtrace-IsShown bold dimmed (limited raw) (Symbolicate.frames symbols raw)
            (ground arith) in
        inr (on, (lines, rw same (rw on (rw printed refl)), shown))
  ]
