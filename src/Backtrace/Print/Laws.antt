-- ===== src/Backtrace/Print/Laws.antt =====
-- What `print` of src/backtrace/mod.rs reports, and the exit code of a run.
use Prim.Native.Nat.{min}
use mathlib.Core.List.{append-nil}
use probe_run.Base.{
  ℕ, ◌+◌, ◌≤◌, ◌<◌, ◌≡◌, ◌↔◌, refl, sym, ap, ◌∙◌, Bool, true, false, ◌||◌, ◌&&◌, List, [], ◌∷◌,
  ◌++◌, leb, ltb, ◌==◌, length, length-append, any, if◌then◌else◌, arith, Bool-cases, inl, inr,
}
use probe_run.Base.Text.{Str}
use probe_run.U32.{u32_mod}
use probe_run.Backtrace.Outcome.{Outcome, exit_code, is_ok, is_stack_overflow}
use probe_run.Backtrace.Unwind.{Output, is_exception}
use probe_run.Backtrace.Settings.{Settings, auto, panic_present}
use probe_run.Backtrace.Symbolicate.{Frame, exception, subroutine, Symbols}
use probe_run.Backtrace.Pp.{Line, title, backtrace}
use probe_run.Backtrace.Pp.Laws.{subroutines, all_lines, warning, backtrace-IsShown, IsShown}
use probe_run.Backtrace.Print.{Report, print, effective_limit, final_outcome, wants_backtrace}

subroutines-append : (xs ys : List Frame) → subroutines (xs ++ ys) ≡ subroutines xs + subroutines ys
subroutines-append [] ys = omega arith
subroutines-append (exception ∷ xs) ys = subroutines-append xs ys
subroutines-append (subroutine s ∷ xs) ys = omega (arith, subroutines-append xs ys)

subroutines-le : (xs : List Frame) → subroutines xs ≤ length xs
subroutines-le [] = omega arith
subroutines-le (exception ∷ xs) = omega (arith, subroutines-le xs)
subroutines-le (subroutine s ∷ xs) = omega (arith, subroutines-le xs)

nil_of_length : (xs : List Frame) → length xs ≡ 0 → xs ≡ []
nil_of_length [] h = refl
nil_of_length (x ∷ xs) h = absurd (omega arith)

none_hidden :
    (frames shown hidden : List Frame)
    → frames ≡ shown ++ hidden
    → subroutines shown ≡ subroutines frames
    → (subroutines frames < length frames → hidden ≡ [])
    → hidden ≡ []
none_hidden frames shown hidden split count all =
    elim (Bool-cases (ltb (subroutines frames) (length frames))) [
      | inl fewer ↦ all (ground arith)
      | inr as_many ↦
          let full : length frames ≤ subroutines frames = ground arith in
          nil_of_length hidden (
            omega (
              arith,
              count,
              full,
              ap length split,
              ap subroutines split,
              length-append shown hidden,
              subroutines-append shown hidden,
              subroutines-le frames,
              subroutines-le shown,
              subroutines-le hidden,
            ))
    ]

-- The exit codes: SIGABRT for a fault, else SIGINT where a signal ended the wait, else 0. The unwinder
-- itself never finds `ctrl_c`.
abbrev pub code_of : Outcome → (halted : Bool) → ℕ
code_of Outcome.hard_fault halted = 6
code_of Outcome.stack_overflow halted = 6
code_of Outcome.ctrl_c halted = 2
code_of Outcome.ok true = 2
code_of Outcome.ok false = 0

-- the code 0, which both a fault and a signal exclude
pub code_of-eq-zero :
    (o : Outcome) (halted : Bool) → code_of o halted ≡ 0 → (o ≡ Outcome.ok) × (halted ≡ false)
code_of-eq-zero Outcome.hard_fault halted h = cc
code_of-eq-zero Outcome.stack_overflow halted h = cc
code_of-eq-zero Outcome.ctrl_c halted h = cc
code_of-eq-zero Outcome.ok true h = cc
code_of-eq-zero Outcome.ok false h = (refl, refl)

module _ (bold dimmed : Str → Str) (settings : Settings) where
  unlimited_lines :
      (frames shown hidden : List Frame) (lines : List Line)
      → settings.backtrace_limit ≡ length frames
      → frames ≡ shown ++ hidden
      → lines
        ≡ all_lines bold dimmed settings 0 shown
          ++ warning bold dimmed settings (leb settings.backtrace_limit (0 + subroutines frames))
      → 0 + subroutines shown ≡ min settings.backtrace_limit (0 + subroutines frames)
      → (0 + subroutines frames < settings.backtrace_limit → hidden ≡ [])
      → lines
        ≡ all_lines bold dimmed settings 0 frames
          ++ warning bold dimmed settings (leb (length frames) (0 + subroutines frames))
  unlimited_lines frames shown hidden lines limit split text count all =
      let empty : hidden ≡ [] =
        none_hidden frames shown hidden split (omega (arith, count, limit, subroutines-le frames))
          (λ k. all (omega (arith, limit))) in
      let whole : frames ≡ shown = rw split (rw empty (append-nil shown)) in
      text
      ∙ ap
          (λ n.
            all_lines bold dimmed settings 0 shown
            ++ warning bold dimmed settings (leb n (0 + subroutines frames)))
          limit
      ∙ ap
          (λ fs.
            all_lines bold dimmed settings 0 fs
            ++ warning bold dimmed settings (leb (length frames) (0 + subroutines frames)))
          (sym whole)

  -- With the limit off (an option of 0), at least one frame and fewer than a 32-bit number counts,
  -- every frame is shown; the warning that the limit cut off the rest is given all the same, exactly when no
  -- frame is an exception entry.
  pub unlimited_shows_all :
      (frames : List Frame)
      → 0 < length frames
      → length frames < u32_mod
      → settings.backtrace_limit ≡ effective_limit 0 (length frames)
      → backtrace bold dimmed settings frames
        ≡ title
          ∷ (all_lines bold dimmed settings 0 frames
              ++ warning bold dimmed settings (leb (length frames) (0 + subroutines frames)))
  unfolding effective_limit
  unlimited_shows_all frames pos small unlimited =
      let limit : settings.backtrace_limit ≡ length frames = omega arith in
      shown_all limit (backtrace-IsShown bold dimmed settings frames (omega (arith, limit)))
    where
      shown_all :
          settings.backtrace_limit ≡ length frames
          → (lines : List Line) × (backtrace bold dimmed settings frames ≡ title ∷ lines)
            × IsShown bold dimmed settings 0 frames lines
          → backtrace bold dimmed settings frames
            ≡ title
              ∷ (all_lines bold dimmed settings 0 frames
                  ++ warning bold dimmed settings (leb (length frames) (0 + subroutines frames)))
      shown_all limit (lines, printed, (shown, hidden, split, text, count, all)) =
          printed
          ∙ ap (λ l. title ∷ l)
              (unlimited_lines frames shown hidden lines limit split text count all)

  -- the exit code, by what the unwinder found and by what ended the wait
  pub print-code_of :
      (symbols : Symbols) (unwind : Output)
      → exit_code ((print bold dimmed symbols settings unwind).1)
        ≡ code_of unwind.outcome settings.halted_due_to_signal
  unfolding print final_outcome exit_code
  print-code_of symbols unwind = decide unwind.outcome settings.halted_due_to_signal
    where
      decide :
          (o : Outcome) (halted : Bool)
          → exit_code (if halted && is_ok o then Outcome.ctrl_c else o) ≡ code_of o halted
      decide Outcome.ok true = refl
      decide Outcome.ok false = refl
      decide Outcome.hard_fault true = refl
      decide Outcome.hard_fault false = refl
      decide Outcome.stack_overflow true = refl
      decide Outcome.stack_overflow false = refl
      decide Outcome.ctrl_c true = refl
      decide Outcome.ctrl_c false = refl

  silent_iff :
      (a b c d : Bool) (first : Report) (reports : List Report)
      → ((if (a || b || c || d) && true then first ∷ reports else []) ≡ [])
        ↔ ((a ≡ false) × (b ≡ false) × (c ≡ false) × (d ≡ false))
  silent_iff true b c d first reports = ((λ h. cc), (λ (h, k, l, m). cc))
  silent_iff false true c d first reports = ((λ h. cc), (λ (h, k, l, m). cc))
  silent_iff false false true d first reports = ((λ h. cc), (λ (h, k, l, m). cc))
  silent_iff false false false true first reports = ((λ h. cc), (λ (h, k, l, m). cc))
  silent_iff false false false false first reports = ((λ h. (refl, refl, refl, refl)), (λ h. refl))

  -- In the automatic mode, with a limit above zero, nothing is reported exactly if there is no
  -- panic, no signal, no stack overflow, no corrupt stack and no exception frame.
  pub print-auto_silent_iff :
      (symbols : Symbols) (unwind : Output)
      → settings.backtrace ≡ auto
      → 0 < settings.backtrace_limit
      → ((print bold dimmed symbols settings unwind).0 ≡ []) ↔ (
          (panic_present settings ≡ false)
          × (is_stack_overflow unwind.outcome ≡ false)
          × (unwind.corrupted ≡ false)
          × (any is_exception unwind.raw_frames ≡ false))
  unfolding print effective_limit wants_backtrace backtrace
  print-auto_silent_iff symbols unwind mode positive =
      let limit : (settings.backtrace_limit == 0) ≡ false = ground arith in
      let on : ltb 0 settings.backtrace_limit ≡ true = ground arith in
      rw mode (rw limit (rw on (silent_iff _ _ _ _ _ _)))
