-- ===== src/Tests/Printing.antt =====
-- The printed backtrace at concrete inputs.
use probe_run.Base.{
  ◌+◌, ◌≡◌, refl, false, true, ◌==◌, if◌then◌else◌, none, some, List, [], ◌∷◌, ◌++◌, arith, leb,
  length,
}
use probe_run.Base.Text.{Str, str}
use probe_run.Backtrace.Outcome
use probe_run.Backtrace.Outcome.{exit_code, is_stack_overflow}
use probe_run.Backtrace.Unwind.{Output, is_exception}
use probe_run.Backtrace.Unwind
use probe_run.Backtrace.Settings.{Settings, auto}
use probe_run.Backtrace.Symbolicate.{Frame, Symbols, exception, subroutine}
use probe_run.Backtrace.Symbolicate
use probe_run.Backtrace.Symbolicate.Laws.{Shows, frames-Shows}
use probe_run.Backtrace.Pp.{Line, title, backtrace}
use probe_run.Backtrace.Pp.Laws.{backtrace-IsShown, IsShown, all_lines, warning, subroutines}
use probe_run.Backtrace.Print.{effective_limit}
use probe_run.Backtrace.Print.Laws.{unlimited_shows_all}

abbrev plain : Str → Str
plain s = s

abbrev settings : Settings
settings = record {
  backtrace_limit = 2;
  backtrace = auto;
  halted_due_to_signal = false;
  include_addresses = false;
  shorten_paths = false;
  stack_overflow = false;
}

abbrev frame_named : Str → Frame
frame_named name = subroutine (record { name = some name; pc = 0x400; location = none })

abbrev frames : List Frame
frames =
    frame_named (str "panic")
    ∷ exception
    ∷ frame_named (str "main")
    ∷ frame_named (str "Reset")
    ∷ []

backtrace-IsShown_example :
    (lines : List Line) × (backtrace plain plain settings frames ≡ title ∷ lines)
    × IsShown plain plain settings 0 frames lines
backtrace-IsShown_example = backtrace-IsShown plain plain settings frames (omega arith)

abbrev two_frames : List Frame
two_frames = frame_named (str "main") ∷ frame_named (str "Reset") ∷ []

unlimited : settings.backtrace_limit ≡ effective_limit 0 (length two_frames)
unfolding effective_limit
unlimited = refl

unlimited_shows_all_example :
    backtrace plain plain settings two_frames
    ≡ title
      ∷ (all_lines plain plain settings 0 two_frames
          ++ warning plain plain settings (leb (length two_frames) (0 + subroutines two_frames)))
unlimited_shows_all_example =
    unlimited_shows_all plain plain settings two_frames (omega arith) (omega arith) unlimited

abbrev symbols : Symbols
symbols = record {
  has_debug_info = false;
  find_frames = λ pc. none;
  symbol_at = λ pc. some (str "main");
  strip_prefix = λ path. none;
  live_functions = [];
}

abbrev unwound : Output
unwound = record {
  corrupted = false;
  outcome = Outcome.hard_fault;
  raw_frames = Unwind.subroutine 0x700 ∷ Unwind.exception ∷ Unwind.subroutine 0x400 ∷ [];
  processing_error = none;
}

-- an inlined function in `main`, which is live
abbrev described : Symbols
described = record symbols {
  has_debug_info = true;
  find_frames = λ pc.
      if pc == 0x400
      then some (
          record {
            function = some (record { raw_name = some (str "helper"); demangled = none });
            location = none;
          }
          ∷ record {
            function =
                some (record { raw_name = some (str "main"); demangled = some (str "main") });
            location = none;
          }
          ∷ [])
      else none;
  live_functions = str "main" ∷ [];
}

frames-Shows_example :
    Shows described unwound.raw_frames (Symbolicate.frames described unwound.raw_frames)
frames-Shows_example = frames-Shows described unwound.raw_frames
