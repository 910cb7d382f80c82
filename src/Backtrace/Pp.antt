-- ===== src/Backtrace/Pp.antt =====
-- src/backtrace/pp.rs: the backtrace as the lines that are printed and the warnings that are
-- logged. Colours and the layout inside a line are left out, and so are errors in writing to stderr.
pub mod Laws
use probe_run.Base.{
  ℕ, ◌+◌, Bool, true, false, ◌||◌, Option, none, some, List, [], ◌∷◌, ◌++◌, leb, is_none,
  if◌then◌else◌,
}
use probe_run.Base.Text.{Str, str}
use probe_run.Dep.Recognise
use probe_run.Backtrace.Settings.{Settings}
use probe_run.Backtrace.Symbolicate.{Frame, exception, subroutine, Subroutine, Location}

pub data Line : Type 0 where
  title : Line
  exception_entry : Line
  -- the index, the address if it is shown, the name, and whether the line is bold
  entry : ℕ → Option ℕ → Str → Bool → Line
  -- the path, the line and the column
  at : Str → ℕ → Option ℕ → Line
  -- the two warnings at the limit
  limit_reached : ℕ → Line

abbrev pub shown_name : Option Str → Str
shown_name none = str "<unknown>"
shown_name (some name) = name

abbrev pub is_local : Option Location → Bool
is_local none = false
is_local (some location) = location.path_is_relative

module _ (bold dimmed : Str → Str) (settings : Settings) where
  unfoldable pub entry_line : ℕ → Subroutine → Line
  entry_line frame_index sub =
      entry frame_index
        (if settings.include_addresses || is_none sub.name then some sub.pc else none)
        (shown_name sub.name) (is_local sub.location)

  unfoldable pub location_lines : Option Location → List Line
  location_lines none = []
  location_lines (some location) =
      let path = Recognise.from_std_path location.path in
      at
        (if settings.shorten_paths
          then Recognise.format_short path
          else Recognise.format_highlight bold dimmed path)
        location.line location.column
      ∷ []

  unfoldable pub frame_lines : ℕ → Subroutine → List Line
  unfolding entry_line location_lines
  frame_lines frame_index sub = entry_line frame_index sub ∷ location_lines sub.location

  -- the loop, from the frame with the given index on
  unfoldable pub print_frames : ℕ → List Frame → List Line
  print_frames frame_index [] = []
  print_frames frame_index (exception ∷ rest) = exception_entry ∷ print_frames frame_index rest
  print_frames frame_index (subroutine sub ∷ rest) =
      let more = print_frames (frame_index + 1) rest in
      frame_lines frame_index sub
      ++ (if leb settings.backtrace_limit (frame_index + 1)
          then limit_reached settings.backtrace_limit ∷ []
          else more)

  unfoldable pub backtrace : List Frame → List Line
  unfolding print_frames frame_lines
  backtrace frames = title ∷ print_frames 0 frames
