-- ===== src/Backtrace/Symbolicate.antt =====
-- src/backtrace/symbolicate.rs: names and locations for the frames. The `addr2line` and `object`
-- crates answer by the argument `Symbols`.
pub mod Laws
use probe_run.Base.{
  ℕ, Bool, true, false, not, Option, none, some, List, [], ◌∷◌, ◌++◌, map, if◌then◌else◌, any,
}
use probe_run.Base.Text.{Str, str_eq}
use probe_run.Base.Opt.{◌>>=◌}
use probe_run.Cortexm.{set_thumb_bit}
use probe_run.Dep.StdPath.{StdPath}
use probe_run.Backtrace.Unwind.{RawFrame}

pub record Location : Type 0 where
  pub column : Option ℕ
  pub path_is_relative : Bool
  pub line : ℕ
  pub path : StdPath

pub record Subroutine : Type 0 where
  pub name : Option Str
  pub pc : ℕ
  pub location : Option Location

pub data Frame : Type 0 where
  exception : Frame
  subroutine : Subroutine → Frame

-- a function of the debug information: its raw and its demangled name, if they can be read
pub record Function : Type 0 where
  pub raw_name : Option Str
  pub demangled : Option Str

-- `addr2line::Location`
pub record DebugLocation : Type 0 where
  pub file : Option StdPath
  pub line : Option ℕ
  pub column : Option ℕ

-- `addr2line::Frame`
pub record DebugFrame : Type 0 where
  pub function : Option Function
  pub location : Option DebugLocation

-- `find_frames` is `none` if the lookup fails; `symbol_at` is the demangled name that the symbol
-- table holds for an address, `has_debug_info` whether an `addr2line` context could be made.
pub record Symbols : Type 0 where
  pub has_debug_info : Bool
  pub find_frames : ℕ → Option (List DebugFrame)
  pub symbol_at : ℕ → Option Str
  pub strip_prefix : StdPath → Option StdPath
  pub live_functions : List Str

-- The lookup sets the Thumb bit, as the symbol table has it.
unfoldable pub name_from_symtab : Symbols → ℕ → Option Str
name_from_symtab symbols pc = symbols.symbol_at (set_thumb_bit pc)

unfoldable pub from_symtab : Symbols → ℕ → Subroutine
unfolding name_from_symtab
from_symtab symbols pc = record { name = name_from_symtab symbols pc; pc = pc; location = none }

abbrev pub last : List DebugFrame → Option DebugFrame
last [] = none
last (f ∷ []) = some f
last (f ∷ g ∷ rest) = last (g ∷ rest)

-- `raw_name().ok()?`: an unreadable name ends the whole lookup
unfoldable pub has_valid_debuginfo : Symbols → List DebugFrame → Option Bool
has_valid_debuginfo symbols frames = elim (do f ← last frames; f.function) [
  | none ↦ some false
  | some function ↦ (do
    name ← function.raw_name
    some (any (λ live. str_eq live name) symbols.live_functions))
]

unfoldable pub name_of : Symbols → ℕ → DebugFrame → Option Str
unfolding name_from_symtab
name_of symbols pc frame = elim (do function ← frame.function; function.demangled) [
  | some name ↦ some name
  | none ↦ name_from_symtab symbols pc
]

unfoldable pub location_of : Symbols → DebugFrame → Option Location
location_of symbols frame = do
  loc ← frame.location
  file ← loc.file
  line ← loc.line
  some (elim (symbols.strip_prefix file) [
    | some relpath ↦ record {
      column = loc.column;
      path_is_relative = true;
      line = line;
      path = relpath;
    }
    | none ↦ record { column = loc.column; path_is_relative = false; line = line; path = file }
  ])

abbrev pub subroutine_of : Symbols → ℕ → DebugFrame → Subroutine
subroutine_of symbols pc frame = record {
  name = name_of symbols pc frame;
  pc = pc;
  location = location_of symbols frame;
}

unfoldable pub from_debuginfo : Symbols → ℕ → Option (List Subroutine)
unfolding has_valid_debuginfo name_of location_of
from_debuginfo symbols pc = do
  frames ← symbols.find_frames pc
  valid ← has_valid_debuginfo symbols frames
  if not valid then none else some (map (subroutine_of symbols pc) frames)

unfoldable pub from_pc : Symbols → ℕ → List Subroutine
unfolding from_debuginfo from_symtab
from_pc symbols pc = elim (if symbols.has_debug_info then from_debuginfo symbols pc else none) [
  | some subroutines ↦ subroutines
  | none ↦ from_symtab symbols pc ∷ []
]

unfoldable pub frames : Symbols → List RawFrame → List Frame
frames symbols [] = []
frames symbols (RawFrame.exception ∷ rest) = exception ∷ frames symbols rest
frames symbols (RawFrame.subroutine pc ∷ rest) =
    map subroutine (from_pc symbols pc) ++ frames symbols rest
