-- ===== src/Backtrace/Symbolicate/Laws.antt =====
-- How the frames of src/backtrace/symbolicate.rs belong to the raw frames of the unwinder.
use mathlib.Core.Option.{some-injective}
use probe_run.Base.{
  ℕ, ◌≡◌, ◌≢◌, ◌⊎◌, inl, inr, refl, sym, Bool, true, false, not, Option, none, some, List, [], ◌∷◌,
  ◌++◌, map, any, All, if◌then◌else◌,
}
use probe_run.Base.Opt.{>>=-eq-some, ◌>>=◌}
use probe_run.Base.Text.{Str, str_eq}
use probe_run.Backtrace.Unwind.{RawFrame}
use probe_run.Backtrace.Symbolicate.{
  Symbols, Frame, Subroutine, Function, DebugFrame, exception, subroutine, last,
  has_valid_debuginfo, subroutine_of, from_symtab, from_debuginfo, from_pc, frames,
}

-- The outermost function of the debug information for an address is live.
abbrev pub IsLive : Symbols → List DebugFrame → Type 0
IsLive symbols found =
    (outermost : DebugFrame) × (function : Function) × (name : Str) × (last found ≡ some outermost)
    × (outermost.function ≡ some function)
    × (function.raw_name ≡ some name)
    × (any (λ l. str_eq l name) symbols.live_functions ≡ true)

has_valid_debuginfo-IsLive :
    (symbols : Symbols) (found : List DebugFrame)
    → has_valid_debuginfo symbols found ≡ some true
    → IsLive symbols found
unfolding has_valid_debuginfo
has_valid_debuginfo-IsLive symbols found h = by_function (last found >>= λ f. f.function) refl h
  where
    by_name :
        (outermost : DebugFrame) (function : Function) (name : Str)
        → last found ≡ some outermost
        → outermost.function ≡ some function
        → function.raw_name ≡ some name
        → ◌≡◌ {A = Option Bool} (some (any (λ l. str_eq l name) symbols.live_functions)) (some true)
        → IsLive symbols found
    by_name outermost function name a b c d =
        (outermost, function, name, a, b, c, some-injective _ _ d)

    by_function :
        (r : Option Function)
        → (last found >>= λ f. f.function) ≡ r
        → ◌≡◌ {A = Option Bool}
            (elim r [
              | none ↦ some false
              | some function ↦ function.raw_name >>= λ name.
                  some (any (λ l. str_eq l name) symbols.live_functions)
            ])
            (some true)
        → IsLive symbols found
    by_function none e k = cc
    by_function (some function) e k =
        let (outermost, is_last, has_function) = >>=-eq-some (last found) (λ f. f.function) e in
        let (name, has_name, live) = >>=-eq-some function.raw_name _ k in
        by_name outermost function name is_last has_function has_name live

-- what is known of the functions at an address
abbrev pub IsDescribed : Symbols → ℕ → List Subroutine → Type 0
IsDescribed symbols pc subs =
    (found : List DebugFrame) × (symbols.find_frames pc ≡ some found)
    × IsLive symbols found
    × (subs ≡ map (subroutine_of symbols pc) found)

from_debuginfo-IsDescribed :
    (symbols : Symbols) (pc : ℕ) (subs : List Subroutine)
    → from_debuginfo symbols pc ≡ some subs
    → IsDescribed symbols pc subs
unfolding from_debuginfo
from_debuginfo-IsDescribed symbols pc subs h = by_found (>>=-eq-some (symbols.find_frames pc) _ h)
  where
    by_valid :
        (found : List DebugFrame) (valid : Bool)
        → symbols.find_frames pc ≡ some found
        → has_valid_debuginfo symbols found ≡ some valid
        → (if not valid then none else some (map (subroutine_of symbols pc) found)) ≡ some subs
        → IsDescribed symbols pc subs
    by_valid found true at checked k =
        (found, at, has_valid_debuginfo-IsLive symbols found checked, sym (some-injective _ _ k))
    by_valid found false at checked k = cc

    by_found :
        (found : List DebugFrame) × (symbols.find_frames pc ≡ some found)
          × ((has_valid_debuginfo symbols found >>= λ valid.
                if not valid then none else some (map (subroutine_of symbols pc) found))
              ≡ some subs)
        → IsDescribed symbols pc subs
    by_found (found, at, k) =
        let (valid, checked, m) = >>=-eq-some (has_valid_debuginfo symbols found) _ k in
        by_valid found valid at checked m

-- The frames of an address: those of the debug information, if its outermost function is live, else one
-- with the name in the symbol table and without a location.
abbrev pub Names : Symbols → ℕ → List Subroutine → Type 0
Names symbols pc subs = IsDescribed symbols pc subs ⊎ (subs ≡ from_symtab symbols pc ∷ [])

from_pc-Names : (symbols : Symbols) (pc : ℕ) → Names symbols pc (from_pc symbols pc)
unfolding from_pc
from_pc-Names symbols pc = by_info symbols.has_debug_info
  where
    by_lookup :
        (r : Option (List Subroutine))
        → ((subs : List Subroutine) → r ≡ some subs → IsDescribed symbols pc subs)
        → Names symbols pc (elim r [ some subs ↦ subs | none ↦ from_symtab symbols pc ∷ [] ])
    by_lookup none h = inr refl
    by_lookup (some subs) h = inl (h subs refl)

    by_info :
        (b : Bool)
        → Names symbols pc (elim (if b then from_debuginfo symbols pc else none) [
          | some subs ↦ subs
          | none ↦ from_symtab symbols pc ∷ []
        ])
    by_info true =
        by_lookup (from_debuginfo symbols pc)
          (λ subs e. from_debuginfo-IsDescribed symbols pc subs e)
    by_info false = inr refl

same_pc :
    (symbols : Symbols) (pc : ℕ) (found : List DebugFrame)
    → All (λ s. s.pc ≡ pc) (map (subroutine_of symbols pc) found)
same_pc symbols pc [] = tt
same_pc symbols pc (f ∷ rest) = (refl, same_pc symbols pc rest)

Names-at :
    (symbols : Symbols) (pc : ℕ) (subs : List Subroutine)
    → Names symbols pc subs
    → (subs ≢ []) × All (λ s. s.pc ≡ pc) subs
unfolding from_symtab
Names-at symbols pc subs (inl ([], at, (f, fn, name, is_last, has, named, live), split)) = cc
Names-at symbols pc subs (inl (g ∷ rest, at, live, split)) =
    rw split ((λ h. cc), same_pc symbols pc (g ∷ rest))
Names-at symbols pc subs (inr split) = rw split ((λ h. cc), (refl, tt))

-- The frames that are shown for the raw frames, in their order: one for an exception, and at least one
-- for an address, all of them at this address.
abbrev pub Shows : Symbols → List RawFrame → List Frame → Type 0
Shows symbols [] shown = shown ≡ []
Shows symbols (RawFrame.exception ∷ rest) shown =
    (later : List Frame) × (shown ≡ exception ∷ later) × Shows symbols rest later
Shows symbols (RawFrame.subroutine pc ∷ rest) shown =
    (here : List Subroutine) × (later : List Frame) × (shown ≡ map subroutine here ++ later)
    × Names symbols pc here
    × (here ≢ [])
    × All (λ s. s.pc ≡ pc) here
    × Shows symbols rest later

-- The frames that are printed stand in the order of the raw frames. An exception entry gives one
-- frame. An address gives at least one, all of them at this address: those of the debug information exactly as
-- it lists them, which happens only if its outermost function is live, or else one named by the symbol
-- table.
pub frames-Shows :
    (symbols : Symbols) (raw : List RawFrame) → Shows symbols raw (frames symbols raw)
unfolding frames
frames-Shows symbols [] = refl
frames-Shows symbols (RawFrame.exception ∷ rest) =
    (frames symbols rest, refl, frames-Shows symbols rest)
frames-Shows symbols (RawFrame.subroutine pc ∷ rest) =
    let names = from_pc-Names symbols pc in
    let (some_frame, at) = Names-at symbols pc (from_pc symbols pc) names in
    (
      from_pc symbols pc,
      frames symbols rest,
      refl,
      names,
      some_frame,
      at,
      frames-Shows symbols rest,
    )
