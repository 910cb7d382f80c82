-- ===== src/Backtrace/Unwind/Find.antt =====
-- `find_fde` of src/backtrace/unwind.rs, over the entries that gimli parses.
pub mod Laws
use probe_run.Base.{ℕ, suc, List, [], ◌∷◌, ◌++◌, ◌==◌, if◌then◌else◌, length}
use probe_run.Result.{Result, ok, err, missing_debug_info, overlapping_fdes, ◌>>=◌}
use probe_run.Elf.DebugFrame.{Fde, cie, fde, DebugFrame, covers}

-- The loop: entries at address 0 are dead code and are passed over.
unfoldable pub collect : ℕ → DebugFrame → List Fde → Result (List Fde)
collect addr [] fdes = ok fdes
collect addr (next ∷ rest) fdes = do
  entry ← next
  elim entry [
    | cie ↦ collect addr rest fdes
    | fde partial ↦ (do
      f ← partial
      collect addr rest
          (if f.initial_address == 0 then fdes else if covers f addr then fdes ++ f ∷ [] else fdes))
  ]

unfoldable pub pick : ℕ → List Fde → Result Fde
pick addr [] = err (missing_debug_info addr)
pick addr (f ∷ []) = ok f
pick addr (f ∷ g ∷ rest) = err (overlapping_fdes (suc (suc (length rest))) addr)

unfoldable pub find_fde : DebugFrame → ℕ → Result Fde
unfolding collect pick
find_fde debug_frame addr = do fdes ← collect addr debug_frame []; pick addr fdes
