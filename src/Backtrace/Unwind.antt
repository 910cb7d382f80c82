-- ===== src/Backtrace/Unwind.antt =====
-- src/backtrace/unwind.rs: virtual unwinding of the stopped program. The loop runs on fuel; `gimli`
-- parses the debug frames.
pub mod Find
pub mod Step
pub mod Report
pub mod Terminates
pub mod Diverges
pub mod Chain
pub mod Target
use probe_run.Base.{
  ℕ, zero, suc, ◌+◌, Bool, true, false, not, ◌&&◌, ◌||◌, Option, none, some, List, [], ◌∷◌, ◌++◌,
  ltb, leb, ◌==◌, in_range, in_closed, if◌then◌else◌,
}
use probe_run.Base.Bits.{bit_and}
use probe_run.Result.{Error, Result, ok, err, panic, assertion, missing_debug_info, no_thumb_bit}
use probe_run.U32.{Profile, add_u32, saturate_u32}
use probe_run.Exec.{Exec, pure, lift, ◌>>=◌, ◌>>◌}
use probe_run.Core.{Core}
use probe_run.Cortexm.{
  VectorTable, is_hard_fault, subroutine_eq, clear_thumb_bit, is_thumb_bit_set, exc_return_marker,
  exc_return_ftype_mask, valid_ram_start, valid_ram_end,
}
use probe_run.Registers
use probe_run.Registers.{Registers, RegisterRule, lr_reg, pc_reg, sp_reg, on_core}
use probe_run.Stacked
use probe_run.Stacked.{Stacked}
use probe_run.TargetInfo.{RamRegion}
use probe_run.Elf.DebugFrame.{Fde, Row, DebugFrame}
use probe_run.Backtrace.Outcome
use probe_run.Backtrace.Outcome.{Outcome}
use Find.{find_fde}

pub data RawFrame : Type 0 where
  subroutine : ℕ → RawFrame
  exception : RawFrame

abbrev pub is_exception : RawFrame → Bool
is_exception exception = true
is_exception (subroutine pc) = false

pub record Output : Type 0 where
  pub corrupted : Bool
  pub outcome : Outcome
  pub raw_frames : List RawFrame
  pub processing_error : Option Error

-- what the loop reads of the image and of the target
pub record Context : Type 0 where
  pub profile : Profile
  pub vector_table : VectorTable
  pub debug_frame : DebugFrame
  pub reset_fn_start : ℕ
  pub reset_fn_end : ℕ
  pub active_ram_region : Option RamRegion
  pub stack_start : ℕ

-- whether a round of the loop goes on, at which address, or leaves it
pub data Flow : Type 0 where
  next : ℕ → Output → Flow
  done : Output → Flow

unfoldable pub overflowed_stack : ℕ → Option RamRegion → Bool
overflowed_stack sp none = false
overflowed_stack sp (some region) = not (in_closed region.start region.end sp)

abbrev pub is_nil : List RawFrame → Bool
is_nil [] = true
is_nil (frame ∷ rest) = false

unfoldable pub check_hard_fault :
    ℕ → VectorTable → Output → ℕ → Option RamRegion → Result (Option Outcome)
unfolding overflowed_stack
check_hard_fault pc vector_table output sp region =
    if is_hard_fault pc vector_table
    then (if is_nil output.raw_frames
        then ok (
            some
              (if overflowed_stack sp region then Outcome.stack_overflow else Outcome.hard_fault))
        else panic assertion)
    else ok none

abbrev pub set_outcome : Output → Option Outcome → Output
set_outcome output none = output
set_outcome output (some outcome) = record output { outcome = outcome }

abbrev pub push : Output → RawFrame → Output
push output frame = record output { raw_frames = output.raw_frames ++ frame ∷ [] }

abbrev pub with_error : Output → Error → Output
with_error output e = record output { processing_error = some e }

abbrev pub corrupt : Output → Output
corrupt output = record output { corrupted = true }

-- `unwind_info_for_address` with the context that replaces its error
unfoldable pub row_at : Fde → ℕ → Result Row
row_at f pc = elim (f.row pc) [
  | ok row ↦ ok row
  | err e ↦ err (missing_debug_info pc)
  | panic p ↦ panic p
]

abbrev pub ram_bounds : Option RamRegion → ℕ × ℕ
ram_bounds none = (valid_ram_start, valid_ram_end)
ram_bounds (some region) = (saturate_u32 region.start, saturate_u32 region.end)

module _ {S A : Type 0} where
  abbrev pub return_output : Output → Result A → (A → Exec S Flow) → Exec S Flow
  return_output output (ok a) k s = k a s
  return_output output (err e) k s = (ok (done (with_error output e)), s)
  return_output output (panic p) k s = (panic p, s)

  -- `unwrap_or_return_output!`
  abbrev pub unwrap_or_return : Output → Exec S A → (A → Exec S Flow) → Exec S Flow
  unwrap_or_return output m k s = let (r, s') = m s in return_output output r k s'

-- a stack pointer above the start of the stack is corrupt; an error in reading it is ignored
abbrev pub judge_sp : (stack_start pc : ℕ) → Output → Result ℕ → Result Flow
judge_sp stack_start pc output (ok sp) =
    ok (if ltb stack_start sp then done (corrupt output) else next pc output)
judge_sp stack_start pc output (err e) = ok (next pc output)
judge_sp stack_start pc output (panic p) = panic p

module _ {core : Core} (ctx : Context) where
  -- the rules of a row, up to the first that fails
  unfoldable pub update_all : List (ℕ × RegisterRule) → Exec (Registers core) (Unit {0})
  update_all [] = pure tt
  update_all ((reg, rule) ∷ rest) = Registers.update ctx.profile reg rule >> update_all rest

  -- the end of a round
  unfoldable pub check_sp : ℕ → Output → Exec (Registers core) Flow
  check_sp pc output regs =
      let (r, regs') = Registers.get sp_reg regs in (judge_sp ctx.stack_start pc output r, regs')

  -- the registers that the hardware stacked take over
  unfoldable pub unstack : ℕ → Output → Option Stacked → Exec (Registers core) Flow
  unfolding check_sp
  unstack sp output none = pure (done (corrupt output))
  unstack sp output (some stacked) = do
    Registers.insert lr_reg stacked.lr
    sp' ← lift (add_u32 ctx.profile sp (Stacked.size stacked))
    Registers.insert sp_reg sp'
    check_sp stacked.pc output

  -- the stacked registers; a clear FTYPE bit means that those of the FPU are among them
  unfoldable pub read_stacked : (lr sp : ℕ) → Exec (Registers core) (Option Stacked)
  read_stacked lr sp =
      let bounds = ram_bounds ctx.active_ram_region in
      on_core
        (Stacked.read core ctx.profile sp (bit_and lr exc_return_ftype_mask == 0) bounds.0 bounds.1)

  unfoldable pub enter_exception : ℕ → Output → Exec (Registers core) Flow
  unfolding unstack read_stacked
  enter_exception lr output =
      unwrap_or_return output (Registers.get sp_reg)
        λ sp. unwrap_or_return output (read_stacked lr sp) (unstack sp output)

  -- from the link register to the next frame
  unfoldable pub advance : ℕ → Bool → Output → ℕ → Exec (Registers core) Flow
  unfolding enter_exception check_sp
  advance pc cfa_changed output lr =
      if not cfa_changed && subroutine_eq lr pc
      then pure (
          done (record output {
            corrupted = not (
                in_range ctx.reset_fn_start ctx.reset_fn_end pc
                || not (ltb ctx.reset_fn_start ctx.reset_fn_end));
          }))
      else if leb exc_return_marker lr
      then enter_exception lr (push output exception)
      else if is_thumb_bit_set lr
      then check_sp (clear_thumb_bit lr) output
      else pure (done (with_error output (no_thumb_bit lr)))

  -- the steps between pushing the frame and reading the link register
  unfoldable pub unwind_frame : ℕ → Output → Exec (Registers core) Flow
  unfolding advance update_all
  unwind_frame pc output = unwrap_or_return output (lift (find_fde ctx.debug_frame pc)) λ f.
      unwrap_or_return output (lift (row_at f pc)) λ row.
        unwrap_or_return output (Registers.update_cfa ctx.profile row.cfa) λ cfa_changed.
          unwrap_or_return output (update_all row.registers)
            λ _. unwrap_or_return output (Registers.get lr_reg) (advance pc cfa_changed output)

  -- one round of the loop; `sp` is the stack pointer at which the program stopped
  unfoldable pub round : ℕ → ℕ → Output → Exec (Registers core) Flow
  unfolding unwind_frame check_hard_fault
  round sp pc output = do
    outcome ← lift (check_hard_fault pc ctx.vector_table output sp ctx.active_ram_region)
    unwind_frame pc (push (set_outcome output outcome) (subroutine pc))

  -- the loop; `none` means that the fuel ran out
  unfoldable pub unwind : ℕ → ℕ → ℕ → Output → Exec (Registers core) (Option Output)
  unwind zero sp pc output = pure none
  unwind (suc fuel) sp pc output = do
    flow ← round sp pc output
    elim flow [ next pc' output' ↦ unwind fuel sp pc' output' | done output' ↦ pure (some output') ]

abbrev pub start : Output
start = record { corrupted = true; outcome = Outcome.ok; raw_frames = []; processing_error = none }

module _ (core : Core) (ctx : Context) where
  -- the three register reads at the start return the output as it stands on an error
  unfoldable pub read_or_return :
      ℕ → (ℕ → Exec core.State (Option Output)) → Exec core.State (Option Output)
  read_or_return reg k s =
      let (r, s') = core.read_core_reg reg s in
      elim r [
        | ok val ↦ k val s'
        | err e ↦ (ok (some (with_error start e)), s')
        | panic p ↦ (panic p, s')
      ]

  -- the loop on a cache of its own, which is dropped at the end
  unfoldable pub unwind_core : ℕ → (pc sp lr : ℕ) → Exec core.State (Option Output)
  unfolding unwind
  unwind_core fuel pc sp lr s =
      let (r, regs) = unwind ctx fuel sp pc start (Registers.new {core = core} lr sp s) in
      (r, regs.device)

  unfoldable pub target : ℕ → Exec core.State (Option Output)
  unfolding read_or_return unwind_core
  target fuel =
      read_or_return pc_reg
        λ pc. read_or_return sp_reg λ sp. read_or_return lr_reg λ lr. unwind_core fuel pc sp lr
