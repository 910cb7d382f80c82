-- ===== src/Backtrace/Unwind/Chain.antt =====
-- The calls that are under way when a program stops, as its stack and the debug frames record them:
-- what src/backtrace/unwind.rs is to find.
pub mod Rules
pub mod Advance
pub mod Loop
pub mod Complete
use probe_run.Base.{
  ℕ, suc, ◌+◌, ◌≤◌, ◌<◌, ◌≡◌, ◌≢◌, true, false, some, List, [], ◌∷◌, ◌==◌, if◌then◌else◌,
}
use probe_run.Base.Int.{ℤ, pos, negsuc}
use probe_run.Base.Bits.{bit_and}
use probe_run.Result.{ok}
use probe_run.U32.{u32_mod}
use probe_run.Core.{Core}
use probe_run.Cortexm.{
  is_hard_fault, subroutine_eq, is_thumb_bit_set, clear_thumb_bit, exc_return_marker,
}
use probe_run.Registers.{
  RegisterRule, offset, undefined, other, register_and_offset, sp_reg, lr_reg,
}
use probe_run.Elf.DebugFrame.{Fde, Row}
use probe_run.Backtrace.Unwind.{Context, RawFrame, subroutine, exception, ram_bounds}
use probe_run.Backtrace.Unwind.Find.{find_fde}

-- the place of a saved register, relative to the frame address
abbrev pub Slot : (cfa : ℕ) → ℤ → (addr : ℕ) → Type 0
Slot cfa (pos j) addr = (cfa + j ≡ addr) × (addr < u32_mod)
Slot cfa (negsuc j) addr = addr + suc j ≡ cfa

-- The bytes that the hardware stacks at an exception: eight words, or 25 with those of the FPU, which
-- the clear bit 4 of the exception's LR tells.
abbrev pub stacked_size : (lr : ℕ) → ℕ
stacked_size lr = if bit_and lr 16 == 0 then 100 else 32

module _ (core : Core) (ctx : Context) (s : core.State) where
  -- The registers of a row are saved at readable places, SP is not among them, and LR comes from `lr`
  -- to `lr'`.
  abbrev pub Restores : (cfa : ℕ) → List (ℕ × RegisterRule) → (lr lr' : ℕ) → Type 0
  Restores cfa [] lr lr' = lr ≡ lr'
  Restores cfa ((reg, offset off) ∷ rest) lr lr' =
      (addr : ℕ) × (value : ℕ) × (reg ≢ sp_reg)
      × Slot cfa off addr
      × (core.read_word_32 addr s ≡ (ok value, s))
      × Restores cfa rest (if reg == lr_reg then value else lr) lr'
  Restores cfa ((reg, undefined) ∷ rest) lr lr' = true ≡ false
  Restores cfa ((reg, other) ∷ rest) lr lr' = true ≡ false

  -- A frame of the code at `pc` with the stack pointer `sp` and the link register `lr`: its caller's
  -- are `cfa` and `lr'`.
  pub record Frame (pc sp lr cfa lr' : ℕ) : Type 0 where
    pub entry : Fde
    pub row : Row
    pub size : ℕ
    pub found : find_fde ctx.debug_frame pc ≡ ok entry
    pub in_table : entry.row pc ≡ ok row
    pub by_sp : row.cfa ≡ register_and_offset sp_reg (pos size)
    pub top : sp + size ≡ cfa
    pub fits : cfa < u32_mod
    pub restored : Restores cfa row.registers lr lr'

  -- The frames from the code at `pc` out to that at `last`, which is its own caller. A caller is reached
  -- by a return address with the Thumb bit, or through the registers that an exception stacked in the RAM. None of the
  -- callers is the hard fault handler, and no stack pointer lies above the start of the stack.
  pub data Chain : (pc sp lr : ℕ) → List RawFrame → (last : ℕ) → Type 0 where
    outermost :
        (pc sp lr lr' : ℕ)
        → Frame pc sp lr sp lr'
        → subroutine_eq lr' pc ≡ true
        → Chain pc sp lr (subroutine pc ∷ []) pc
    caller :
        (pc sp lr cfa lr' last : ℕ) (frames : List RawFrame)
        → Frame pc sp lr cfa lr'
        → (sp ≡ cfa → subroutine_eq lr' pc ≡ false)
        → lr' < exc_return_marker
        → is_thumb_bit_set lr' ≡ true
        → cfa ≤ ctx.stack_start
        → is_hard_fault (clear_thumb_bit lr') ctx.vector_table ≡ false
        → Chain (clear_thumb_bit lr') cfa lr' frames last
        → Chain pc sp lr (subroutine pc ∷ frames) last
    interrupted :
        (pc sp lr cfa lr' pc'' lr'' last : ℕ) (frames : List RawFrame)
        → Frame pc sp lr cfa lr'
        → (sp ≡ cfa → subroutine_eq lr' pc ≡ false)
        → exc_return_marker ≤ lr'
        → (ram_bounds ctx.active_ram_region).0 ≤ cfa + 20
        → cfa + 28 < (ram_bounds ctx.active_ram_region).1
        → core.read_32 (cfa + 20) 2 s ≡ (ok (lr'' ∷ pc'' ∷ []), s)
        → cfa + stacked_size lr' < u32_mod
        → cfa + stacked_size lr' ≤ ctx.stack_start
        → is_hard_fault pc'' ctx.vector_table ≡ false
        → Chain pc'' (cfa + stacked_size lr') lr'' frames last
        → Chain pc sp lr (subroutine pc ∷ exception ∷ frames) last
