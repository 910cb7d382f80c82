-- ===== src/Backtrace/Unwind/Terminates/Frame.antt =====
-- One round of src/backtrace/unwind.rs raises SP or ends the loop soon, where the frame addresses
-- are SP plus an offset.
use probe_run.Base.{ℕ, ◌+◌, ◌≤◌, ◌≡◌, refl, ◌∙◌, some, List, [], ◌∷◌, ◌++◌, All, arith, subst}
use probe_run.Result.{Result, ok, err, panic, missing_debug_info}
use probe_run.Core.{Core}
use probe_run.Registers
use probe_run.Registers.{Registers, lr_reg, sp_reg}
use probe_run.Registers.Laws.{get_cached}
use probe_run.Elf.DebugFrame.{Fde, Entry, fde, DebugFrame, Row}
use probe_run.Backtrace.Unwind.{
  Context, Output, unwrap_or_return, advance, row_at, update_all, unwind_frame,
}
use probe_run.Backtrace.Unwind.Find.{find_fde}
use probe_run.Backtrace.Unwind.Find.Laws.{find_fde_iff}
use probe_run.Backtrace.Unwind.Terminates.Rows.{IsPlain, update_cfa-sp, update_all-Kept, with_sp}
use probe_run.Backtrace.Unwind.Terminates.Advance.{
  After, measure, Falls, return_output-Falls, unwrap_or_return-Falls, advance-Falls,
}

abbrev pub PlainEntry : (top : ℕ) → Result Entry → Type 0
PlainEntry top (ok (fde (ok f))) = (addr : ℕ) (row : Row) → f.row addr ≡ ok row → IsPlain top row
PlainEntry top _ = Unit

All-middle {ℓ κ} :
    {A : Type ℓ} (P : A → Type κ) (before : List A) (a : A) (after : List A)
    → All P (before ++ a ∷ after)
    → P a
All-middle P [] a after (h, hs) = h
All-middle P (b ∷ before) a after (h, hs) = All-middle P before a after hs

find_fde-IsPlain :
    (top pc : ℕ) (df : DebugFrame) (f : Fde)
    → All (PlainEntry top) df
    → find_fde df pc ≡ ok f
    → (row : Row) → f.row pc ≡ ok row
    → IsPlain top row
find_fde-IsPlain top pc df f plain found row at =
    let (before, after, split, hb, hit, ha) = (find_fde_iff pc df f).0 found in
    All-middle (PlainEntry top) before (ok (fde (ok f))) after
      (subst (All (PlainEntry top)) split plain) pc row at

row_at-eq-ok : (f : Fde) (pc : ℕ) (row : Row) → row_at f pc ≡ ok row → f.row pc ≡ ok row
unfolding row_at
row_at-eq-ok f pc row h = by_result (f.row pc) refl h
  where
    by_result :
        (r : Result Row)
        → f.row pc ≡ r
        → elim r [ ok x ↦ ok x | err e ↦ err (missing_debug_info pc) | panic p ↦ panic p ] ≡ ok row
        → f.row pc ≡ ok row
    by_result (ok x) e k = e ∙ k
    by_result (err x) e k = cc
    by_result (panic x) e k = cc

module _ {core : Core} (ctx : Context) (top : ℕ) (bound : ctx.stack_start ≤ top)
    (plain : All (PlainEntry top) ctx.debug_frame) where
  -- from the row on
  row-Falls :
      (sp lr pc : ℕ) (output : Output) (row : Row) (regs : Registers core)
      → regs.cache sp_reg ≡ some sp
      → regs.cache lr_reg ≡ some lr
      → sp ≤ top
      → IsPlain top row
      → After (Falls {core = core} top (measure top sp lr pc)) (
          unwrap_or_return output
            (Registers.update_cfa ctx.profile row.cfa)
            (λ cfa_changed. unwrap_or_return output (update_all ctx row.registers) (λ _.
              unwrap_or_return output (Registers.get lr_reg) (advance ctx pc cfa_changed output)))
            regs)
  row-Falls sp lr pc output row regs at_sp at_lr low (k, cfa, room, spares, spares_lr) = rw cfa (
      rw (update_cfa-sp ctx.profile k sp regs at_sp (omega arith)) (
        unwrap_or_return-Falls top (measure top sp lr pc) output (update_all ctx row.registers) _
          (with_sp regs (sp + k))
          (λ u t e.
            let (at_sp', lr', at_lr', kept) =
              update_all-Kept ctx (sp + k) lr_reg lr row.registers (with_sp regs (sp + k)) t refl
                spares at_lr e in
            rw (get_cached core lr_reg lr' t at_lr') (
              advance-Falls ctx top bound sp lr k lr' pc output t (record {
                at_sp = at_sp';
                at_lr = at_lr';
                kept = λ z. kept (spares_lr z);
                room = room;
                low = low;
              })))))

  -- A round that goes on lowers the measure, and returns no error.
  pub unwind_frame-Falls :
      (sp lr pc : ℕ) (output : Output) (regs : Registers core)
      → regs.cache sp_reg ≡ some sp
      → regs.cache lr_reg ≡ some lr
      → sp ≤ top
      → After (Falls {core = core} top (measure top sp lr pc)) (unwind_frame ctx pc output regs)
  unfolding unwind_frame
  unwind_frame-Falls sp lr pc output regs at_sp at_lr low =
      return_output-Falls top (measure top sp lr pc) output (find_fde ctx.debug_frame pc) _ regs
        λ f found.
          return_output-Falls top (measure top sp lr pc) output (row_at f pc) _ regs λ row at.
            row-Falls sp lr pc output row regs at_sp at_lr low
              (find_fde-IsPlain top pc ctx.debug_frame f plain found row (row_at-eq-ok f pc row at))
