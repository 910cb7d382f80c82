-- ===== src/Backtrace/Unwind/Step.antt =====
-- One round of the unwinding loop of src/backtrace/unwind.rs as a step relation: every way in which
-- the part of a round behind the push of its frame can end.
use probe_run.Base.{
  ℕ, Bool, not, ◌&&◌, ◌||◌, Option, none, some, ltb, leb, in_range, Bool-cases, inl, inr,
}
use probe_run.Result.{Error, Result, ok, err, panic, no_thumb_bit}
use probe_run.U32.{add_u32}
use probe_run.Exec.{Exec, lift, Post, >>=-Post}
use probe_run.Core.{Core}
use probe_run.Cortexm.{subroutine_eq, is_thumb_bit_set, clear_thumb_bit, exc_return_marker}
use probe_run.Registers
use probe_run.Registers.{Registers, lr_reg, sp_reg, on_core}
use probe_run.Stacked
use probe_run.Stacked.{Stacked}
use probe_run.Backtrace.Unwind.{
  Context, Output, Flow, next, done, exception, push, with_error, corrupt, judge_sp, check_sp,
  unstack, read_stacked, enter_exception, advance, unwind_frame, unwrap_or_return, return_output,
  update_all, row_at,
}
use probe_run.Backtrace.Unwind.Find.{find_fde}

-- the test on the reset handler's range, which an empty range passes
abbrev pub in_reset : Context → ℕ → Bool
in_reset ctx pc =
    in_range ctx.reset_fn_start ctx.reset_fn_end pc || not (ltb ctx.reset_fn_start ctx.reset_fn_end)

pub data Step (ctx : Context) (pc : ℕ) (output : Output) : Flow → Type 0 where
  failed : (e : Error) → Step ctx pc output (done (with_error output e))
  bottom : Step ctx pc output (done (record output { corrupted = not (in_reset ctx pc) }))
  returned : (caller : ℕ) → Step ctx pc output (next caller output)
  above_stack : Step ctx pc output (done (corrupt output))
  failed_exception : (e : Error) → Step ctx pc output (done (with_error (push output exception) e))
  bad_exception : Step ctx pc output (done (corrupt (push output exception)))
  preempted : (caller : ℕ) → Step ctx pc output (next caller (push output exception))

module _ {S A : Type 0} (P : Flow → Type 0) (output : Output) where
  return_output-Post :
      (r : Result A) (k : A → Exec S Flow) (s : S)
      → ((e : Error) → P (done (with_error output e)))
      → ((a : A) → Post P (k a s))
      → Post P (return_output output r k s)
  return_output-Post (ok a) k s failing going = going a
  return_output-Post (err e) k s failing going = failing e
  return_output-Post (panic p) k s failing going = tt

  pub unwrap_or_return-Post :
      (m : Exec S A) (k : A → Exec S Flow) (s : S)
      → ((e : Error) → P (done (with_error output e)))
      → ((a : A) (t : S) → Post P (k a t))
      → Post P (unwrap_or_return output m k s)
  unwrap_or_return-Post m k s failing going =
      let (r, t) = m s in return_output-Post r k t failing (λ a. going a t)

judge_sp-Post :
    {S : Type 0} (P : Flow → Type 0) (stack_start pc : ℕ) (output : Output) (r : Result ℕ) (s : S)
    → P (next pc output)
    → P (done (corrupt output))
    → Post P (judge_sp stack_start pc output r, s)
judge_sp-Post P stack_start pc output (ok sp) s on stop = elim (Bool-cases (ltb stack_start sp)) [
  | inl e ↦ rw e stop
  | inr e ↦ rw e on
]
judge_sp-Post P stack_start pc output (err e) s on stop = on
judge_sp-Post P stack_start pc output (panic p) s on stop = tt

module _ {core : Core} (ctx : Context) where
  check_sp-Post :
      (P : Flow → Type 0) (pc : ℕ) (output : Output) (regs : Registers core)
      → P (next pc output)
      → P (done (corrupt output))
      → Post P (check_sp ctx pc output regs)
  unfolding check_sp
  check_sp-Post P pc output regs on stop =
      let (r, regs') = Registers.get sp_reg regs in
      judge_sp-Post P ctx.stack_start pc output r regs' on stop

  unstack-Step :
      (pc sp : ℕ) (output : Output) (stacked : Option Stacked) (regs : Registers core)
      → Post (Step ctx pc output) (unstack ctx sp (push output exception) stacked regs)
  unfolding unstack
  unstack-Step pc sp output none regs = bad_exception
  unstack-Step pc sp output (some stacked) regs =
      >>=-Post (Step ctx pc output) (Registers.insert lr_reg stacked.lr) _ regs λ _ t.
        >>=-Post (Step ctx pc output) (lift (add_u32 ctx.profile sp (Stacked.size stacked))) _ t
          λ sp' u. >>=-Post (Step ctx pc output) (Registers.insert sp_reg sp') _ u λ _ v.
            check_sp-Post (Step ctx pc output) stacked.pc (push output exception) v
              (preempted stacked.pc) bad_exception

  advance-Step :
      (pc : ℕ) (changed : Bool) (output : Output) (lr : ℕ) (regs : Registers core)
      → Post (Step ctx pc output) (advance ctx pc changed output lr regs)
  unfolding advance enter_exception
  advance-Step pc changed output lr regs = elim (Bool-cases (not changed && subroutine_eq lr pc)) [
    | inl stuck ↦ rw stuck bottom
    | inr moved ↦ rw moved (elim (Bool-cases (leb exc_return_marker lr)) [
      | inl entry ↦ rw entry (
          unwrap_or_return-Post (Step ctx pc output) (push output exception) (Registers.get sp_reg)
            _ regs failed_exception
            λ sp t.
              unwrap_or_return-Post (Step ctx pc output) (push output exception)
                (read_stacked ctx lr sp) _ t failed_exception
                λ stacked u. unstack-Step pc sp output stacked u)
      | inr plain ↦ rw plain (elim (Bool-cases (is_thumb_bit_set lr)) [
        | inl thumb ↦ rw thumb (
            check_sp-Post (Step ctx pc output) (clear_thumb_bit lr) output regs
              (returned (clear_thumb_bit lr)) above_stack)
        | inr arm ↦ rw arm (failed (no_thumb_bit lr))
      ])
    ])
  ]

  -- Whatever the registers and the debug information hold, a round that returns ends by one of the
  -- steps of the relation.
  pub unwind_frame-Step :
      (pc : ℕ) (output : Output) (regs : Registers core)
      → Post (Step ctx pc output) (unwind_frame ctx pc output regs)
  unfolding unwind_frame
  unwind_frame-Step pc output regs =
      let S = Step ctx pc output in
      unwrap_or_return-Post S output (lift (find_fde ctx.debug_frame pc)) _ regs failed λ f t.
        unwrap_or_return-Post S output (lift (row_at f pc)) _ t failed λ row u.
          unwrap_or_return-Post S output (Registers.update_cfa ctx.profile row.cfa) _ u failed
            λ changed v.
              unwrap_or_return-Post S output (update_all ctx row.registers) _ v failed λ _ w.
                unwrap_or_return-Post S output (Registers.get lr_reg) _ w failed
                  λ lr x. advance-Step pc changed output lr x
