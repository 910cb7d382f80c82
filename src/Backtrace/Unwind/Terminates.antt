-- ===== src/Backtrace/Unwind/Terminates.antt =====
-- The loop of src/backtrace/unwind.rs ends, where the frame addresses are SP plus an offset.
pub mod Rows
pub mod Advance
pub mod Frame
use probe_run.Base.{
  ℕ, zero, suc, ◌+◌, ◌-◌, ◌*◌, ◌≤◌, ◌<◌, ◌≡◌, ◌≢◌, ◌⊎◌, refl, sym, ap, ◌∙◌, Bool, true, false, not,
  ◌&&◌, Option, none, some, List, [], ◌∷◌, ◌++◌, ltb, leb, ◌==◌, All, arith, Bool-cases, inl, inr,
  if◌then◌else◌, subst,
}
use probe_run.Base.Int.{pos}
use probe_run.Result.{Error, Panic, Result, ok, err, panic, missing_debug_info}
use probe_run.U32.{Profile, u32_mod, add_u32, add_u32-fits}
use probe_run.Exec.{Exec, lift, pure, continue}
use probe_run.Core.{Core}
use probe_run.Cortexm.{
  is_hard_fault, subroutine_eq, is_thumb_bit_set, clear_thumb_bit, exc_return_marker,
}
use probe_run.Cortexm.Laws.{subroutine_eq-clear}
use probe_run.Registers
use probe_run.Registers.{Registers, lr_reg, sp_reg}
use probe_run.Registers.Laws.{get_cached}
use probe_run.Stacked
use probe_run.Stacked.{Stacked}
use probe_run.Elf.DebugFrame.{Fde, Entry, cie, fde, DebugFrame, Row}
use probe_run.Backtrace.Outcome.{Outcome}
use probe_run.Backtrace.Unwind.{
  Context, Output, Flow, next, done, push, with_error, exception, return_output, unwrap_or_return,
  judge_sp, check_sp, unstack, check_hard_fault, is_nil, set_outcome, subroutine, read_stacked,
  enter_exception, advance, unwind_frame, update_all, row_at, round, unwind, unwind_core, start,
}
use probe_run.Backtrace.Unwind.Find.{find_fde}
use probe_run.Backtrace.Unwind.Find.Laws.{find_fde_iff}
use probe_run.Backtrace.Unwind.Report.{IsReport, outcome_at, unwind_core-IsReport}
use Advance.{After, Falls, measure}
use Frame.{PlainEntry, unwind_frame-Falls}

abbrev IsNoError : Result (Option Outcome) → Type 0
IsNoError (err e) = true ≡ false
IsNoError _ = Unit

no_err :
    (ctx : Context) (pc : ℕ) (o : Output) (sp : ℕ)
    → IsNoError (check_hard_fault pc ctx.vector_table o sp ctx.active_ram_region)
unfolding check_hard_fault
no_err ctx pc o sp = elim (Bool-cases (is_hard_fault pc ctx.vector_table)) [
  | inl fault ↦
      rw fault (elim (Bool-cases (is_nil o.raw_frames)) [ inl e ↦ rw e tt | inr e ↦ rw e tt ])
  | inr plain ↦ rw plain tt
]

-- the whole loop: an output, or a panic
abbrev Answers : Result (Option Output) → Type 0
Answers (ok (some o)) = Unit
Answers (ok none) = true ≡ false
Answers (err e) = true ≡ false
Answers (panic p) = Unit

module _ {core : Core} (ctx : Context) (top : ℕ) (bound : ctx.stack_start ≤ top)
    (plain : All (PlainEntry top) ctx.debug_frame) where
  -- what the loop does with the flow of a round
  go_on-Answers :
      (fuel sp before : ℕ) (r : Result Flow × Registers core)
      → After (Falls {core = core} top before) r
      → before ≤ fuel
      → ((pc sp' lr : ℕ) (o : Output) (regs : Registers core)
          → regs.cache sp_reg ≡ some sp'
          → regs.cache lr_reg ≡ some lr
          → sp' ≤ top
          → measure top sp' lr pc < fuel
          → Answers ((unwind ctx fuel sp pc o regs).0))
      → Answers (
          (continue r.0
            (λ flow. elim flow [
              | next pc' output' ↦ unwind ctx fuel sp pc' output'
              | done output' ↦ pure (some output')
            ])
            r.1).0)
  go_on-Answers fuel sp before (ok (next pc o), regs) (sp', lr, at_sp, at_lr, low, falls) le ih =
      ih pc sp' lr o regs at_sp at_lr low (omega arith)
  go_on-Answers fuel sp before (ok (done o), regs) h le ih = tt
  go_on-Answers fuel sp before (err e, regs) h le ih = h
  go_on-Answers fuel sp before (panic p, regs) h le ih = tt

  round-Falls :
      (stopped sp lr pc : ℕ) (o : Output) (regs : Registers core)
      → regs.cache sp_reg ≡ some sp
      → regs.cache lr_reg ≡ some lr
      → sp ≤ top
      → After (Falls {core = core} top (measure top sp lr pc)) (round ctx stopped pc o regs)
  unfolding round
  round-Falls stopped sp lr pc o regs at_sp at_lr low =
      by_check (check_hard_fault pc ctx.vector_table o stopped ctx.active_ram_region)
        (no_err ctx pc o stopped)
    where
      by_check :
          (r : Result (Option Outcome))
          → IsNoError r
          → After (Falls {core = core} top (measure top sp lr pc)) (
              continue r
                (λ outcome. unwind_frame ctx pc (push (set_outcome o outcome) (subroutine pc)))
                regs)
      by_check (ok outcome) h =
          unwind_frame-Falls ctx top bound plain sp lr pc _ regs at_sp at_lr low
      by_check (err e) h = h
      by_check (panic p) h = tt

  unwind-Answers :
      (fuel stopped pc sp lr : ℕ) (o : Output) (regs : Registers core)
      → regs.cache sp_reg ≡ some sp
      → regs.cache lr_reg ≡ some lr
      → sp ≤ top
      → measure top sp lr pc < fuel
      → Answers ((unwind ctx fuel stopped pc o regs).0)
  unfolding unwind
  unwind-Answers zero stopped pc sp lr o regs at_sp at_lr low enough = absurd (omega arith)
  unwind-Answers (suc fuel) stopped pc sp lr o regs at_sp at_lr low enough =
      go_on-Answers fuel stopped (measure top sp lr pc) (round ctx stopped pc o regs)
        (round-Falls stopped sp lr pc o regs at_sp at_lr low) (omega arith)
        (λ pc' sp' lr' o' regs' a b c d. unwind-Answers fuel stopped pc' sp' lr' o' regs' a b c d)

-- an output that is a report, or a panic
abbrev pub IsTotal : {S : Type 0} → Context → (pc sp : ℕ) → Result (Option Output) × S → Type 0
IsTotal {S} ctx pc sp r =
    ((o : Output) × (s : S) × (r ≡ (ok (some o), s)) × IsReport ctx pc (outcome_at ctx pc sp) o)
    ⊎ ((p : Panic) × (r.0 ≡ panic p))

measure_bound : (top sp lr pc : ℕ) → measure top sp lr pc ≤ 2 * (top + 1 - sp) + 1
measure_bound top sp lr pc = ground arith

-- If every row of the debug information gives the frame address as SP plus an offset, has no rule
-- for SP, and none for LR where the offset is 0, and if neither the stack pointer at the stop nor
-- the start of the stack is above `top` and no frame above `top` passes the end of the address
-- space, then twice as many rounds as there are bytes from the stack pointer to `top`, and four,
-- are enough: the unwinder returns an output, which is a report on the run, or it panics.
pub unwind_core-IsTotal :
    (core : Core) (ctx : Context) (top fuel pc sp lr : ℕ) (s : core.State)
    → ctx.stack_start ≤ top
    → sp ≤ top
    → All (PlainEntry top) ctx.debug_frame
    → 2 * (top - sp) + 4 ≤ fuel
    → IsTotal ctx pc sp (unwind_core core ctx fuel pc sp lr s)
unfolding unwind_core Registers.new
unwind_core-IsTotal core ctx top fuel pc sp lr s bound low plain enough =
    by_answer (unwind ctx fuel sp pc start (Registers.new {core = core} lr sp s)) refl (
      unwind-Answers ctx top bound plain fuel sp pc sp lr start
        (Registers.new {core = core} lr sp s) refl refl low
        (omega (arith, measure_bound top sp lr pc)))
  where
    by_answer :
        (r : Result (Option Output) × Registers core)
        → unwind ctx fuel sp pc start (Registers.new {core = core} lr sp s) ≡ r
        → Answers r.0
        → IsTotal ctx pc sp (unwind_core core ctx fuel pc sp lr s)
    by_answer (ok (some o), regs) e h =
        let returned : unwind_core core ctx fuel pc sp lr s ≡ (ok (some o), regs.device) =
          ap (λ q. (q.0, q.1.device)) e in
        inl (
          o,
          regs.device,
          returned,
          unwind_core-IsReport core ctx fuel pc sp lr s regs.device o returned,
        )
    by_answer (ok none, regs) e h = cc
    by_answer (err x, regs) e h = cc
    by_answer (panic p, regs) e h = inr (p, ap (λ q. q.0) e)
