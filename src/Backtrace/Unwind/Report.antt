-- ===== src/Backtrace/Unwind/Report.antt =====
-- What the output of the unwinding loop of src/backtrace/unwind.rs says about the run.
use mathlib.Core.Option.{some-injective}
use probe_run.Base.{
  subst, ℕ, zero, suc, ◌≡◌, refl, ap, true, false, Option, none, some, List, [], ◌∷◌, ◌++◌, arith,
  if◌then◌else◌, Bool-cases, inl, inr,
}
use probe_run.Result.{Result, ok, err, panic, ok-injective}
use probe_run.Exec.{pure, continue, Post}
use probe_run.Core.{Core}
use probe_run.Cortexm.{is_hard_fault}
use probe_run.Registers
use probe_run.Registers.{Registers}
use probe_run.Backtrace.Outcome.{Outcome}
use probe_run.Backtrace.Unwind.{
  Context, Output, Flow, next, done, RawFrame, subroutine, exception, push, set_outcome, start,
  check_hard_fault, overflowed_stack, unwind_frame, round, unwind, unwind_core,
}
use probe_run.Backtrace.Unwind.Step.{
  Step, failed, bottom, returned, above_stack, failed_exception, bad_exception, preempted, in_reset,
  unwind_frame-Step,
}

abbrev pub fault_outcome : Context → (sp : ℕ) → Outcome
fault_outcome ctx sp =
    if overflowed_stack sp ctx.active_ram_region then Outcome.stack_overflow else Outcome.hard_fault

-- the outcome by the address and the stack pointer at which the program stopped
abbrev pub outcome_at : Context → (pc sp : ℕ) → Outcome
outcome_at ctx pc sp =
    if is_hard_fault pc ctx.vector_table then fault_outcome ctx sp else Outcome.ok

abbrev pub StartsAt : ℕ → List RawFrame → Type 0
StartsAt pc frames = (rest : List RawFrame) × (frames ≡ subroutine pc ∷ rest)

-- the output between two rounds
abbrev IsRunning : (first : ℕ) → Outcome → Output → Type 0
IsRunning first outcome o =
    (o.corrupted ≡ true)
    × (o.processing_error ≡ none)
    × (o.outcome ≡ outcome)
    × StartsAt first o.raw_frames

-- The stack was followed to its end: no error, and the last frame is one of the reset handler, as
-- far as its range is known.
abbrev pub IsComplete : Context → Output → Type 0
IsComplete ctx o =
    (o.processing_error ≡ none)
    × ((init : List RawFrame) × (pc : ℕ) × (o.raw_frames ≡ init ++ subroutine pc ∷ [])
        × (in_reset ctx pc ≡ true))

abbrev pub IsReport : Context → (first : ℕ) → Outcome → Output → Type 0
IsReport ctx first outcome o =
    (o.outcome ≡ outcome) × StartsAt first o.raw_frames × (o.corrupted ≡ false → IsComplete ctx o)

abbrev Holds : Context → (first : ℕ) → Outcome → Flow → Type 0
Holds ctx first outcome (next pc o) = IsRunning first outcome o
Holds ctx first outcome (done o) = IsReport ctx first outcome o

module _ (ctx : Context) (first : ℕ) (outcome : Outcome) where
  push-IsRunning :
      (o : Output) (frame : RawFrame)
      → IsRunning first outcome o
      → IsRunning first outcome (push o frame)
  push-IsRunning o frame (c, e, out, (rest, split)) = (c, e, out, (rest ++ frame ∷ [], rw split))

  Step-Holds :
      {flow : Flow} {pc : ℕ} (o : Output)
      → Step ctx pc (push o (subroutine pc)) flow
      → IsRunning first outcome (push o (subroutine pc))
      → Holds ctx first outcome flow
  Step-Holds o (failed e) (c, clean, out, split) = (out, split, λ h. cc)
  Step-Holds {pc} o bottom (c, clean, out, split) =
      (out, split, λ h. (clean, (o.raw_frames, pc, refl, ground arith)))
  Step-Holds o (returned caller) running = running
  Step-Holds o above_stack (c, clean, out, split) = (out, split, λ h. cc)
  Step-Holds o (failed_exception e) running =
      let (c, clean, out, split) = push-IsRunning _ exception running in (out, split, λ h. cc)
  Step-Holds o bad_exception running =
      let (c, clean, out, split) = push-IsRunning _ exception running in (out, split, λ h. cc)
  Step-Holds o (preempted caller) running = push-IsRunning _ exception running

Post-mono :
    {S A : Type 0} (P Q : A → Type 0) (r : Result A × S)
    → ((a : A) → P a → Q a)
    → Post P r
    → Post Q r
Post-mono P Q (ok a, s) weaken h = weaken a h
Post-mono P Q (err e, s) weaken h = tt
Post-mono P Q (panic p, s) weaken h = tt

module _ {core : Core} (ctx : Context) (first : ℕ) (outcome : Outcome) where
  frame-Holds :
      (pc : ℕ) (o : Output) (regs : Registers core)
      → IsRunning first outcome (push o (subroutine pc))
      → Post (Holds ctx first outcome) (unwind_frame ctx pc (push o (subroutine pc)) regs)
  frame-Holds pc o regs running =
      Post-mono (Step ctx pc (push o (subroutine pc))) (Holds ctx first outcome) _
        (λ flow step. Step-Holds ctx first outcome o step running)
        (unwind_frame-Step ctx pc (push o (subroutine pc)) regs)

  -- behind the first round no frame can be that of the HardFault handler
  later_round :
      (sp pc : ℕ) (o : Output) (regs : Registers core)
      → IsRunning first outcome o
      → Post (Holds ctx first outcome) (round ctx sp pc o regs)
  unfolding round check_hard_fault
  later_round sp pc o regs running = elim (Bool-cases (is_hard_fault pc ctx.vector_table)) [
    | inl fault ↦ rw fault (let (c, clean, out, (rest, split)) = running in rw split tt)
    | inr plain ↦
        rw plain
          (frame-Holds pc o regs (push-IsRunning ctx first outcome o (subroutine pc) running))
  ]

-- what the loop may return; no output if the fuel ran out
abbrev ReportIf : Context → (first : ℕ) → Outcome → Option Output → Type 0
ReportIf ctx first outcome none = Unit
ReportIf ctx first outcome (some o) = IsReport ctx first outcome o

module _ {core : Core} (ctx : Context) (first : ℕ) (outcome : Outcome) where
  -- a round that keeps the promise, and the rounds after it
  after_round :
      (fuel sp : ℕ) (r : Result Flow × Registers core)
      → Post (Holds ctx first outcome) r
      → ((pc' : ℕ) (o' : Output) (t : Registers core)
          → IsRunning first outcome o'
          → Post (ReportIf ctx first outcome) (unwind ctx fuel sp pc' o' t))
      → Post (ReportIf ctx first outcome) (
          continue r.0
            (λ flow. elim flow [
              | next pc' output' ↦ unwind ctx fuel sp pc' output'
              | done output' ↦ pure (some output')
            ])
            r.1)
  after_round fuel sp (ok (next pc' o'), t) h ih = ih pc' o' t h
  after_round fuel sp (ok (done o'), t) h ih = h
  after_round fuel sp (err e, t) h ih = tt
  after_round fuel sp (panic p, t) h ih = tt

  unwind_rest :
      (fuel sp pc : ℕ) (o : Output) (regs : Registers core)
      → IsRunning first outcome o
      → Post (ReportIf ctx first outcome) (unwind ctx fuel sp pc o regs)
  unfolding unwind
  unwind_rest zero sp pc o regs running = tt
  unwind_rest (suc fuel) sp pc o regs running =
      after_round fuel sp (round ctx sp pc o regs)
        (later_round ctx first outcome sp pc o regs running)
        (λ pc' o' t r. unwind_rest fuel sp pc' o' t r)

module _ {core : Core} (ctx : Context) (sp pc : ℕ) (regs : Registers core) where
  first_round : Post (Holds ctx pc (outcome_at ctx pc sp)) (round ctx sp pc start regs)
  unfolding round check_hard_fault
  first_round = elim (Bool-cases (is_hard_fault pc ctx.vector_table)) [
    | inl fault ↦ rw fault (
        frame-Holds ctx pc _ pc (set_outcome start (some (fault_outcome ctx sp))) regs
          (refl, refl, refl, ([], refl)))
    | inr plain ↦ rw plain (frame-Holds ctx pc _ pc start regs (refl, refl, refl, ([], refl)))
  ]

  unwind_all :
      (fuel : ℕ) → Post (ReportIf ctx pc (outcome_at ctx pc sp)) (unwind ctx fuel sp pc start regs)
  unfolding unwind
  unwind_all zero = tt
  unwind_all (suc fuel) =
      after_round ctx pc (outcome_at ctx pc sp) fuel sp (round ctx sp pc start regs) first_round
        (λ pc' o' t r. unwind_rest ctx pc (outcome_at ctx pc sp) fuel sp pc' o' t r)

-- Whatever the debug information, the memory and the registers hold, an output that the unwinder
-- returns has the outcome that the stopping address and stack pointer determine (a stack overflow or
-- a hard fault exactly at the HardFault handler), lists the stopping address first, and calls the
-- stack sound only if no error stopped it and its last frame lies in the reset handler (or that
-- handler's range is not known).
pub unwind_core-IsReport :
    (core : Core) (ctx : Context) (fuel pc sp lr : ℕ) (s s' : core.State) (o : Output)
    → unwind_core core ctx fuel pc sp lr s ≡ (ok (some o), s')
    → IsReport ctx pc (outcome_at ctx pc sp) o
unfolding unwind_core
unwind_core-IsReport core ctx fuel pc sp lr s s' o h =
    let regs = Registers.new {core = core} lr sp s in
    reported (unwind ctx fuel sp pc start regs) h (unwind_all ctx sp pc regs fuel)
  where
    reported :
        (r : Result (Option Output) × Registers core)
        → ◌≡◌ {A = Result (Option Output) × core.State} (r.0, r.1.device) (ok (some o), s')
        → Post (ReportIf ctx pc (outcome_at ctx pc sp)) r
        → IsReport ctx pc (outcome_at ctx pc sp) o
    reported (ok none, t) e p = cc
    reported (ok (some o'), t) e p =
        subst (IsReport ctx pc (outcome_at ctx pc sp))
          (some-injective _ _ (ok-injective (ap (λ q. q.0) e))) p
    reported (err x, t) e p = cc
    reported (panic x, t) e p = cc
