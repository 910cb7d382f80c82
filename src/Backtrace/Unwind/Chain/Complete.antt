-- ===== src/Backtrace/Unwind/Chain/Complete.antt =====
-- The loop of src/backtrace/unwind.rs finds the frames that the stack records.
use probe_run.Base.{ℕ, ◌≤◌, ◌≡◌, refl, ap, ◌∙◌, Option, none, some, List, Bool-cases, inl, inr}
use probe_run.Result.{ok}
use probe_run.Exec.{Exec}
use probe_run.Core.{Core}
use probe_run.Cortexm.{is_hard_fault}
use probe_run.Registers
use probe_run.Registers.{Registers, Cache, store, sp_reg, lr_reg, pc_reg}
use probe_run.Backtrace.Outcome.{Outcome}
use probe_run.Backtrace.Unwind.{
  Context, Output, RawFrame, start, check_hard_fault, unwind_core, read_or_return, target,
}
use probe_run.Backtrace.Unwind.Report.{outcome_at, fault_outcome}
use probe_run.Backtrace.Unwind.Chain.{Chain}
use probe_run.Backtrace.Unwind.Chain.Advance.{ends_badly}
use probe_run.Backtrace.Unwind.Chain.Loop.{rounds, finished, unwind-Chain}

module _ (core : Core) (ctx : Context) (s : core.State) where
  -- what is found of a stack: its frames, in their order
  abbrev pub found_of : (pc sp : ℕ) → List RawFrame → (last : ℕ) → Output
  found_of pc sp frames last = record {
    corrupted = ends_badly ctx last;
    outcome = outcome_at ctx pc sp;
    raw_frames = frames;
    processing_error = none;
  }

  first_check :
      (pc sp : ℕ)
      → (found : Option Outcome) × (check_hard_fault pc ctx.vector_table start sp
            ctx.active_ram_region
          ≡ ok found)
        × ((frames : List RawFrame) (last : ℕ)
            → finished core ctx s start found frames last ≡ found_of pc sp frames last)
  unfolding check_hard_fault
  first_check pc sp = elim (Bool-cases (is_hard_fault pc ctx.vector_table)) [
    | inl fault ↦ (some (fault_outcome ctx sp), rw fault refl, λ frames last. rw fault refl)
    | inr other ↦ (none, rw other refl, λ frames last. rw other refl)
  ]

  unwind_core-Chain :
      (fuel pc sp lr last : ℕ) (frames : List RawFrame)
      → Chain core ctx s pc sp lr frames last
      → rounds frames ≤ fuel
      → unwind_core core ctx fuel pc sp lr s ≡ (ok (some (found_of pc sp frames last)), s)
  unfolding unwind_core Registers.new
  unwind_core-Chain fuel pc sp lr last frames chain enough =
      let (found, checked, same) = first_check pc sp in
      let (cache', ran) =
        unwind-Chain core ctx s fuel sp (store (store (λ _. none) lr_reg lr) sp_reg sp) start found
          chain (refl, refl) enough checked in
      ap (λ r. (r.0, r.1.device)) ran ∙ ap (λ o. (ok (some o), s)) (same frames last)

  read_or_return-ok :
      (reg val : ℕ) (k : ℕ → Exec core.State (Option Output))
      → core.read_core_reg reg s ≡ (ok val, s)
      → read_or_return core ctx reg k s ≡ k val s
  unfolding read_or_return
  read_or_return-ok reg val k h = rw (h, read_or_return) (ap (λ r. k val r.1) h)

  -- If the stack of a stopped program records a chain of frames (each by a row whose frame address is SP
  -- plus an offset and whose registers are saved at readable places; the outermost is its own caller,
  -- and no caller is the hard fault handler), in memory that reads do not change, then the unwinder
  -- returns exactly these frames, from the innermost to the outermost, with the exceptions in their
  -- places and with no error. Its outcome is that of the stopping address and stack pointer, and the
  -- stack is called corrupted exactly if the range of the reset handler is known and the outermost
  -- frame lies outside it. One round to a subroutine is enough.
  pub target-IsComplete :
      (fuel pc sp lr last : ℕ) (frames : List RawFrame)
      → Chain core ctx s pc sp lr frames last
      → rounds frames ≤ fuel
      → core.read_core_reg pc_reg s ≡ (ok pc, s)
      → core.read_core_reg sp_reg s ≡ (ok sp, s)
      → core.read_core_reg lr_reg s ≡ (ok lr, s)
      → target core ctx fuel s ≡ (ok (some (found_of pc sp frames last)), s)
  unfolding target
  target-IsComplete fuel pc sp lr last frames chain enough at_pc at_sp at_lr =
      read_or_return-ok pc_reg pc
        (λ pc.
          read_or_return core ctx sp_reg
            λ sp. read_or_return core ctx lr_reg λ lr. unwind_core core ctx fuel pc sp lr)
        at_pc
      ∙ read_or_return-ok sp_reg sp
          (λ sp. read_or_return core ctx lr_reg λ lr. unwind_core core ctx fuel pc sp lr) at_sp
      ∙ read_or_return-ok lr_reg lr (λ lr. unwind_core core ctx fuel pc sp lr) at_lr
      ∙ unwind_core-Chain fuel pc sp lr last frames chain enough
