-- ===== src/Backtrace/Unwind/Terminates/Advance.antt =====
-- The end of a round of src/backtrace/unwind.rs raises SP or ends the loop soon.
use probe_run.Base.{
  ℕ, ◌+◌, ◌-◌, ◌*◌, ◌≤◌, ◌<◌, ◌≡◌, refl, ap, ◌∙◌, true, false, not, ◌&&◌, Option, none, some, ltb,
  leb, ◌==◌, arith, Bool-cases, inl, inr, if◌then◌else◌, subst,
}
use probe_run.Result.{Result, ok, err, panic}
use probe_run.U32.{u32_mod, add_u32-fits}
use probe_run.Exec.{Exec}
use probe_run.Core.{Core}
use probe_run.Cortexm.{subroutine_eq, is_thumb_bit_set, clear_thumb_bit, exc_return_marker}
use probe_run.Cortexm.Laws.{subroutine_eq-clear}
use probe_run.Registers
use probe_run.Registers.{Registers, lr_reg, sp_reg}
use probe_run.Registers.Laws.{get_cached}
use probe_run.Stacked
use probe_run.Stacked.{Stacked}
use probe_run.Backtrace.Unwind.{
  Context, Output, Flow, next, done, push, exception, return_output, unwrap_or_return, check_sp,
  unstack, read_stacked, enter_exception, advance,
}

-- What a call returns, with the state behind it; it may panic, and returns no error.
abbrev pub After : {S A : Type 0} → (A → S → Type 0) → Result A × S → Type 0
After P (ok a, s) = P a s
After P (err e, s) = true ≡ false
After P (panic p, s) = Unit

-- the bound on the rounds to come
abbrev pub measure : (top sp lr pc : ℕ) → ℕ
measure top sp lr pc = 2 * (top + 1 - sp) + (if subroutine_eq lr pc then 0 else 1)

-- A round that goes on has SP and LR in the cache, SP not above `top`, and a smaller measure.
abbrev pub Falls : {core : Core} → (top before : ℕ) → Flow → Registers core → Type 0
Falls top before (done o) regs = Unit
Falls top before (next pc o) regs =
    (sp : ℕ) × (lr : ℕ) × (regs.cache sp_reg ≡ some sp)
    × (regs.cache lr_reg ≡ some lr)
    × (sp ≤ top)
    × (measure top sp lr pc < before)

module _ {core : Core} (top before : ℕ) (output : Output) where
  pub return_output-Falls :
      {A : Type 0} (r : Result A) (k : A → Exec (Registers core) Flow) (regs : Registers core)
      → ((a : A) → r ≡ ok a → After (Falls {core = core} top before) (k a regs))
      → After (Falls {core = core} top before) (return_output output r k regs)
  return_output-Falls (ok a) k regs going = going a refl
  return_output-Falls (err e) k regs going = tt
  return_output-Falls (panic p) k regs going = tt

  pub unwrap_or_return-Falls :
      {A : Type 0} (m : Exec (Registers core) A) (k : A → Exec (Registers core) Flow)
      (regs : Registers core)
      → ((a : A) (t : Registers core)
          → m regs ≡ (ok a, t)
          → After (Falls {core = core} top before) (k a t))
      → After (Falls {core = core} top before) (unwrap_or_return output m k regs)
  unwrap_or_return-Falls {A = A} m k regs going = split (m regs) refl
    where
      split :
          (r : Result A × Registers core)
          → m regs ≡ r
          → After (Falls {core = core} top before) (return_output output r.0 k r.1)
      split r e = return_output-Falls r.0 k r.1 (λ a h. going a r.1 (e ∙ ap (λ x. (x, r.1)) h))

module _ (top : ℕ) where
  measure_up :
      (sp sp' lr lr' pc pc' : ℕ)
      → sp < sp'
      → sp' ≤ top
      → measure top sp' lr' pc' < measure top sp lr pc
  measure_up sp sp' lr lr' pc pc' h k = ground arith

  thumb_falls :
      (sp0 lr0 k lr pc : ℕ)
      → (k ≡ 0 → lr ≡ lr0)
      → (not (not (sp0 == sp0 + k)) && subroutine_eq lr pc) ≡ false
      → sp0 + k ≤ top
      → measure top (sp0 + k) lr (clear_thumb_bit lr) < measure top sp0 lr0 pc
  thumb_falls sp0 lr0 k lr pc kept moved small = elim (Bool-cases (k == 0)) [
    | inl zero_k ↦
        let same : lr ≡ lr0 = kept (ground arith) in
        let apart : subroutine_eq lr pc ≡ false = ground arith in
        let apart0 : subroutine_eq lr0 pc ≡ false =
          subst (λ x. subroutine_eq x pc ≡ false) same apart in
        rw (subroutine_eq-clear lr) (rw apart0 (ground arith))
    | inr up ↦ measure_up sp0 (sp0 + k) lr0 lr pc (clear_thumb_bit lr) (ground arith) small
  ]

size_bounds : (stacked : Stacked) → (32 ≤ Stacked.size stacked) × (Stacked.size stacked ≤ 100)
unfolding Stacked.size
size_bounds stacked = ground arith

module _ {core : Core} (ctx : Context) (top : ℕ) (bound : ctx.stack_start ≤ top) where
  -- the end of a round, with SP in the cache
  check_sp-Falls :
      (before sp lr pc : ℕ) (output : Output) (regs : Registers core)
      → regs.cache sp_reg ≡ some sp
      → regs.cache lr_reg ≡ some lr
      → (sp ≤ top → measure top sp lr pc < before)
      → After (Falls {core = core} top before) (check_sp ctx pc output regs)
  unfolding check_sp
  check_sp-Falls before sp lr pc output regs at_sp at_lr falls =
      rw (get_cached core sp_reg sp regs at_sp) (elim (Bool-cases (ltb ctx.stack_start sp)) [
        | inl above ↦ rw above tt
        | inr below ↦
            let small : sp ≤ top = ground arith in
            rw below (sp, lr, at_sp, at_lr, small, falls small)
      ])

  unstack-Falls :
      (sp0 lr0 pc sp : ℕ) (output : Output) (stacked : Option Stacked) (regs : Registers core)
      → sp0 ≤ sp
      → sp + 104 < u32_mod
      → After
          (Falls {core = core} top (measure top sp0 lr0 pc))
          (unstack ctx sp output stacked regs)
  unfolding unstack Registers.insert
  unstack-Falls sp0 lr0 pc sp output none regs le fits = tt
  unstack-Falls sp0 lr0 pc sp output (some stacked) regs le fits =
      let (least, most) = size_bounds stacked in
      rw (add_u32-fits ctx.profile sp (Stacked.size stacked) (omega arith)) (
        check_sp-Falls (measure top sp0 lr0 pc) (sp + Stacked.size stacked) stacked.lr stacked.pc
          output _ refl refl
          (λ h.
            measure_up top sp0 (sp + Stacked.size stacked) lr0 stacked.lr pc stacked.pc
              (omega arith) h))

  -- what is known in front of the last part of a round
  pub record Framed (sp0 lr0 k lr : ℕ) (regs : Registers core) : Type 0 where
    pub at_sp : regs.cache sp_reg ≡ some (sp0 + k)
    pub at_lr : regs.cache lr_reg ≡ some lr
    pub kept : k ≡ 0 → lr ≡ lr0
    pub room : top + k + 104 < u32_mod
    pub low : sp0 ≤ top

  enter_exception-Falls :
      (sp0 lr0 k lr pc : ℕ) (output : Output) (regs : Registers core)
      → Framed sp0 lr0 k lr regs
      → After
          (Falls {core = core} top (measure top sp0 lr0 pc))
          (enter_exception ctx lr output regs)
  unfolding enter_exception
  enter_exception-Falls sp0 lr0 k lr pc output regs f =
      rw (get_cached core sp_reg (sp0 + k) regs f.at_sp) (
        unwrap_or_return-Falls top (measure top sp0 lr0 pc) output (read_stacked ctx lr (sp0 + k)) _
          regs
          (λ stacked t e.
            unstack-Falls sp0 lr0 pc (sp0 + k) output stacked t (omega arith)
              (omega (arith, f.room, f.low))))

  pub advance-Falls :
      (sp0 lr0 k lr pc : ℕ) (output : Output) (regs : Registers core)
      → Framed sp0 lr0 k lr regs
      → After
          (Falls {core = core} top (measure top sp0 lr0 pc))
          (advance ctx pc (not (sp0 == sp0 + k)) output lr regs)
  unfolding advance
  advance-Falls sp0 lr0 k lr pc output regs f =
      elim (Bool-cases (not (not (sp0 == sp0 + k)) && subroutine_eq lr pc)) [
        | inl stuck ↦ rw stuck tt
        | inr moved ↦ rw moved (elim (Bool-cases (leb exc_return_marker lr)) [
          | inl entry ↦
              rw entry (enter_exception-Falls sp0 lr0 k lr pc (push output exception) regs f)
          | inr plain ↦ rw plain (elim (Bool-cases (is_thumb_bit_set lr)) [
            | inl thumb ↦ rw thumb (
                check_sp-Falls (measure top sp0 lr0 pc) (sp0 + k) lr (clear_thumb_bit lr) output
                  regs f.at_sp f.at_lr (thumb_falls top sp0 lr0 k lr pc f.kept moved))
            | inr arm ↦ rw arm tt
          ])
        ])
      ]
