-- ===== src/Backtrace/Unwind/Target.antt =====
-- `target` of src/backtrace/unwind.rs: the registers that it reads first, and what it returns.
use probe_run.Base.{ℕ, ◌≡◌, ◌⊎◌, inl, inr, refl, Option, none, some}
use probe_run.Result.{Error, Result, ok, err, panic}
use probe_run.Exec.{Exec, Returns, Returns-elim}
use probe_run.Core.{Core}
use probe_run.Registers.{pc_reg, sp_reg, lr_reg}
use probe_run.Backtrace.Unwind.{
  Context, Output, with_error, start, read_or_return, unwind_core, target,
}
use probe_run.Backtrace.Unwind.Report.{IsReport, outcome_at, unwind_core-IsReport}

-- one of the three reads fails
pub data Unread (core : Core) (s : core.State) : Error → core.State → Type 0 where
  pc_unread :
      (e : Error) (t : core.State) → core.read_core_reg pc_reg s ≡ (err e, t) → Unread core s e t
  sp_unread :
      (e : Error) (pc : ℕ) (t u : core.State)
      → core.read_core_reg pc_reg s ≡ (ok pc, t)
      → core.read_core_reg sp_reg t ≡ (err e, u)
      → Unread core s e u
  lr_unread :
      (e : Error) (pc sp : ℕ) (t u v : core.State)
      → core.read_core_reg pc_reg s ≡ (ok pc, t)
      → core.read_core_reg sp_reg t ≡ (ok sp, u)
      → core.read_core_reg lr_reg u ≡ (err e, v)
      → Unread core s e v

module _ (core : Core) (ctx : Context) where
  -- An output of `target`: a register could not be read, or it is a report on the address at which the
  -- program stopped.
  abbrev pub IsStop : (s s' : core.State) → Output → Type 0
  IsStop s s' o =
      ((e : Error) × Unread core s e s' × (o ≡ with_error start e))
      ⊎ ((pc : ℕ) × (sp : ℕ) × (t : core.State) × (core.read_core_reg pc_reg s ≡ (ok pc, t))
          × IsReport ctx pc (outcome_at ctx pc sp) o)

  abbrev MayStop : core.State → Option Output → core.State → Type 0
  MayStop s none s' = Unit
  MayStop s (some o) s' = IsStop s s' o

  read_or_return-Returns :
      (first : core.State) (reg : ℕ) (k : ℕ → Exec core.State (Option Output)) (s : core.State)
      → ((e : Error) (t : core.State)
          → core.read_core_reg reg s ≡ (err e, t)
          → Unread core first e t)
      → ((val : ℕ) (t : core.State)
          → core.read_core_reg reg s ≡ (ok val, t)
          → Returns (MayStop first) (k val t))
      → Returns (MayStop first) (read_or_return core ctx reg k s)
  unfolding read_or_return
  read_or_return-Returns first reg k s unread h = split (core.read_core_reg reg s) refl
    where
      split :
          (r : Result ℕ × core.State)
          → core.read_core_reg reg s ≡ r
          → Returns {S = core.State} {A = Option Output} (MayStop first) (elim r.0 [
            | ok val ↦ k val r.1
            | err e ↦ (ok (some (with_error start e)), r.1)
            | panic p ↦ (panic p, r.1)
          ])
      split (ok val, t) at = h val t at
      split (err e, t) at = inl (e, unread e t at, refl)
      split (panic p, t) at = tt

  core-Returns :
      (first t s : core.State) (fuel pc sp lr : ℕ)
      → core.read_core_reg pc_reg first ≡ (ok pc, t)
      → Returns (MayStop first) (unwind_core core ctx fuel pc sp lr s)
  core-Returns first t s fuel pc sp lr at = by_result (unwind_core core ctx fuel pc sp lr s) refl
    where
      by_result :
          (r : Result (Option Output) × core.State)
          → unwind_core core ctx fuel pc sp lr s ≡ r
          → Returns (MayStop first) r
      by_result (ok none, u) e = tt
      by_result (ok (some o), u) e =
          inr (pc, sp, t, at, unwind_core-IsReport core ctx fuel pc sp lr s u o e)
      by_result (err x, u) e = tt
      by_result (panic p, u) e = tt

  pub target-IsStop :
      (fuel : ℕ) (s s' : core.State) (o : Output)
      → target core ctx fuel s ≡ (ok (some o), s')
      → IsStop s s' o
  unfolding target
  target-IsStop fuel s s' o h = Returns-elim (MayStop s) (target core ctx fuel s) h (
      read_or_return-Returns s pc_reg _ s (λ e t at. pc_unread e t at)
        λ pc t at.
          read_or_return-Returns s sp_reg _ t (λ e u at_sp. sp_unread e pc t u at at_sp)
            λ sp u at_sp.
              read_or_return-Returns s lr_reg _ u
                (λ e v at_lr. lr_unread e pc sp t u v at at_sp at_lr)
                λ lr v at_lr. core-Returns s t v fuel pc sp lr at)
