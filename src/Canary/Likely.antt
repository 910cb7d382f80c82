-- ===== src/Canary/Likely.antt =====
-- When the measurement of src/canary.rs reports a stack overflow as likely, on a core that runs the
-- machine code of the search.
use probe_run.Base.{
  ℕ, zero, suc, ◌+◌, ◌-◌, ◌*◌, ◌≤◌, ◌<◌, ◌≡◌, Bool, some, none, Option, ◌==◌, arith, Bool-cases,
  inl, inr,
}
use probe_run.Result.{Result, ok}
use probe_run.U32.{Profile, u32_mod, sub_u32-fits}
use probe_run.Exec.{lift, pure, ◌>>=◌, Returns, >>=-Returns, Returns-elim}
use probe_run.Core.{Core}
use probe_run.TargetInfo.{StackInfo}
use probe_run.Canary.Subroutine
use probe_run.Canary.Subroutine.{canary_u8}
use probe_run.Canary.Subroutine.Words.{IsMemory, first_touched}
use probe_run.Canary.{F64, measure, usage, is_overflow_likely}
use probe_run.Canary.Laws.{canary_of}
use probe_run.Canary.Float.{IsRounded, IsVerdict, is_overflow_likely-IsVerdict}
use probe_run.Canary.Thumb.{Machine}
use probe_run.Canary.Thumb.Target.{IsThumb}
use probe_run.Canary.Thumb.Measured.{measure-touched}

-- the bytes from the lowest touched one up to the initial stack pointer
abbrev pub used : (initial_stack_pointer : ℕ) → Option ℕ → ℕ
used initial_stack_pointer none = 0
used initial_stack_pointer (some touched) = initial_stack_pointer - touched

-- a touched byte lies in the range
abbrev Inside : ℕ → ℕ → Option ℕ → Type 0
Inside a n none = Unit
Inside a n (some x) = (a ≤ x) × (x < a + n)

first_touched-Inside : (mem : ℕ → ℕ) (n a : ℕ) → Inside a n (first_touched mem a n)
first_touched-Inside mem zero a = tt
first_touched-Inside mem (suc n) a = elim (Bool-cases (mem a == canary_u8)) [
  | inl e ↦ rw e (wider (first_touched mem (a + 1) n) (first_touched-Inside mem n (a + 1)))
  | inr e ↦ rw e (omega arith, omega arith)
]
  where
    wider : (r : Option ℕ) → Inside (a + 1) n r → Inside a (suc n) r
    wider none h = tt
    wider (some x) h = (omega arith, omega arith)

module _ (f64 : F64) (core : Core) (view : core.State → Machine) (p : Profile) (info : StackInfo)
    (isp w : ℕ) where
  abbrev size : ℕ
  size = info.highest - info.lowest

  judged :
      (r : Option ℕ) (s : core.State)
      → IsRounded f64
      → 0 < size
      → info.highest ≤ isp
      → isp < u32_mod
      → Inside info.lowest size r
      → Returns
          (λ likely _. IsVerdict (used isp r) size likely)
          ((lift (usage p isp r) >>= λ min_stack_usage.
              pure (is_overflow_likely f64 min_stack_usage (canary_of f64 info).size_kb))
            s)
  judged none s rounded pos top small h =
      is_overflow_likely-IsVerdict f64 rounded 0 size (omega arith) pos (omega arith)
  judged (some x) s rounded pos top small (above, below) =
      rw (sub_u32-fits p isp x (omega arith) small)
        (is_overflow_likely-IsVerdict f64 rounded (isp - x) size (omega arith) pos (omega arith))

  -- With floating-point operations that round as IEEE 754 says, on a core that carries out the
  -- instructions of the machine code, a measurement that succeeds reports an overflow as likely if
  -- more than nine tenths of the canary's size lie between the lowest touched byte of the canary and
  -- the initial stack pointer, and as not likely if less do; with no byte touched it never is. Just at
  -- nine tenths it may be either. The canary covers 20 bytes and `w` words below the initial stack
  -- pointer, which is a 32-bit number, and does not start at 0.
  pub measure-likely :
      (s s' : core.State) (likely : Bool)
      → IsRounded f64
      → IsThumb core view
      → IsMemory (view s).memory
      → size ≡ 20 + 4 * w
      → 0 < info.lowest
      → info.highest ≤ isp
      → isp < u32_mod
      → measure core p f64 isp (canary_of f64 info) s ≡ (ok likely, s')
      → IsVerdict (used isp (first_touched (view s).memory info.lowest size)) size likely
  unfolding measure
  measure-likely s s' likely rounded thumb small count positive top fits h =
      Returns-elim Q (measure core p f64 isp (canary_of f64 info) s) h (
        >>=-Returns Q (Subroutine.measure core p info.lowest size) judge s (λ r t e.
          let is =
            measure-touched core view thumb p info.lowest w size count positive (omega arith) s t r
              small e in
          rw is (
            judged (first_touched (view s).memory info.lowest size) t rounded (omega arith) top fits
              (first_touched-Inside (view s).memory size info.lowest))))
    where
      Q : Bool → core.State → Type 0
      Q b _ = IsVerdict (used isp (first_touched (view s).memory info.lowest size)) size b

      judge : Option ℕ → core.State → Result Bool × core.State
      judge r = lift (usage p isp r) >>= λ min_stack_usage.
          pure (is_overflow_likely f64 min_stack_usage (canary_of f64 info).size_kb)
