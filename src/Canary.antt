-- ===== src/Canary.antt =====
-- src/canary.rs: the stack canary, which is painted before the program runs and measured after it.
-- The painted part is searched by code on the target; `f64` arithmetic is the argument `F64`.
-- Logging is left out.
pub mod Subroutine
pub mod Thumb
pub mod Laws
pub mod Float
pub mod Installed
pub mod Likely
use probe_run.Base.{
  ℕ, ◌%◌, Bool, true, false, not, ◌||◌, Option, none, some, ltb, ◌==◌, if◌then◌else◌,
}
use probe_run.Result
use probe_run.Result.{Result, ok, panic, assertion}
use probe_run.U32.{Profile, sub_u32}
use probe_run.Exec.{Exec, pure, lift, ◌>>=◌, ◌>>◌}
use probe_run.Core.{Core}
use probe_run.TargetInfo.{StackInfo}
use Subroutine
use Subroutine.{paint_size, measure_size}

-- the arithmetic on `f64` that the percentage is computed with
pub record F64 : Type 1 where
  pub Carrier : Type 0
  pub from_u32 : ℕ → Carrier
  pub div : Carrier → Carrier → Carrier
  pub mul : Carrier → Carrier → Carrier
  pub gt : Carrier → Carrier → Bool

module _ (f64 : F64) where
  pub record Canary : Type 0 where
    pub addr : ℕ
    pub data_below_stack : Bool
    pub size : ℕ
    pub size_kb : f64.Carrier

-- `None` if the subroutines do not fit
unfoldable pub assert_subroutines : (stack_addr stack_size : ℕ) → Result (Option (Unit {0}))
assert_subroutines stack_addr stack_size =
    if not (stack_addr % 4 == 0)
    then panic assertion
    else if not (stack_size % 4 == 0)
    then panic assertion
    else if not (paint_size % 4 == 0)
    then panic assertion
    else if not (measure_size % 4 == 0)
    then panic assertion
    else if ltb stack_size paint_size || ltb stack_size measure_size
    then ok none
    else ok (some tt)

module _ (f64 : F64) where
  -- a size in bytes as KiB
  abbrev pub kib : ℕ → f64.Carrier
  kib bytes = f64.div (f64.from_u32 bytes) (f64.from_u32 1024)

  abbrev pub place : StackInfo → ℕ → Option (Unit {0}) → Option (Canary f64)
  place info stack_size none = none
  place info stack_size (some _) = some (record {
    addr = info.lowest;
    data_below_stack = info.data_below_stack;
    size = stack_size;
    size_kb = kib stack_size;
  })

  unfoldable pub prepare :
      Profile → (program_uses_heap : Bool) → Option StackInfo → Result (Option (Canary f64))
  unfolding assert_subroutines
  prepare profile program_uses_heap none = ok none
  prepare profile program_uses_heap (some info) =
      if program_uses_heap
      then ok none
      else Result.◌>>=◌ (sub_u32 profile info.highest info.lowest) (λ stack_size.
        Result.◌>>=◌ (assert_subroutines info.lowest stack_size)
          (λ fits. ok (place info stack_size fits)))

  -- `used_kb / size_kb * 100.0 > 90.0`
  unfoldable pub is_overflow_likely : ℕ → f64.Carrier → Bool
  is_overflow_likely used size_kb =
      f64.gt (f64.mul (f64.div (kib used) size_kb) (f64.from_u32 100)) (f64.from_u32 90)

abbrev pub usage : Profile → (initial_stack_pointer : ℕ) → Option ℕ → Result ℕ
usage profile initial_stack_pointer none = ok 0
usage profile initial_stack_pointer (some touched_address) =
    sub_u32 profile initial_stack_pointer touched_address

module _ (core : Core) (profile : Profile) (f64 : F64) where
  abbrev pub paint_canary : Option (Canary f64) → Exec core.State (Option (Canary f64))
  paint_canary none = pure none
  paint_canary (some canary) =
      Subroutine.paint core profile canary.addr canary.size >> pure (some canary)

  unfoldable pub install :
      (program_uses_heap : Bool) → Option StackInfo → Exec core.State (Option (Canary f64))
  unfolding prepare
  install program_uses_heap stack_info =
      lift (prepare f64 profile program_uses_heap stack_info) >>= paint_canary

  -- Returns whether a stack overflow is likely.
  unfoldable pub measure : (initial_stack_pointer : ℕ) → Canary f64 → Exec core.State Bool
  unfolding is_overflow_likely
  measure initial_stack_pointer canary = do
    touched_address ← Subroutine.measure core profile canary.addr canary.size
    min_stack_usage ← lift (usage profile initial_stack_pointer touched_address)
    pure (is_overflow_likely f64 min_stack_usage canary.size_kb)
