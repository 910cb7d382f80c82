-- ===== src/Canary/Laws.antt =====
-- When src/canary.rs places the canary, and what it makes of the measured stack.
use probe_run.Base.{
  ℕ, ◌-◌, ◌%◌, ◌≤◌, ◌<◌, ◌≡◌, refl, Bool, true, false, not, ◌||◌, none, some, ltb, ◌==◌, arith,
  if◌then◌else◌,
}
use probe_run.Result
use probe_run.Result.{Result, ok, panic, assertion}
use probe_run.U32.{Profile, u32_mod, sub_u32-fits}
use probe_run.TargetInfo.{StackInfo}
use probe_run.Canary.{F64, Canary, prepare, assert_subroutines, place, kib}

module _ (f64 : F64) where
  -- the canary of a stack range
  abbrev pub canary_of : StackInfo → Canary f64
  canary_of info = record {
    addr = info.lowest;
    data_below_stack = info.data_below_stack;
    size = info.highest - info.lowest;
    size_kb = kib f64 (info.highest - info.lowest);
  }

  assert_subroutines_lem :
      (addr size : ℕ)
      → assert_subroutines addr size ≡ (
          if not (addr % 4 == 0) || not (size % 4 == 0)
          then panic assertion
          else if ltb size 20
          then ok none
          else ok (some tt))
  unfolding assert_subroutines
  assert_subroutines_lem addr size = ground arith

  -- two addresses are aligned exactly if the lower one and their distance are
  aligned :
      (a b : ℕ)
      → a ≤ b
      → (not (a % 4 == 0) || not ((b - a) % 4 == 0)) ≡ (not (a % 4 == 0) || not (b % 4 == 0))
  aligned a b h = ground arith

  placed :
      (info : StackInfo) (misaligned short : Bool)
      → Result.◌>>=◌
          (if misaligned then panic assertion else if short then ok none else ok (some tt))
          (λ fits. ok (place f64 info (info.highest - info.lowest) fits))
        ≡ (if misaligned
            then panic assertion
            else if short
            then ok none
            else ok (some (canary_of info)))
  placed info true short = refl
  placed info false true = refl
  placed info false false = refl

  -- A stack range of 32-bit addresses, where the program does not use the heap: without word alignment
  -- the tool panics; with it, the canary covers the range, and is left out if this has less than the
  -- 20 bytes of the longer subroutine. With the heap in use it is left out in any case.
  pub prepare_lem :
      (p : Profile) (heap : Bool) (info : StackInfo)
      → info.lowest ≤ info.highest
      → info.highest < u32_mod
      → prepare f64 p heap (some info) ≡ (
          if heap
          then ok none
          else if not (info.lowest % 4 == 0) || not (info.highest % 4 == 0)
          then panic assertion
          else if ltb (info.highest - info.lowest) 20
          then ok none
          else ok (some (canary_of info)))
  unfolding prepare
  prepare_lem p true info le small = refl
  prepare_lem p false info le small = rw (sub_u32-fits p info.highest info.lowest le small) (
      rw (assert_subroutines_lem info.lowest (info.highest - info.lowest))
        (rw (aligned info.lowest info.highest le) (placed info _ _)))
