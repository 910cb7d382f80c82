-- ===== src/U32.antt =====
-- `u32` arithmetic. A build with overflow checks (the dev profile) panics where the exact result
-- does not fit; a release build wraps.
use probe_run.Base.{ℕ, suc, ap, ◌+◌, ◌-◌, ◌%◌, ◌^◌, ◌≤◌, ◌<◌, ◌≡◌, arith, ltb, leb, if◌then◌else◌}
use probe_run.Base.Int.{ℤ, pos, negsuc, ◌+ℤ◌, ltb_ℤ, as_u32, as_u32-+ℤ_pos, as_u32-+ℤ_negsuc}
use probe_run.Result.{Result, ok, panic, overflow}

pub data Profile : Type 0 where
  dev release : Profile

abbrev pub u32_mod : ℕ
u32_mod = 2 ^ 32

abbrev pub u32_max : ℕ
u32_max = 2 ^ 32 - 1

unfoldable pub add_u32 : Profile → ℕ → ℕ → Result ℕ
add_u32 dev a b = if ltb (a + b) u32_mod then ok (a + b) else panic overflow
add_u32 release a b = ok ((a + b) % u32_mod)

unfoldable pub sub_u32 : Profile → ℕ → ℕ → Result ℕ
sub_u32 dev a b = if leb b a then ok (a - b) else panic overflow
sub_u32 release a b = ok ((a + u32_mod - b) % u32_mod)

-- `(i64::from(a) + offset) as u32`: the sum is an `i64`, the cast wraps in every build.
unfoldable pub add_offset : Profile → ℕ → ℤ → Result ℕ
add_offset dev a offset =
    if ltb_ℤ (pos (2 ^ 63 - 1)) (pos a +ℤ offset)
    then panic overflow
    else ok (as_u32 (pos a +ℤ offset))
add_offset release a offset = ok (as_u32 (pos a +ℤ offset))

-- `x.try_into().unwrap_or(u32::MAX)` for a 64-bit x
abbrev pub saturate_u32 : ℕ → ℕ
saturate_u32 x = if ltb x u32_mod then x else u32_max

pub add_u32-fits : (p : Profile) (a b : ℕ) → a + b < u32_mod → add_u32 p a b ≡ ok (a + b)
unfolding add_u32
add_u32-fits dev a b h = ground arith
add_u32-fits release a b h = ground arith

pub sub_u32-fits : (p : Profile) (a b : ℕ) → b ≤ a → a < u32_mod → sub_u32 p a b ≡ ok (a - b)
unfolding sub_u32
sub_u32-fits dev a b h k = ground arith
sub_u32-fits release a b h k = ground arith

pub add_u32-lt : (p : Profile) (a b c : ℕ) → add_u32 p a b ≡ ok c → c < u32_mod
unfolding add_u32
add_u32-lt dev a b c h = ground arith
add_u32-lt release a b c h = ground arith

pub add_offset-pos : (p : Profile) (a k : ℕ) → a + k < u32_mod → add_offset p a (pos k) ≡ ok (a + k)
unfolding add_offset ◌+ℤ◌
add_offset-pos dev a k h = ground (arith, as_u32-+ℤ_pos a k h)
add_offset-pos release a k h = ap ok (as_u32-+ℤ_pos a k h)

pub add_offset-negsuc :
    (p : Profile) (a k : ℕ) → suc k ≤ a → a < u32_mod → add_offset p a (negsuc k) ≡ ok (a - suc k)
unfolding add_offset ◌+ℤ◌
add_offset-negsuc dev a k h small = ground (arith, as_u32-+ℤ_negsuc a k h small)
add_offset-negsuc release a k h small = ap ok (as_u32-+ℤ_negsuc a k h small)
