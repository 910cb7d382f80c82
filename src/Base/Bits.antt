-- ===== src/Base/Bits.antt =====
-- Laws of `bit_and` and `bit_or` at masks, for numbers of every width.
use Prim.Native.Nat.{
  ℕ, zero, suc, ◌+◌, ◌-◌, ◌*◌, ◌/◌, ◌%◌, ◌^◌, ◌≤◌, ◌<◌, min, max, digits, bit_and-bitwise,
  bit_or-bitwise,
}
pub use Prim.Native.Nat.{bit_and, bit_or}
use mathlib.Core.Path.{◌≡◌, refl, ap, subst, ◌∙◌}
use mathlib.Core.Logic.{inl, inr}
use probe_run.Base.Tests.{Bool-cases, leb, ltb}
use native.Mathlib.Omega.{arith}
use native.Mathlib.Nat.{pow-suc, one-le-pow}

-- any operation on the binary digits
module _ (rest : ℕ → ℕ) (op : ℕ → ℕ → ℕ) where
  one_more : (n x y : ℕ) → x ≤ n → digits rest op (suc n) x y ≡ digits rest op n x y
  one_more n zero y h = nothing_left n
    where
      nothing_left : (k : ℕ) → rest y ≡ digits rest op k zero y
      nothing_left zero = refl
      nothing_left (suc k) = refl
  one_more zero (suc x) y h = absurd (omega arith)
  one_more (suc n) (suc x) y h =
      ap (λ q. q * 2 + op (suc x % 2) (y % 2)) (one_more n (suc x / 2) (y / 2) (omega arith))

  -- a count above the first number does no more than that number itself
  settle : (n x y : ℕ) → x ≤ n → digits rest op n x y ≡ digits rest op x x y
  settle zero x y h =
      let none_left : 0 ≡ x = omega arith in
      subst (λ k. digits rest op 0 x y ≡ digits rest op k x y) none_left refl
  settle (suc n) x y h = elim (Bool-cases (leb x n)) [
    | inl below ↦ one_more n x y (ground arith) ∙ settle n x y (ground arith)
    | inr top ↦
        let all : suc n ≡ x = ground arith in
        subst (λ k. digits rest op (suc n) x y ≡ digits rest op k x y) all refl
  ]

  peel :
      (x y : ℕ)
      → 0 < x
      → digits rest op x x y ≡ digits rest op (x / 2) (x / 2) (y / 2) * 2 + op (x % 2) (y % 2)
  peel zero y h = absurd (omega arith)
  peel (suc x) y h =
      ap (λ q. q * 2 + op (suc x % 2) (y % 2)) (settle x (suc x / 2) (y / 2) (omega arith))

-- The lowest digit and those above it, of both operations.
pub bit_and_step : (a b : ℕ) → bit_and a b ≡ bit_and (a / 2) (b / 2) * 2 + min (a % 2) (b % 2)
bit_and_step a b = elim (Bool-cases (ltb 0 a)) [
  | inl some_digit ↦ omega (
    arith,
    peel (λ y. zero) min a b (ground arith),
    bit_and-bitwise a b,
    bit_and-bitwise (a / 2) (b / 2),
  )
  | inr no_digit ↦
      let empty : 0 ≡ a = ground arith in
      subst (λ x. bit_and x b ≡ bit_and (x / 2) (b / 2) * 2 + min (x % 2) (b % 2)) empty
        (omega (arith, bit_and-bitwise 0 b, bit_and-bitwise 0 (b / 2)))
]

pub bit_or_step : (a b : ℕ) → bit_or a b ≡ bit_or (a / 2) (b / 2) * 2 + max (a % 2) (b % 2)
bit_or_step a b = elim (Bool-cases (ltb 0 a)) [
  | inl some_digit ↦ omega (
    arith,
    peel (λ y. y) max a b (ground arith),
    bit_or-bitwise a b,
    bit_or-bitwise (a / 2) (b / 2),
  )
  | inr no_digit ↦
      let empty : 0 ≡ a = ground arith in
      subst (λ x. bit_or x b ≡ bit_or (x / 2) (b / 2) * 2 + max (x % 2) (b % 2)) empty
        (omega (arith, bit_or-bitwise 0 b, bit_or-bitwise 0 (b / 2)))
]

-- zero as the second number, by the digits of a number of at most `n`
zero_right : (n a : ℕ) → a ≤ n → (bit_and a 0 ≡ 0) × (bit_or a 0 ≡ a)
zero_right zero a h =
    let empty : 0 ≡ a = omega arith in
    subst (λ x. (bit_and x 0 ≡ 0) × (bit_or x 0 ≡ x)) empty (refl, refl)
zero_right (suc n) a h =
    let (cleared, kept) = zero_right n (a / 2) (omega arith) in
    (omega (arith, bit_and_step a 0, cleared), omega (arith, bit_or_step a 0, kept))

bit_and-zero : (a : ℕ) → bit_and a 0 ≡ 0
bit_and-zero a = (zero_right a a (omega arith)).0

bit_or-zero : (a : ℕ) → bit_or a 0 ≡ a
bit_or-zero a = (zero_right a a (omega arith)).1

mul-pow-suc : (q k : ℕ) → q * 2 ^ suc k ≡ 2 * (q * 2 ^ k)
mul-pow-suc q k = omega (arith, ap (λ (t : ℕ). q * t) (pow-suc 2 k))

bit_and_split : (k q r : ℕ) → r < 2 ^ k → bit_and (q * 2 ^ k + r) (2 ^ k - 1) ≡ r
bit_and_split zero q r h = rw bit_and-zero (omega arith)
bit_and_split (suc k) q r h = ground (
  arith,
  bit_and_step (q * 2 ^ suc k + r) (2 ^ suc k - 1),
  mul-pow-suc q k,
  pow-suc 2 k,
  bit_and_split k q (r / 2) (omega arith),
)

-- A mask of `k` ones keeps the remainder by `2 ^ k`.
pub bit_and_ones : (k a : ℕ) → bit_and a (2 ^ k - 1) ≡ a % 2 ^ k
bit_and_ones k a = ground (arith, one-le-pow k 2, bit_and_split k (a / 2 ^ k) (a % 2 ^ k))

pub bit_and-one : (a : ℕ) → bit_and a 1 ≡ a % 2
bit_and-one a = bit_and_ones 1 a

-- `a & !1` on 32 bits clears the lowest digit.
pub bit_and_even : (a : ℕ) → a < 2 ^ 32 → bit_and a (2 ^ 32 - 2) ≡ a - a % 2
bit_and_even a h = omega (arith, bit_and_step a (2 ^ 32 - 2), bit_and_ones 31 (a / 2))

-- `a | 1` sets the lowest digit.
pub bit_or-one : (a : ℕ) → bit_or a 1 ≡ a + 1 - a % 2
bit_or-one a = omega (arith, bit_or_step a 1, bit_or-zero (a / 2))

-- `(a & !3) | 2` on 32 bits: the two lowest digits become 10, the others stay.
pub bit_or_and_mode : (a : ℕ) → a < 2 ^ 32 → bit_or (bit_and a (2 ^ 32 - 4)) 2 ≡ a - a % 4 + 2
bit_or_and_mode a h = omega (
  arith,
  bit_and_step a (2 ^ 32 - 4),
  bit_and_step (a / 2) (2 ^ 31 - 2),
  bit_and_ones 30 (a / 2 / 2),
  bit_or_step (bit_and a (2 ^ 32 - 4)) 2,
  bit_or_step (bit_and a (2 ^ 32 - 4) / 2) 1,
  bit_or-zero (bit_and a (2 ^ 32 - 4) / 2 / 2),
)
