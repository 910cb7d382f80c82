-- ===== src/Canary/Subroutine/Words.antt =====
-- The bytes and words of the painted memory of src/canary.rs, and two searches through them.
use probe_run.Base.{
  ℕ, zero, suc, ◌+◌, ◌*◌, ◌/◌, ◌%◌, ◌<◌, ◌≡◌, inl, inr, refl, ap, ◌∙◌, true, false, Option, none,
  some, List, [], ◌∷◌, ◌==◌, arith, Bool-cases, if◌then◌else◌,
}
use probe_run.Result.{ok}
use probe_run.U32.{Profile, u32_mod, add_u32-fits}
use probe_run.Core.{Core}
use probe_run.Canary.Subroutine.{canary_u8, canary_u32, position, to_le_bytes, touched_at}

abbrev pub IsMemory : (ℕ → ℕ) → Type 0
IsMemory mem = (a : ℕ) → mem a < 256

abbrev pub bytes_at : (ℕ → ℕ) → ℕ → ℕ → List ℕ
bytes_at mem a zero = []
bytes_at mem a (suc n) = mem a ∷ bytes_at mem (a + 1) n

abbrev pub word_at : (ℕ → ℕ) → ℕ → ℕ
word_at mem a = mem a + mem (a + 1) * 256 + mem (a + 1 + 1) * 65536 + mem (a + 1 + 1 + 1) * 16777216

-- the first of `n` bytes that is not the pattern
abbrev pub first_touched : (ℕ → ℕ) → ℕ → ℕ → Option ℕ
first_touched mem a zero = none
first_touched mem a (suc n) =
    let later = first_touched mem (a + 1) n in if mem a == canary_u8 then later else some a

-- the Rust function of the measurement: the first of `n` words that is not the pattern, or 0
abbrev pub measured : (ℕ → ℕ) → ℕ → ℕ → ℕ
measured mem a zero = 0
measured mem a (suc n) =
    let later = measured mem (a + 4) n in if word_at mem a == canary_u32 then later else a

-- the sum, and four times a number, as counts of a search
abbrev pub more : ℕ → ℕ → ℕ
more zero m = m
more (suc n) m = suc (more n m)

abbrev pub bytes_in : ℕ → ℕ
bytes_in zero = zero
bytes_in (suc w) = more 4 (bytes_in w)

pub bytes_in_lem : (w : ℕ) → bytes_in w ≡ 4 * w
bytes_in_lem zero = refl
bytes_in_lem (suc w) = omega (arith, bytes_in_lem w)

pub more_lem : (n m : ℕ) → more n m ≡ n + m
more_lem zero m = omega arith
more_lem (suc n) m = omega (arith, more_lem n m)

pub to_le_bytes-word_at :
    (mem : ℕ → ℕ) (a : ℕ) → IsMemory mem → to_le_bytes (word_at mem a) ≡ bytes_at mem a 4
unfolding to_le_bytes
to_le_bytes-word_at mem a small =
    le (mem a) (mem (a + 1)) (mem (a + 1 + 1)) (mem (a + 1 + 1 + 1)) (small a) (small (a + 1))
      (small (a + 1 + 1)) (small (a + 1 + 1 + 1))
  where
    le :
        (b0 b1 b2 b3 : ℕ)
        → b0 < 256
        → b1 < 256
        → b2 < 256
        → b3 < 256
        → ◌≡◌ {A = List ℕ}
            ((b0 + b1 * 256 + b2 * 65536 + b3 * 16777216) % 256
              ∷ (b0 + b1 * 256 + b2 * 65536 + b3 * 16777216) / 256 % 256
              ∷ (b0 + b1 * 256 + b2 * 65536 + b3 * 16777216) / 65536 % 256
              ∷ (b0 + b1 * 256 + b2 * 65536 + b3 * 16777216) / 16777216 % 256
              ∷ [])
            (b0 ∷ b1 ∷ b2 ∷ b3 ∷ [])
    le b0 b1 b2 b3 h0 h1 h2 h3 =
        let e0 : (b0 + b1 * 256 + b2 * 65536 + b3 * 16777216) % 256 ≡ b0 = omega arith in
        let e1 : (b0 + b1 * 256 + b2 * 65536 + b3 * 16777216) / 256 % 256 ≡ b1 = omega arith in
        let e2 : (b0 + b1 * 256 + b2 * 65536 + b3 * 16777216) / 65536 % 256 ≡ b2 = omega arith in
        let e3 : (b0 + b1 * 256 + b2 * 65536 + b3 * 16777216) / 16777216 % 256 ≡ b3 = omega arith in
        rw (e0, e1, e2, e3) refl

-- where the first touched byte is, for the positions that the program computes
abbrev pub Located : (mem : ℕ → ℕ) → ℕ → ℕ → Option ℕ → Type 0
Located mem a n none = position (bytes_at mem a n) ≡ none
Located mem a n (some x) = (i : ℕ) × (position (bytes_at mem a n) ≡ some i) × (x ≡ a + i) × (i < n)

abbrev next_position : Option ℕ → Option ℕ
next_position none = none
next_position (some n) = some (suc n)

position-pattern :
    (b : ℕ) (rest : List ℕ) (r : Option ℕ)
    → (b == canary_u8) ≡ true
    → position rest ≡ r
    → position (b ∷ rest) ≡ next_position r
unfolding position
position-pattern b rest none e h = rw e (rw (h, position) refl)
position-pattern b rest (some n) e h = rw e (rw (h, position) refl)

position-touched : (b : ℕ) (rest : List ℕ) → (b == canary_u8) ≡ false → position (b ∷ rest) ≡ some 0
unfolding position
position-touched b rest e = rw e refl

pub located : (mem : ℕ → ℕ) (n a : ℕ) → Located mem a n (first_touched mem a n)
unfolding position
located mem zero a = refl
located mem (suc n) a = elim (Bool-cases (mem a == canary_u8)) [
  | inl e ↦ rw e (shift e (first_touched mem (a + 1) n) (located mem n (a + 1)))
  | inr e ↦ rw e (0, position-touched (mem a) (bytes_at mem (a + 1) n) e, omega arith, omega arith)
]
  where
    shift :
        (mem a == canary_u8) ≡ true
        → (r : Option ℕ) → Located mem (a + 1) n r
        → Located mem a (suc n) r
    shift e none h = position-pattern (mem a) (bytes_at mem (a + 1) n) none e h
    shift e (some x) (i, at, sum, lt) = (
      suc i,
      position-pattern (mem a) (bytes_at mem (a + 1) n) (some i) e at,
      omega (arith, sum),
      omega (arith, lt),
    )

pub touched_at-first :
    (core : Core) (p : Profile) (mem : ℕ → ℕ) (a n : ℕ)
    → a + n < u32_mod
    → touched_at core p a (position (bytes_at mem a n)) ≡ ok (first_touched mem a n)
touched_at-first core p mem a n fits = by_place (first_touched mem a n) (located mem n a)
  where
    by_place :
        (r : Option ℕ)
        → Located mem a n r
        → touched_at core p a (position (bytes_at mem a n)) ≡ ok r
    by_place none h = rw h refl
    by_place (some x) (i, at, sum, lt) =
        rw at (rw (add_u32-fits p a i (omega (arith, lt))) (rw sum refl))

pub first_touched-more :
    (mem : ℕ → ℕ) (n m a : ℕ)
    → first_touched mem a n ≡ none
    → first_touched mem a (more n m) ≡ first_touched mem (a + n) m
first_touched-more mem zero m a h = ap (λ b. first_touched mem b m) (omega arith)
first_touched-more mem (suc n) m a h = elim (Bool-cases (mem a == canary_u8)) [
  | inl e ↦ rw e (
      first_touched-more mem n m (a + 1) (rw e at h)
      ∙ ap (λ b. first_touched mem b m) (omega arith))
  | inr e ↦ absurd (let bad : some a ≡ none = rw e at h in cc)
]

pub first_touched-hit :
    (mem : ℕ → ℕ) (n m a x : ℕ)
    → first_touched mem a n ≡ some x
    → first_touched mem a (more n m) ≡ some x
first_touched-hit mem zero m a x h = cc
first_touched-hit mem (suc n) m a x h = elim (Bool-cases (mem a == canary_u8)) [
  | inl e ↦ rw e (first_touched-hit mem n m (a + 1) x (rw e at h))
  | inr e ↦ rw e (rw e at h)
]
