-- ===== src/Canary/Subroutine/Match.antt =====
-- The search by words of src/canary.rs finds the word of the first touched byte.
use probe_run.Base.{
  ℕ, zero, suc, ◌+◌, ◌*◌, ◌≤◌, ◌<◌, ◌≡◌, ◌⊎◌, inl, inr, refl, ap, ◌∙◌, false, Option, none, some,
  ◌==◌, arith, Bool-cases,
}
use probe_run.Canary.Subroutine.{canary_u8, canary_u32, position}
use probe_run.Canary.Subroutine.Words.{
  IsMemory, bytes_at, word_at, first_touched, measured, bytes_in, Located, located,
  first_touched-more, first_touched-hit,
}

untouched_step :
    (mem : ℕ → ℕ) (n a : ℕ)
    → first_touched mem a (suc n) ≡ none
    → (mem a ≡ canary_u8) × (first_touched mem (a + 1) n ≡ none)
untouched_step mem n a h = elim (Bool-cases (mem a == canary_u8)) [
  | inl e ↦ (ground arith, rw e at h)
  | inr e ↦ absurd (let bad : some a ≡ none = rw e at h in cc)
]

word_at-pattern : (mem : ℕ → ℕ) (a : ℕ) → first_touched mem a 4 ≡ none → word_at mem a ≡ canary_u32
word_at-pattern mem a h =
    let (b0, h1) = untouched_step mem 3 a h in
    let (b1, h2) = untouched_step mem 2 (a + 1) h1 in
    let (b2, h3) = untouched_step mem 1 (a + 1 + 1) h2 in
    let (b3, h4) = untouched_step mem 0 (a + 1 + 1 + 1) h3 in rw (b0, b1, b2, b3) (omega arith)

pattern_bytes :
    (b0 b1 b2 b3 : ℕ)
    → b0 < 256
    → b1 < 256
    → b2 < 256
    → b3 < 256
    → b0 + b1 * 256 + b2 * 65536 + b3 * 16777216 ≡ canary_u32
    → (b0 ≡ canary_u8) × (b1 ≡ canary_u8) × (b2 ≡ canary_u8) × (b3 ≡ canary_u8)
pattern_bytes b0 b1 b2 b3 h0 h1 h2 h3 h = (omega arith, omega arith, omega arith, omega arith)

contradiction : (x : ℕ) → ¬ (◌≡◌ {A = Option ℕ} none (some x))
contradiction x h = cc

word_at-touched :
    (mem : ℕ → ℕ) (a x : ℕ)
    → IsMemory mem
    → first_touched mem a 4 ≡ some x
    → (word_at mem a == canary_u32) ≡ false
word_at-touched mem a x small h = elim (Bool-cases (word_at mem a == canary_u32)) [
  | inl e ↦
      let (b0, b1, b2, b3) =
        pattern_bytes (mem a) (mem (a + 1)) (mem (a + 1 + 1)) (mem (a + 1 + 1 + 1)) (small a)
          (small (a + 1)) (small (a + 1 + 1)) (small (a + 1 + 1 + 1)) (ground (arith, e)) in
      absurd (contradiction x (rw (b0, b1, b2, b3) at h))
  | inr e ↦ e
]

-- Where the search by words ends, and where the first touched byte is.
abbrev pub Matches : (mem : ℕ → ℕ) → (a w : ℕ) → Type 0
Matches mem a w =
    ((first_touched mem a (bytes_in w) ≡ none) × (measured mem a w ≡ 0))
    ⊎ ((b : ℕ) × (i : ℕ) × (measured mem a w ≡ b)
        × (a ≤ b)
        × (b + 4 ≤ a + bytes_in w)
        × (first_touched mem a (bytes_in w) ≡ some (b + i))
        × (position (bytes_at mem b 4) ≡ some i)
        × (i < 4))

pub matches : (mem : ℕ → ℕ) (w a : ℕ) → IsMemory mem → Matches mem a w
matches mem zero a small = inl (refl, refl)
matches mem (suc w) a small =
    by_word (first_touched mem a 4) refl (located mem 4 a) (matches mem w (a + 4) small)
  where
    by_word :
        (r : Option ℕ)
        → first_touched mem a 4 ≡ r
        → Located mem a 4 r
        → Matches mem (a + 4) w
        → Matches mem a (suc w)
    by_word (some x) e (i, at, sum, lt) later = inr (
      a,
      i,
      rw (word_at-touched mem a x small e) refl,
      omega arith,
      omega arith,
      first_touched-hit mem 4 (bytes_in w) a x e ∙ ap some sum,
      at,
      lt,
    )
    by_word none e at (inl (none_later, zero_later)) = inl (
      first_touched-more mem 4 (bytes_in w) a e ∙ none_later,
      rw (word_at-pattern mem a e) zero_later,
    )
    by_word none e at (inr (b, i, found, low, high, first, pos_at, lt)) = inr (
      b,
      i,
      rw (word_at-pattern mem a e) found,
      omega (arith, low),
      omega (arith, high),
      first_touched-more mem 4 (bytes_in w) a e ∙ first,
      pos_at,
      lt,
    )
