-- ===== src/Canary/Subroutine/Laws.antt =====
-- What the searches of src/canary.rs find.
use probe_run.Base.{
  ℕ, zero, suc, ◌+◌, ◌<◌, ◌≡◌, ◌≢◌, refl, false, Option, none, some, List, [], ◌∷◌, arith, length,
  get_or, All, ◌==◌, Bool-cases, inl, inr,
}
use probe_run.Result.{ok}
use probe_run.U32.{Profile, u32_mod, add_u32-fits}
use probe_run.Exec.{lift}
use probe_run.Core.{Core}
use probe_run.Canary.Subroutine.{
  canary_u8, canary_u32, measure_size, position, to_le_bytes, search_with_probe, get_result,
  touched_at, expect_touched,
}

-- the first byte of a list that is not the canary's stands at the index
abbrev pub IsFirst : List ℕ → ℕ → Type 0
IsFirst bytes n =
    (n < length bytes)
    × (get_or bytes n 0 ≢ canary_u8)
    × ((i : ℕ) → i < n → get_or bytes i 0 ≡ canary_u8)

abbrev pub IsPosition : List ℕ → Option ℕ → Type 0
IsPosition bytes none = All (λ b. b ≡ canary_u8) bytes
IsPosition bytes (some n) = IsFirst bytes n

IsFirst-suc :
    (b : ℕ) (rest : List ℕ) (n : ℕ) → b ≡ canary_u8 → IsFirst rest n → IsFirst (b ∷ rest) (suc n)
IsFirst-suc b rest n same (lt, touched, before) = (omega arith, touched, below)
  where
    below : (i : ℕ) → i < suc n → get_or (b ∷ rest) i 0 ≡ canary_u8
    below zero h = same
    below (suc i) h = before i (omega arith)

pub position-IsPosition : (bytes : List ℕ) → IsPosition bytes (position bytes)
unfolding position
position-IsPosition [] = tt
position-IsPosition (b ∷ rest) = elim (Bool-cases (b == canary_u8)) [
  | inl e ↦ rw e (behind (ground arith) (position rest) (position-IsPosition rest))
  | inr e ↦ rw e (omega arith, ground arith, λ i h. absurd (omega arith))
]
  where
    behind :
        b ≡ canary_u8
        → (later : Option ℕ) → IsPosition rest later
        → IsPosition (b ∷ rest) (elim later [ none ↦ none | some n ↦ some (suc n) ])
    behind same none all = (same, all)
    behind same (some n) first = IsFirst-suc b rest n same first

module _ (core : Core) (p : Profile) where
  -- What the search with the probe finds in the bytes that it read: their first byte that is not
  -- the canary's, or nothing if all of them are.
  abbrev pub IsSearch : (low_addr : ℕ) → List ℕ → Option ℕ → Type 0
  IsSearch low_addr bytes none = All (λ b. b ≡ canary_u8) bytes
  IsSearch low_addr bytes (some addr) = (n : ℕ) × (addr ≡ low_addr + n) × IsFirst bytes n

  -- If the probe reads as many bytes as it is asked for and they lie in the address space, the
  -- search returns the address of the first byte that is not the canary's, or `none` if there is
  -- no such byte.
  pub search_with_probe_lem :
      (low_addr : ℕ) (bytes : List ℕ) (s s' : core.State)
      → low_addr + measure_size < u32_mod
      → length bytes ≡ measure_size
      → core.read_8 low_addr measure_size s ≡ (ok bytes, s')
      → (found : Option ℕ) × (search_with_probe core p low_addr s ≡ (ok found, s'))
        × IsSearch low_addr bytes found
  unfolding search_with_probe
  search_with_probe_lem low_addr bytes s s' fits len got =
      rw got (located (position bytes) (position-IsPosition bytes))
    where
      located :
          (pos : Option ℕ)
          → IsPosition bytes pos
          → (found : Option ℕ) × (lift (touched_at core p low_addr pos) s' ≡ (ok found, s'))
            × IsSearch low_addr bytes found
      located none all = (none, refl, all)
      located (some n) (lt, touched, before) = (
        some (low_addr + n),
        rw (add_u32-fits p low_addr n (omega arith)),
        (n, refl, (lt, touched, before)),
      )

-- a word that is not the canary has a byte that is not
word_touched : (w : ℕ) → w < u32_mod → w ≢ canary_u32 → ¬ (All (λ b. b ≡ canary_u8) (to_le_bytes w))
unfolding to_le_bytes
word_touched w h n (a, (b, (c, (d, _)))) = n (omega arith)

in_word : (a n w : ℕ) → a + 4 < u32_mod → n < length (to_le_bytes w) → a + n < u32_mod
unfolding to_le_bytes
in_word a n w fits h = omega arith

-- A word that the subroutine reports, and that is not the canary, yields the address of its first
-- byte that is not the canary's, in little endian order; the `expect` never fails.
pub get_result_lem :
    (core : Core) (p : Profile) (word_addr word : ℕ) (s s' s'' : core.State)
    → 0 < word_addr
    → word_addr + 4 < u32_mod
    → word < u32_mod
    → word ≢ canary_u32
    → core.read_core_reg 0 s ≡ (ok word_addr, s')
    → core.read_word_32 word_addr s' ≡ (ok word, s'')
    → (n : ℕ) × (get_result core p s ≡ (ok (some (word_addr + n)), s''))
      × IsFirst (to_le_bytes word) n
unfolding get_result
get_result_lem core p word_addr word s s' s'' pos fits small touched reg mem =
    let nonzero : (word_addr == 0) ≡ false = ground arith in
    rw reg (
      rw nonzero
        (rw mem (offset (position (to_le_bytes word)) (position-IsPosition (to_le_bytes word)))))
  where
    offset :
        (pos : Option ℕ)
        → IsPosition (to_le_bytes word) pos
        → (n : ℕ) × (lift (expect_touched core p word_addr pos) s''
            ≡ (ok (some (word_addr + n)), s''))
          × IsFirst (to_le_bytes word) n
    offset none all = absurd (word_touched word small touched all)
    offset (some n) (lt, differs, before) = (
      n,
      rw (add_u32-fits p word_addr n (in_word word_addr n word fits lt)),
      (lt, differs, before),
    )
