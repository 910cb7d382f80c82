-- ===== src/TargetInfo/Stack.antt =====
-- The stack range of src/target_info.rs: what `extract_stack_info` promises about it.
use probe_run.Base.{
  ℕ, ◌+◌, ◌-◌, ◌≤◌, ◌<◌, ◌≡◌, ◌⊎◌, inl, inr, refl, subst, Option, none, some, List, [], ◌∷◌, arith,
  in_range, in_closed, All, ltb, ◌==◌, ◌&&◌, if◌then◌else◌, Bool-cases,
}
use mathlib.Core.Option.{some-injective}
use probe_run.Result.{ok, >>=-eq-ok, ok-injective}
use probe_run.U32.{Profile, add_u32-fits, sub_u32-fits, u32_mod, saturate_u32}
use probe_run.Elf.ObjectFile.{Section}
use probe_run.TargetInfo.{
  RamRegion, StackInfo, stack_info, narrow, visit, narrow_all, extract_stack_info,
}

-- a section that lies in the 32-bit address space
abbrev pub Fits32 : Section → Type 0
Fits32 s = s.address + s.size < u32_mod

-- A section that ends inside the RAM region keeps clear of the closed range from `lo` to `hi`.
abbrev pub Avoids : RamRegion → (lo hi : ℕ) → Section → Type 0
Avoids r lo hi s =
    0 < s.size
    → r.start < s.address + s.size
    → s.address + s.size ≤ r.end
    → (s.address + s.size ≤ lo) ⊎ (hi < s.address)

visit_fits :
    (p : Profile) (r : RamRegion) (s : Section) (lo hi : ℕ)
    → Fits32 s
    → visit p r s lo hi
      ≡ (if s.size == 0 then ok (some lo) else narrow p r s.address (s.address + s.size - 1) lo hi)
unfolding visit
visit_fits p r s lo hi h = elim (Bool-cases (s.size == 0)) [
  | inl e ↦ ground arith
  | inr e ↦ ground (arith, add_u32-fits p s.address s.size h, sub_u32-fits p (s.address + s.size) 1)
]

narrow_sound :
    (p : Profile) (r : RamRegion) (first last lo hi next : ℕ)
    → first ≤ last
    → lo ≤ hi
    → hi < u32_mod
    → narrow p r first last lo hi ≡ ok (some next)
    → (lo ≤ next) × (next ≤ hi) × (r.start ≤ last → last < r.end → (last < next) ⊎ (hi < first))
unfolding narrow
narrow_sound p r first last lo hi next f le h e = (
  ground (arith, add_u32-fits p last 1),
  ground (arith, add_u32-fits p last 1),
  λ a b. ground (arith, add_u32-fits p last 1),
)

-- One round keeps the range clear of its section, and raises the lower end at most.
visit_sound :
    (p : Profile) (r : RamRegion) (s : Section) (lo hi next : ℕ)
    → Fits32 s
    → lo ≤ hi
    → hi < u32_mod
    → visit p r s lo hi ≡ ok (some next)
    → (lo ≤ next) × (next ≤ hi) × Avoids r next hi s
visit_sound p r s lo hi next f le h e = elim (Bool-cases (s.size == 0)) [
  | inl z ↦
      let same : lo ≡ next = ground (arith, visit_fits p r s lo hi f) in
      (omega arith, omega arith, λ pos a b. absurd (ground arith))
  | inr z ↦
      let (up, down, clear) =
        narrow_sound p r s.address (s.address + s.size - 1) lo hi next (ground arith) le h
          (ground (arith, visit_fits p r s lo hi f)) in
      (up, down, λ pos a b. omega (arith, clear (omega arith) (omega arith)))
]

Avoids-mono :
    (r : RamRegion) (lo lo' hi : ℕ) (s : Section) → lo ≤ lo' → Avoids r lo hi s → Avoids r lo' hi s
Avoids-mono r lo lo' hi s le h pos a b = omega (arith, h pos a b)

-- The loop keeps the range clear of every section that ends in the RAM region, and not empty.
pub narrow_all_sound :
    (p : Profile) (r : RamRegion) (sections : List Section) (lo hi final : ℕ)
    → All Fits32 sections
    → lo ≤ hi
    → hi < u32_mod
    → narrow_all p r sections lo hi ≡ ok (some final)
    → (lo ≤ final) × (final ≤ hi) × All (Avoids r final hi) sections
unfolding narrow_all
narrow_all_sound p r [] lo hi final f le h e = (ground arith, ground arith, tt)
narrow_all_sound p r (s ∷ rest) lo hi final (f, fs) le h e =
    step (λ n k. narrow_all_sound p r rest n hi final fs k h) (>>=-eq-ok (visit p r s lo hi) _ e)
  where
    step :
        ((n : ℕ)
          → n ≤ hi
          → narrow_all p r rest n hi ≡ ok (some final)
          → (n ≤ final) × (final ≤ hi) × All (Avoids r final hi) rest)
        → (n : Option ℕ) × (visit p r s lo hi ≡ ok n)
          × (elim n [ none ↦ ok none | some lo' ↦ narrow_all p r rest lo' hi ] ≡ ok (some final))
        → (lo ≤ final) × (final ≤ hi) × All (Avoids r final hi) (s ∷ rest)
    step ih (none, seen, e1) = cc
    step ih (some next, seen, e1) =
        let (up, down, clear) = visit_sound p r s lo hi next f le h seen in
        let (up', down', later) = ih next down e1 in
        (omega arith, down', (Avoids-mono r next final hi s up' clear, later))

-- What the stack range promises: it runs up to the word below the stack pointer, starts in the
-- region, is not empty, and keeps clear of every non-empty section that ends in the region.
abbrev pub IsStackRange : RamRegion → List Section → ℕ → StackInfo → Type 0
IsStackRange r sections sp info =
    (info.highest ≡ sp - 4)
    × (r.start ≤ info.lowest)
    × (info.lowest ≤ info.highest)
    × All (Avoids r info.lowest info.highest) sections
    × (info.data_below_stack ≡ ltb r.start info.lowest)

-- A section that ends in the region and holds the byte at `hi`.
abbrev pub Covers : RamRegion → ℕ → Section → Type 0
Covers r hi s =
    (r.start < s.address + s.size)
    × (s.address + s.size ≤ r.end)
    × (s.address ≤ hi)
    × (hi < s.address + s.size)

module _ (p : Profile) (r : RamRegion) where
  visit_total :
      (s : Section) (lo hi : ℕ)
      → Fits32 s
      → lo ≤ hi
      → hi < u32_mod
      → ¬ (Covers r hi s)
      → (next : ℕ) × (visit p r s lo hi ≡ ok (some next))
  visit_total s lo hi f le h out = elim (Bool-cases (s.size == 0)) [
    | inl z ↦ (lo, rw (visit_fits p r s lo hi f) (rw z))
    | inr z ↦
        elim (Bool-cases (
          in_range r.start r.end (s.address + s.size - 1)
          && in_closed lo hi (s.address + s.size - 1))) [
            | inl e ↦ (
              s.address + s.size,
              rw (visit_fits p r s lo hi f)
                  (unfold narrow in ground (arith, out, add_u32-fits p (s.address + s.size - 1) 1)),
            )
            | inr e ↦ (lo, rw (visit_fits p r s lo hi f) (unfold narrow in ground (arith, out)))
          ]
  ]

  narrow_all_total :
      (sections : List Section) (lo hi : ℕ)
      → All Fits32 sections
      → lo ≤ hi
      → hi < u32_mod
      → All (λ s. ¬ (Covers r hi s)) sections
      → (final : ℕ) × (narrow_all p r sections lo hi ≡ ok (some final))
  unfolding narrow_all
  narrow_all_total [] lo hi f le h out = (lo, refl)
  narrow_all_total (s ∷ rest) lo hi (f, fs) le h (out, outs) =
      let (next, seen) = visit_total s lo hi f le h out in
      let (up, down, clear) = visit_sound p r s lo hi next f le h seen in
      let (final, loop) = narrow_all_total rest next hi fs down h outs in (final, rw seen loop)

  -- For sections in the 32-bit address space and a 32-bit stack pointer at least one word above the
  -- start of its RAM region: a stack range that is found runs up to the word below the stack
  -- pointer, starts in the region, is not empty and keeps clear of every non-empty section that
  -- ends in the region; data lie below it exactly if it starts above the region.
  pub extract_stack_info_sound :
      (sections : List Section) (sp : ℕ) (info : StackInfo)
      → All Fits32 sections
      → r.start + 4 ≤ sp
      → sp < u32_mod
      → extract_stack_info p sections sp r ≡ ok (some info)
      → IsStackRange r sections sp info
  unfolding extract_stack_info
  extract_stack_info_sound sections sp info fit above small e = found (
      >>=-eq-ok (narrow_all p r sections (saturate_u32 r.start) (sp - 4)) _
        (rw (sub_u32-fits p sp 4 (omega arith) small) at e))
    where
      found :
          (lo : Option ℕ) × (narrow_all p r sections (saturate_u32 r.start) (sp - 4) ≡ ok lo)
            × (ok (stack_info r (sp - 4) lo) ≡ ok (some info))
          → IsStackRange r sections sp info
      found (none, loop, e1) = cc
      found (some lo, loop, e1) =
          let (up, down, clear) =
            narrow_all_sound p r sections (saturate_u32 r.start) (sp - 4) lo fit (ground arith)
              (omega arith) loop in
          subst (IsStackRange r sections sp) (some-injective _ _ (ok-injective e1))
            (refl, ground arith, down, clear, refl)

  -- For sections in the 32-bit address space and a 32-bit stack pointer at least one word above the
  -- start of its RAM region: if no section that ends in the region covers the address of the word
  -- below the stack pointer, a stack range is found, which runs up to that word, starts in the
  -- region, is not empty and keeps clear of every non-empty section that ends in the region.
  pub extract_stack_info_total :
      (sections : List Section) (sp : ℕ)
      → All Fits32 sections
      → r.start + 4 ≤ sp
      → sp < u32_mod
      → All (λ s. ¬ (Covers r (sp - 4) s)) sections
      → (info : StackInfo) × (extract_stack_info p sections sp r ≡ ok (some info))
        × IsStackRange r sections sp info
  unfolding extract_stack_info
  extract_stack_info_total sections sp fit above small out =
      let (lo, loop) =
        narrow_all_total sections (saturate_u32 r.start) (sp - 4) fit (ground arith) (omega arith)
          out in
      let (up, down, clear) =
        narrow_all_sound p r sections (saturate_u32 r.start) (sp - 4) lo fit (ground arith)
          (omega arith) loop in
      (
        record { lowest = lo; highest = sp - 4; data_below_stack = ltb r.start lo },
        rw (sub_u32-fits p sp 4 (omega arith) small) (rw loop),
        (refl, ground arith, down, clear, refl),
      )
