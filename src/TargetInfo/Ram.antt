-- ===== src/TargetInfo/Ram.antt =====
-- Which memory region `extract_active_ram_region` of src/target_info.rs picks.
use probe_run.Base.{
  ℕ, ◌≤◌, ◌≡◌, refl, none, some, List, [], ◌∷◌, ◌++◌, arith, in_closed, All, Bool-cases, inl, inr,
  ◌↔◌,
}
use probe_run.TargetInfo.{MemoryRegion, RamRegion, ram, other, extract_active_ram_region}

-- the region holds the stack pointer, the address one past its end included
abbrev pub Holds : ℕ → RamRegion → Type 0
Holds sp r = (r.start ≤ sp) × (sp ≤ r.end)

abbrev pub Misses : ℕ → MemoryRegion → Type 0
Misses sp (ram r) = ¬ (Holds sp r)
Misses sp other = Unit

-- The region that is picked holds the initial stack pointer, and no RAM region before it does.
pub active_region_first :
    (regions : List MemoryRegion) (sp : ℕ) (r : RamRegion)
    → extract_active_ram_region regions sp ≡ some r
    → (before : List MemoryRegion) × (after : List MemoryRegion) × (regions
        ≡ before ++ ram r ∷ after)
      × All (Misses sp) before
      × Holds sp r
unfolding extract_active_ram_region
active_region_first [] sp r h = cc
active_region_first (ram q ∷ rest) sp r h = elim (Bool-cases (in_closed q.start q.end sp)) [
  | inl e ↦
      let same : q ≡ r = ground arith in
      ([], rest, rw same, tt, rw (← same) (ground arith, ground arith))
  | inr e ↦
      let (before, after, split, missed, holds) = active_region_first rest sp r (rw e at h) in
      (ram q ∷ before, after, rw split, (λ k. ground arith, missed), holds)
]
active_region_first (other ∷ rest) sp r h =
    let (before, after, split, missed, holds) = active_region_first rest sp r h in
    (other ∷ before, after, rw split, (tt, missed), holds)

none_sound :
    (regions : List MemoryRegion) (sp : ℕ)
    → extract_active_ram_region regions sp ≡ none
    → All (Misses sp) regions
unfolding extract_active_ram_region
none_sound [] sp h = tt
none_sound (ram q ∷ rest) sp h = elim (Bool-cases (in_closed q.start q.end sp)) [
  | inl e ↦ absurd (ground arith)
  | inr e ↦ (λ k. ground arith, none_sound rest sp (rw e at h))
]
none_sound (other ∷ rest) sp h = (tt, none_sound rest sp h)

none_complete :
    (regions : List MemoryRegion) (sp : ℕ)
    → All (Misses sp) regions
    → extract_active_ram_region regions sp ≡ none
unfolding extract_active_ram_region
none_complete [] sp h = refl
none_complete (ram q ∷ rest) sp h = elim (Bool-cases (in_closed q.start q.end sp)) [
  | inl e ↦ absurd (h.0 (ground arith, ground arith))
  | inr e ↦ rw e (none_complete rest sp h.1)
]
none_complete (other ∷ rest) sp h = none_complete rest sp h.1

-- No region is picked exactly when no RAM region holds the initial stack pointer.
pub active_region_none_iff :
    (regions : List MemoryRegion) (sp : ℕ)
    → (extract_active_ram_region regions sp ≡ none) ↔ All (Misses sp) regions
active_region_none_iff regions sp = (none_sound regions sp, none_complete regions sp)
