-- ===== src/Elf/Defmt/Laws.antt =====
-- When the locations of the log statements are kept, in src/elf.rs.
use probe_run.Base.{
  ℕ, ◌≡◌, ◌↔◌, refl, ap, Bool, true, false, not, ◌&&◌, ◌||◌, Option, none, some, List, [], ◌∷◌, All,
  Bool-cases, inl, inr, if◌then◌else◌, ◌==◌, arith,
}
use probe_run.Base.Text.{Str}
use probe_run.Result.{Result, ok}
use probe_run.Elf.Defmt.{
  Table, Location, Locations, get, contains_key, has_no_entry, all_located, usable_locations,
  ignores_version, extract_defmt_info,
}

-- the map has a location for the index
abbrev pub IsLocated : Locations → ℕ → Type 0
IsLocated locations index = (location : Location) × (get index locations ≡ some location)

contains_key-IsLocated :
    (index : ℕ) (locations : Locations)
    → contains_key index locations ≡ true
    → IsLocated locations index
contains_key-IsLocated index [] h = cc
contains_key-IsLocated index ((i, location) ∷ rest) h = elim (Bool-cases (i == index)) [
  | inl e ↦ (location, rw e refl)
  | inr e ↦ let (found, at) = contains_key-IsLocated index rest (subst_or e h) in (found, rw e at)
]
  where
    subst_or : {b c : Bool} → b ≡ false → (b || c) ≡ true → c ≡ true
    subst_or e h = ground (arith)

IsLocated-contains_key :
    (index : ℕ) (locations : Locations)
    → IsLocated locations index
    → contains_key index locations ≡ true
IsLocated-contains_key index [] (location, h) = cc
IsLocated-contains_key index ((i, l) ∷ rest) (location, h) = elim (Bool-cases (i == index)) [
  | inl e ↦ rw e refl
  | inr e ↦ rw e (IsLocated-contains_key index rest (location, ground arith))
]

all_located_iff :
    (locations : Locations) (indices : List ℕ)
    → (all_located locations indices ≡ true) ↔ All (IsLocated locations) indices
all_located_iff locations indices = (all_located_sound indices, all_located_complete indices)
  where
    all_located_sound :
        (indices : List ℕ)
        → all_located locations indices ≡ true
        → All (IsLocated locations) indices
    all_located_sound [] h = tt
    all_located_sound (i ∷ rest) h =
        (contains_key-IsLocated i locations (ground arith), all_located_sound rest (ground arith))

    all_located_complete :
        (indices : List ℕ)
        → All (IsLocated locations) indices
        → all_located locations indices ≡ true
    all_located_complete [] h = refl
    all_located_complete (i ∷ rest) (h, hs) =
        rw (IsLocated-contains_key i locations h) (all_located_complete rest hs)

usable_locations_iff :
    (table : Table) (locations : Locations)
    → (usable_locations table locations ≡ some locations) ↔ (
        (table.is_empty ≡ false → has_no_entry locations ≡ false)
        × All (IsLocated locations) table.indices)
unfolding usable_locations
usable_locations_iff table locations = (sound, complete)
  where
    sound :
        (if not table.is_empty && has_no_entry locations
            then none
            else if all_located locations table.indices
            then some locations
            else none)
          ≡ some locations
        → (table.is_empty ≡ false → has_no_entry locations ≡ false)
          × All (IsLocated locations) table.indices
    sound h = ((λ e. ground arith), (all_located_iff locations table.indices).0 (ground arith))

    complete :
        (table.is_empty ≡ false → has_no_entry locations ≡ false)
          × All (IsLocated locations) table.indices
        → (if not table.is_empty && has_no_entry locations
            then none
            else if all_located locations table.indices
            then some locations
            else none)
          ≡ some locations
    complete (some_entry, all) =
        rw ((all_located_iff locations table.indices).1 all) (elim (Bool-cases table.is_empty) [
          | inl e ↦ rw e refl
          | inr e ↦ rw (e, some_entry e) refl
        ])

abbrev locations_of : Result (Option Table × Option Locations) → Option Locations
locations_of (ok (table, locations)) = locations
locations_of _ = none

module _ (parse parse_ignore_version : Result (Option Table))
    (get_locations : Table → Result Locations) where
  -- If there is a table of log statements and its locations can be read, they are kept exactly if
  -- every index of the table has a location and, unless the table is empty, there is a location at all.
  pub extract_defmt_info_iff :
      (variable : Option Str) (table : Table) (locations : Locations)
      → (if ignores_version variable then parse_ignore_version else parse) ≡ ok (some table)
      → get_locations table ≡ ok locations
      → (extract_defmt_info parse parse_ignore_version get_locations variable
          ≡ ok (some table, some locations))
        ↔ ((table.is_empty ≡ false → has_no_entry locations ≡ false)
            × All (IsLocated locations) table.indices)
  unfolding extract_defmt_info
  extract_defmt_info_iff variable table locations parsed got = rw parsed (
      rw got (
        (λ h. (usable_locations_iff table locations).0 (ap locations_of h)),
        (λ h. ap (λ l. ok (some table, l)) ((usable_locations_iff table locations).1 h)),
      ))
