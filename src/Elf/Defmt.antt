-- ===== src/Elf/Defmt.antt =====
-- `extract_defmt_info` of src/elf.rs. defmt_decoder reads the tables from the image: what it finds are
-- arguments.
pub mod Laws
use probe_run.Base.{
  ℕ, Bool, true, false, not, ◌&&◌, ◌||◌, Option, none, some, List, [], ◌∷◌, ◌==◌, if◌then◌else◌,
}
use probe_run.Base.Text.{Str, str, str_eq}
use probe_run.Result.{Result, ok, ◌>>=◌}
use probe_run.Dep.StdPath.{StdPath}

-- `defmt_decoder::Table`, of which the program reads the indices of the frames, whether there is a
-- timestamp, and whether the encoding lets the decoder go on behind a malformed frame
pub record Table : Type 0 where
  pub indices : List ℕ
  pub is_empty : Bool
  pub has_timestamp : Bool
  pub can_recover : Bool

-- `defmt_decoder::Location`
pub record Location : Type 0 where
  pub file : StdPath
  pub line : ℕ
  pub module_path : Str

-- a map by the index of a frame, as an association list
abbrev pub Locations : Type 0
Locations = List (ℕ × Location)

-- `locations.get(&index)`
abbrev pub get : ℕ → Locations → Option Location
get index [] = none
get index ((i, location) ∷ rest) = if i == index then some location else get index rest

abbrev pub contains_key : ℕ → Locations → Bool
contains_key index [] = false
contains_key index ((i, location) ∷ rest) = i == index || contains_key index rest

abbrev pub has_no_entry : Locations → Bool
has_no_entry [] = true
has_no_entry (entry ∷ rest) = false

-- `table.indices().all(|idx| locations.contains_key(&idx))`
abbrev pub all_located : Locations → List ℕ → Bool
all_located locations [] = true
all_located locations (index ∷ rest) = contains_key index locations && all_located locations rest

-- the locations that are kept
unfoldable pub usable_locations : Table → Locations → Option Locations
usable_locations table locations =
    if not table.is_empty && has_no_entry locations
    then none
    else if all_located locations table.indices
    then some locations
    else none

-- `PROBE_RUN_IGNORE_VERSION`
abbrev pub ignores_version : Option Str → Bool
ignores_version none = false
ignores_version (some value) = str_eq value (str "true") || str_eq value (str "1")

module _ (parse parse_ignore_version : Result (Option Table))
    (get_locations : Table → Result Locations) where
  unfoldable pub extract_defmt_info :
      (variable : Option Str) → Result (Option Table × Option Locations)
  unfolding usable_locations
  extract_defmt_info variable = do
    defmt_table ← if ignores_version variable then parse_ignore_version else parse
    elim defmt_table [
      | none ↦ ok (none, none)
      | some table ↦ do
        locations ← get_locations table
        ok (some table, usable_locations table locations)
    ]
