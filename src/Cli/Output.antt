-- ===== src/Cli/Output.antt =====
-- What the helper commands of src/cli.rs print, as lines of text.
use probe_run.Base.{List, [], ◌∷◌, ◌++◌, map}
use probe_run.Base.Text.{Str, str}
use probe_run.Result.{Result, ok, err, panic, expectation, ◌>>=◌}
use probe_run.Cli.{extract_git_hash}

-- `probe_rs::config::ChipFamily`, with the names of its variants
pub record ChipFamily : Type 0 where
  pub name : Str
  pub variants : List Str

unfoldable pub chip_lines : List ChipFamily → List Str
chip_lines [] = []
chip_lines (chip_family ∷ rest) =
    chip_family.name
    ∷ str "    Variants:"
    ∷ (map (λ variant. str "        " ++ variant) chip_family.variants ++ chip_lines rest)

-- `print_chips`, at what `families()` returns
unfoldable pub print_chips : Result (List ChipFamily) → Result (List Str)
unfolding chip_lines
print_chips (ok registry) = ok (chip_lines registry)
print_chips (err e) = panic expectation
print_chips (panic p) = panic p

-- `join(", ")`
unfoldable pub join : List Str → Str
join [] = []
join (part ∷ []) = part
join (part ∷ another ∷ rest) = part ++ (str ", " ++ join (another ∷ rest))

-- The version of the package, the output of `git describe`, and the versions of defmt are fixed when the
-- program is built.
unfoldable pub print_version : (version git_describe : Str) → List Str → Result (List Str)
unfolding join extract_git_hash
print_version version git_describe defmt_versions = do
  hash ← extract_git_hash git_describe
  ok (
      (version ++ (str " " ++ hash))
      ∷ (str "supported defmt versions: " ++ join defmt_versions)
      ∷ [])
