-- ===== src/Cli.antt =====
-- src/cli.rs: the command that the arguments ask for, and the hash in the version. `clap` parses the
-- arguments; Output is what the commands print.
pub mod Options
pub mod Output
use mathlib.Core.List.{append-nil}
use probe_run.Base.{ℕ, zero, suc, ◌≡◌, Bool, Option, none, some, List, [], ◌∷◌, ◌++◌, if◌then◌else◌}
use probe_run.Base.Text.{Str}
use probe_run.Base.Split.{split, HasNo, split-append, split-last}
use probe_run.Dep.StdPath.{StdPath}
use Options.{Opts}
use probe_run.Result.{Result, ok, panic, expectation, unreachable}

pub data Command : Type 0 where
  print_version print_probes print_chips : Command
  run_target_program : (elf : StdPath) → (chip : Str) → Command

abbrev run_or_unreachable : Option StdPath → Option Str → Result Command
run_or_unreachable (some elf) (some chip) = ok (run_target_program elf chip)
run_or_unreachable _ _ = panic unreachable

-- The command that is carried out.
unfoldable pub handle_arguments : Opts → Result Command
handle_arguments opts =
    if opts.version
    then ok print_version
    else if opts.list_probes
    then ok print_probes
    else if opts.list_chips
    then ok print_chips
    else run_or_unreachable opts.elf opts.chip

-- `nth(n).unwrap()`
abbrev nth : ℕ → List Str → Result Str
nth n [] = panic expectation
nth zero (s ∷ rest) = ok s
nth (suc n) (s ∷ rest) = nth n rest

unfoldable pub extract_git_hash : Str → Result Str
unfolding split
extract_git_hash git_describe = nth 2 (split b'-' git_describe)

-- what may follow the third part
abbrev pub suffix : Option Str → Str
suffix none = []
suffix (some rest) = b'-' ∷ rest

-- Of four parts or more, or of three, separated by dashes, the third is taken for the hash. So the
-- hash of `tag-count-hash` is found, while behind a tag that holds a dash itself the count of
-- commits is taken for it.
pub extract_git_hash_lem :
    (a b c : Str) (rest : Option Str)
    → HasNo b'-' a
    → HasNo b'-' b
    → HasNo b'-' c
    → extract_git_hash (a ++ b'-' ∷ (b ++ b'-' ∷ (c ++ suffix rest))) ≡ ok c
unfolding extract_git_hash
extract_git_hash_lem a b c none ha hb hc =
    rw (split-append b'-' a (b ++ b'-' ∷ (c ++ [])) ha)
      (rw (split-append b'-' b (c ++ []) hb) (rw (append-nil c) (rw (split-last b'-' c hc))))
extract_git_hash_lem a b c (some rest) ha hb hc =
    rw (split-append b'-' a (b ++ b'-' ∷ (c ++ b'-' ∷ rest)) ha)
      (rw (split-append b'-' b (c ++ b'-' ∷ rest) hb) (rw (split-append b'-' c rest hc)))
