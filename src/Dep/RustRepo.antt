-- ===== src/Dep/RustRepo.antt =====
-- src/dep/rust_repo.rs: a path into the rust-lang/rust repository.
use probe_run.Base.{not, Option, none, some, ◌++◌, if◌then◌else◌}
use probe_run.Base.Text.{Str, str, str_eq}
use probe_run.Base.Opt.{◌>>=◌, uncons}
use probe_run.Dep.StdPath.{StdPath, normal_str, display}

pub record One52Path : Type 0 where
  pub library : Str
  pub crate_name : Str
  pub path : StdPath

pub data RepoPath : Type 0 where
  one52 : One52Path → RepoPath
  verbatim : StdPath → RepoPath

unfoldable pub one52_from_std_path : StdPath → Option One52Path
one52_from_std_path path = do
  first ← uncons path
  library ← normal_str first.0
  if not (str_eq library (str "library")) then none else do
    second ← uncons first.1
    crate_name ← normal_str second.0
    some (record { library = library; crate_name = crate_name; path = second.1 })

unfoldable pub from_std_path : StdPath → RepoPath
unfolding one52_from_std_path
from_std_path path = elim (one52_from_std_path path) [ some p ↦ one52 p | none ↦ verbatim path ]

unfoldable pub format : RepoPath → Str
format (one52 p) = p.library ++ (str "/" ++ (p.crate_name ++ (str "/" ++ display p.path)))
format (verbatim path) = display path

unfoldable pub format_highlight : (bold : Str → Str) → RepoPath → Str
format_highlight bold (one52 p) =
    p.library ++ (str "/" ++ (bold p.crate_name ++ (str "/" ++ display p.path)))
format_highlight bold (verbatim path) = display path
