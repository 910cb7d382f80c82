-- ===== src/Dep/Rustc.antt =====
-- src/dep/rustc.rs: a remapped path of the rust-lang/rust repository, `/rustc/<hash>/…`.
use probe_run.Base.{
  ℕ, Bool, true, not, ◌&&◌, ◌||◌, Option, none, some, [], ◌∷◌, ◌++◌, in_closed, if◌then◌else◌,
}
use probe_run.Base.Text.{Str, str}
use probe_run.Base.Opt.{◌>>=◌, uncons}
use probe_run.Dep.StdPath.{StdPath, is_absolute, take_through, push, of_str, normal_str, display}
use probe_run.Dep.RustRepo
use probe_run.Dep.RustRepo.{RepoPath}

pub record Rustc : Type 0 where
  pub rustc_prefix : StdPath
  pub rust_repo_path : RepoPath

-- `char::is_ascii_hexdigit`
abbrev pub is_hex_digit : ℕ → Bool
is_hex_digit c = in_closed b'0' b'9' c || in_closed b'a' b'f' c || in_closed b'A' b'F' c

unfoldable pub all_hex : Str → Bool
all_hex [] = true
all_hex (c ∷ cs) = is_hex_digit c && all_hex cs

-- the second half: from the hash on
unfoldable pub after_prefix : StdPath → StdPath → Option Rustc
unfolding all_hex push
after_prefix rustc_prefix components = do
  next ← uncons components
  hash ← normal_str next.0
  if not (all_hex hash)
      then none
      else some (record {
        rustc_prefix = push rustc_prefix (of_str hash);
        rust_repo_path = RustRepo.from_std_path next.1;
      })

unfoldable pub from_std_path : StdPath → Option Rustc
unfolding after_prefix take_through
from_std_path path =
    if not (is_absolute path)
    then none
    else (let cut = take_through (str "rustc") path [] in after_prefix cut.0 cut.1)

unfoldable pub format_short : Rustc → Str
format_short p = str "[rust]" ++ (str "/" ++ RustRepo.format p.rust_repo_path)

unfoldable pub format_highlight : (bold dimmed : Str → Str) → Rustc → Str
format_highlight bold dimmed p =
    dimmed (display p.rustc_prefix) ++ (str "/" ++ RustRepo.format_highlight bold p.rust_repo_path)
