-- ===== src/Dep/RustStd.antt =====
-- src/dep/rust_std.rs: a path into the `rust-std` component of a rustup toolchain.
use probe_run.Base.{not, Option, none, some, [], ◌++◌, if◌then◌else◌}
use probe_run.Base.Text.{Str, str}
use probe_run.Base.Opt.{◌>>=◌, uncons}
use probe_run.Dep.StdPath.{StdPath, is_absolute, take_through, normal_str, display}
use probe_run.Dep.Toolchain
use probe_run.Dep.Toolchain.{Toolchain}
use probe_run.Dep.RustRepo
use probe_run.Dep.RustRepo.{RepoPath}

pub record RustStd : Type 0 where
  pub rustup_prefix : StdPath
  pub toolchain : Toolchain
  pub rust_std_prefix : StdPath
  pub rust_repo_path : RepoPath

-- the second half: from the toolchain's name on
unfoldable pub after_prefix : StdPath → StdPath → Option RustStd
after_prefix rustup_prefix components = do
  next ← uncons components
  name ← normal_str next.0
  let cut = take_through (str "rust") next.1 []
  some (record {
    rustup_prefix = rustup_prefix;
    toolchain = Toolchain.from_str name;
    rust_std_prefix = cut.0;
    rust_repo_path = RustRepo.from_std_path cut.1;
  })

unfoldable pub from_std_path : StdPath → Option RustStd
unfolding after_prefix take_through
from_std_path path =
    if not (is_absolute path)
    then none
    else (let cut = take_through (str "toolchains") path [] in after_prefix cut.0 cut.1)

unfoldable pub format_short : RustStd → Str
format_short p =
    str "["
    ++ (Toolchain.format_short p.toolchain
        ++ (str "]" ++ (str "/" ++ RustRepo.format p.rust_repo_path)))

unfoldable pub format_highlight : (bold dimmed : Str → Str) → RustStd → Str
format_highlight bold dimmed p =
    dimmed (display p.rustup_prefix)
    ++ (str "/"
        ++ (Toolchain.format_highlight bold dimmed p.toolchain
            ++ (str "/"
                ++ (dimmed (display p.rust_std_prefix)
                    ++ (str "/" ++ RustRepo.format_highlight bold p.rust_repo_path)))))
