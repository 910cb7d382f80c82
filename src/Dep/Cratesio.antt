-- ===== src/Dep/Cratesio.antt =====
-- src/dep/cratesio.rs: a path into the sources of a crates.io dependency.
use probe_run.Base.{not, Option, none, some, [], ◌++◌, if◌then◌else◌}
use probe_run.Base.Text.{Str, str, starts_with}
use probe_run.Base.Opt.{◌>>=◌, uncons}
use probe_run.Dep.StdPath.{
  StdPath, Component, is_absolute, is_name, take_through, push, normal_str, display, normal, OsStr,
  of_str,
}

pub record Cratesio : Type 0 where
  pub registry_prefix : StdPath
  pub crate_name_version : Str
  pub path : StdPath

-- `get_component_normal`
unfoldable pub get_component_normal : Component → Option OsStr
get_component_normal (normal s) = some s
get_component_normal _ = none

-- from the component behind `registry` on
unfoldable pub after_prefix : StdPath → StdPath → Option Cratesio
unfolding push get_component_normal
after_prefix registry_prefix components = do
  next ← uncons components
  src ← get_component_normal next.0
  if not (is_name (str "src") (normal src)) then none else do
    second ← uncons next.1
    github ← normal_str second.0
    if not (starts_with (str "github.com-") github) then none else do
      third ← uncons second.1
      crate_name_version ← normal_str third.0
      some (record {
        registry_prefix = push (push registry_prefix (normal src)) (of_str github);
        crate_name_version = crate_name_version;
        path = third.1;
      })

unfoldable pub from_std_path : StdPath → Option Cratesio
unfolding after_prefix take_through
from_std_path path =
    if not (is_absolute path)
    then none
    else (let cut = take_through (str "registry") path [] in after_prefix cut.0 cut.1)

unfoldable pub format_short : Cratesio → Str
format_short p = str "[" ++ (p.crate_name_version ++ (str "]" ++ (str "/" ++ display p.path)))

unfoldable pub format_highlight : (bold dimmed : Str → Str) → Cratesio → Str
format_highlight bold dimmed p =
    dimmed (display p.registry_prefix)
    ++ (str "/" ++ (bold p.crate_name_version ++ (str "/" ++ display p.path)))
