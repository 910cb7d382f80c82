-- ===== src/Tests/Paths.antt =====
-- Paths of dependencies at concrete inputs.
use probe_run.Base.{◌≡◌, refl, [], ◌∷◌, ◌++◌}
use probe_run.Base.Text.{str}
use probe_run.Dep.StdPath.{StdPath, root_dir, of_str}
use probe_run.Dep.Toolchain
use probe_run.Dep.Toolchain.Laws.{format_highlight-from_str, unstyled}
use probe_run.Dep.Recognise.{from_std_path, format_short}
use probe_run.Dep.Lossless.{components, from_std_path_lossless}
use probe_run.Dep.ShortPath.{toolchain_path, short_form_drops_rest}

abbrev nightly_path : StdPath
nightly_path =
    root_dir
    ∷ of_str (str "home")
    ∷ of_str (str "toolchains")
    ∷ of_str (str "nightly-2021-05-01-x86_64-unknown-linux-gnu")
    ∷ of_str (str "lib")
    ∷ of_str (str "rust")
    ∷ of_str (str "library")
    ∷ of_str (str "core")
    ∷ of_str (str "src")
    ∷ of_str (str "panic.rs")
    ∷ []

from_std_path_lossless_example : components (from_std_path nightly_path) ≡ nightly_path
from_std_path_lossless_example =
    from_std_path_lossless nightly_path
      (refl, (refl, (refl, (refl, (refl, (refl, (refl, (refl, (refl, tt)))))))))

format_highlight-from_str_example :
    Toolchain.format_highlight unstyled unstyled
      (Toolchain.from_str (str "nightly-2021-05-01-x86_64"))
    ≡ str "nightly-2021-05-01-x86_64"
format_highlight-from_str_example = format_highlight-from_str (str "nightly-2021-05-01-x86_64")

-- a tool's own crate, behind no directory `rust`
short_form_drops_rest_example :
    format_short (
      from_std_path (
        toolchain_path
          (of_str (str "home") ∷ [])
          (of_str (str "share") ∷ of_str (str "main.rs") ∷ [])
          (str "stable-x86_64")))
    ≡ str "[" ++ (Toolchain.format_short (Toolchain.from_str (str "stable-x86_64")) ++ str "]/")
short_form_drops_rest_example =
    short_form_drops_rest (of_str (str "home") ∷ [])
      (of_str (str "share") ∷ of_str (str "main.rs") ∷ []) (str "stable-x86_64") (refl, tt)
      (refl, (refl, tt))
