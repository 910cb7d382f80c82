-- ===== src/Dep/Recognise.antt =====
-- src/dep/mod.rs: the kind of dependency that a path belongs to.
use probe_run.Base.{none, some}
use probe_run.Base.Text.{Str}
use probe_run.Dep.StdPath.{StdPath, display}
use probe_run.Dep.RustStd
use probe_run.Dep.RustStd.{RustStd}
use probe_run.Dep.Rustc
use probe_run.Dep.Rustc.{Rustc}
use probe_run.Dep.Cratesio
use probe_run.Dep.Cratesio.{Cratesio}

pub data DepPath : Type 0 where
  cratesio : Cratesio → DepPath
  rust_std : RustStd → DepPath
  rustc : Rustc → DepPath
  verbatim : StdPath → DepPath

unfoldable pub from_std_path : StdPath → DepPath
from_std_path path = elim (RustStd.from_std_path path) [
  | some p ↦ rust_std p
  | none ↦ elim (Rustc.from_std_path path) [
    | some p ↦ rustc p
    | none ↦ elim (Cratesio.from_std_path path) [ some p ↦ cratesio p | none ↦ verbatim path ]
  ]
]

unfoldable pub format_short : DepPath → Str
format_short (cratesio p) = Cratesio.format_short p
format_short (rust_std p) = RustStd.format_short p
format_short (rustc p) = Rustc.format_short p
format_short (verbatim path) = display path

unfoldable pub format_highlight : (bold dimmed : Str → Str) → DepPath → Str
format_highlight bold dimmed (cratesio p) = Cratesio.format_highlight bold dimmed p
format_highlight bold dimmed (rust_std p) = RustStd.format_highlight bold dimmed p
format_highlight bold dimmed (rustc p) = Rustc.format_highlight bold dimmed p
format_highlight bold dimmed (verbatim path) = display path
