-- ===== src/Dep/Lossless.antt =====
-- Nothing of a path is lost when src/dep/ takes it apart.
use mathlib.Core.Option.{some-injective}
use mathlib.Core.List.{append_assoc}
use probe_run.Base.{
  ◌≡◌, ap, ap₂, subst, ◌∙◌, true, not, Option, none, some, [], ◌∷◌, ◌++◌, if◌then◌else◌, arith,
  Bool-cases, Option-cases, inl, inr,
}
use probe_run.Base.Text.{Str, str}
use probe_run.Dep.StdPath.{
  StdPath, Component, OsStr, normal, is_absolute, take_through, of_str, normal_str, IsUnixPath,
  IsRelative, take_through-absolute, take_through-IsRelative',
}
use probe_run.Dep.Toolchain
use probe_run.Dep.Toolchain.Laws.{unstyled, format_highlight-from_str}
use probe_run.Dep.RustRepo
use probe_run.Dep.RustRepo.{RepoPath, One52Path}
use probe_run.Dep.RustStd
use probe_run.Dep.RustStd.{RustStd}
use probe_run.Dep.Rustc
use probe_run.Dep.Rustc.{Rustc}
use probe_run.Dep.Cratesio
use probe_run.Dep.Cratesio.{Cratesio, get_component_normal}
use probe_run.Dep.Recognise.{DepPath, from_std_path}

-- the components that the parts of a recognised path stand for
abbrev pub repo_components : RepoPath → StdPath
repo_components (RepoPath.one52 p) = of_str p.library ∷ of_str p.crate_name ∷ p.path
repo_components (RepoPath.verbatim path) = path

abbrev pub rust_std_components : RustStd → StdPath
rust_std_components p =
    p.rustup_prefix
    ++ (of_str (Toolchain.format_highlight unstyled unstyled p.toolchain)
        ∷ (p.rust_std_prefix ++ repo_components p.rust_repo_path))

abbrev pub rustc_components : Rustc → StdPath
rustc_components p = p.rustc_prefix ++ repo_components p.rust_repo_path

abbrev pub cratesio_components : Cratesio → StdPath
cratesio_components p = p.registry_prefix ++ (of_str p.crate_name_version ∷ p.path)

abbrev pub components : DepPath → StdPath
components (DepPath.cratesio p) = cratesio_components p
components (DepPath.rust_std p) = rust_std_components p
components (DepPath.rustc p) = rustc_components p
components (DepPath.verbatim path) = path

of_str-lossy : (s : OsStr) → s.valid ≡ true → of_str s.lossy ≡ normal s
of_str-lossy s h = ap normal (ground arith)

repo_one52 :
    (path : StdPath) (p : One52Path)
    → RustRepo.one52_from_std_path path ≡ some p
    → repo_components (RepoPath.one52 p) ≡ path
unfolding RustRepo.one52_from_std_path normal_str
repo_one52 (normal s ∷ normal t ∷ rest) p h = ground (arith, of_str-lossy s, of_str-lossy t)
repo_one52 _ p h = ground arith

repo_lossless : (path : StdPath) → repo_components (RustRepo.from_std_path path) ≡ path
unfolding RustRepo.from_std_path
repo_lossless path = elim (Option-cases (RustRepo.one52_from_std_path path)) [
  | inl e ↦ rw (e, RustRepo.from_std_path, repo_components)
  | inr (p, e) ↦ rw (e, RustRepo.from_std_path, repo_components) (repo_one52 path p e)
]

-- the parts behind the toolchain, put together again
tail_lossless :
    (name : Str) (rest : StdPath)
    → IsRelative rest
    → (take_through name rest []).0
        ++ repo_components (RustRepo.from_std_path (take_through name rest []).1)
      ≡ rest
tail_lossless name rest rel =
    rw (repo_lossless (take_through name rest []).1) (take_through-IsRelative' name rest rel).0

rust_std_lossless :
    (prefix rest : StdPath) (p : RustStd)
    → IsRelative rest
    → RustStd.after_prefix prefix rest ≡ some p
    → rust_std_components p ≡ prefix ++ rest
unfolding RustStd.after_prefix normal_str
rust_std_lossless prefix (normal s ∷ rest) p (r, rel) h = elim (Bool-cases s.valid) [
  | inl utf8 ↦
      subst (λ q. rust_std_components q ≡ prefix ++ normal s ∷ rest)
        (some-injective _ _ (rw utf8 at h))
        (ap₂ (λ c tail. prefix ++ c ∷ tail)
          (ap of_str (format_highlight-from_str s.lossy) ∙ of_str-lossy s utf8)
          (tail_lossless (str "rust") rest rel))
  | inr other ↦ absurd (let bad : none ≡ some p = rw other at h in cc)
]
rust_std_lossless prefix _ p rel h = ground arith

rustc_lossless :
    (prefix rest : StdPath) (p : Rustc)
    → Rustc.after_prefix prefix rest ≡ some p
    → rustc_components p ≡ prefix ++ rest
unfolding Rustc.after_prefix normal_str
rustc_lossless prefix (normal s ∷ rest) p h = elim (Bool-cases s.valid) [
  | inl utf8 ↦ elim (Bool-cases (Rustc.all_hex s.lossy)) [
    | inl hex ↦
        subst (λ q. rustc_components q ≡ prefix ++ normal s ∷ rest)
          (some-injective _ _ (rw (utf8, hex) at h))
          (rw (repo_lossless rest) (
            append_assoc prefix (of_str s.lossy ∷ []) rest
            ∙ ap (λ c. prefix ++ c ∷ rest) (of_str-lossy s utf8)))
    | inr other ↦ absurd (let bad : none ≡ some p = rw (utf8, other) at h in cc)
  ]
  | inr other ↦ absurd (let bad : none ≡ some p = rw other at h in cc)
]
rustc_lossless prefix _ p h = ground arith

regroup :
    (prefix : StdPath) (a b c : Component) (rest : StdPath)
    → ((prefix ++ a ∷ []) ++ b ∷ []) ++ (c ∷ rest) ≡ prefix ++ (a ∷ b ∷ c ∷ rest)
regroup prefix a b c rest = simp append_assoc

cratesio_lossless :
    (prefix rest : StdPath) (p : Cratesio)
    → Cratesio.after_prefix prefix rest ≡ some p
    → cratesio_components p ≡ prefix ++ rest
unfolding Cratesio.after_prefix normal_str
cratesio_lossless prefix (normal s ∷ normal t ∷ normal u ∷ rest) p h =
    ground
      (arith, of_str-lossy t, of_str-lossy u, regroup prefix (normal s) (normal t) (normal u) rest)
cratesio_lossless prefix _ p h = ground arith

module _ (path : StdPath) (unix : IsUnixPath path) where
  -- the cut at a name, followed by a step that loses nothing
  cut_lossless :
      {A : Type 0} (parts : A → StdPath) (name : Str) (after : StdPath → StdPath → Option A) (p : A)
      → ((prefix rest : StdPath) (q : A)
          → IsRelative rest
          → after prefix rest ≡ some q
          → parts q ≡ prefix ++ rest)
      → (if not (is_absolute path)
          then none
          else after (take_through name path []).0 (take_through name path []).1)
        ≡ some p
      → parts p ≡ path
  cut_lossless parts name after p step h = elim (Bool-cases (is_absolute path)) [
    | inl abs ↦
        let (whole, rel) = take_through-absolute name path abs unix in
        step (take_through name path []).0 (take_through name path []).1 p rel (rw abs at h) ∙ whole
    | inr not_abs ↦ absurd (let bad : none ≡ some p = rw not_abs at h in cc)
  ]

  -- The parts into which a path is taken apart, of whatever kind it is found to be, join to the
  -- path again; a path holds the root at most as its first component.
  pub from_std_path_lossless : components (from_std_path path) ≡ path
  unfolding from_std_path RustStd.from_std_path Rustc.from_std_path Cratesio.from_std_path
  from_std_path_lossless = elim (Option-cases (RustStd.from_std_path path)) [
    | inr (p, e) ↦
        rw (e, from_std_path, components)
          (cut_lossless rust_std_components (str "toolchains") RustStd.after_prefix p
            rust_std_lossless e)
    | inl e1 ↦ elim (Option-cases (Rustc.from_std_path path)) [
      | inr (p, e) ↦
          rw (e1, e, from_std_path, components)
            (cut_lossless rustc_components (str "rustc") Rustc.after_prefix p
              (λ prefix rest q _. rustc_lossless prefix rest q) e)
      | inl e2 ↦ elim (Option-cases (Cratesio.from_std_path path)) [
        | inr (p, e) ↦
            rw (e1, e2, e, from_std_path, components)
              (cut_lossless cratesio_components (str "registry") Cratesio.after_prefix p
                (λ prefix rest q _. cratesio_lossless prefix rest q) e)
        | inl e3 ↦ rw (e1, e2, e3, from_std_path, components)
      ]
    ]
  ]
