-- ===== src/Dep/ShortPath.antt =====
-- What the short form of src/dep/rust_std.rs keeps of a path with a component `toolchains`.
use probe_run.Base.{◌≡◌, refl, ap, ◌∙◌, false, [], ◌∷◌, ◌++◌, All, some}
use probe_run.Base.Text.{Str, str, str_eq_refl}
use probe_run.Dep.StdPath.{
  StdPath, root_dir, is_name, take_through, push, of_str, display, normal_str,
}
use probe_run.Dep.Toolchain
use probe_run.Dep.RustRepo
use probe_run.Dep.RustStd
use probe_run.Dep.RustStd.{RustStd}
use probe_run.Dep.Recognise.{from_std_path, format_short, rust_std}

take_through-none :
    (name : Str) (path prefix : StdPath)
    → All (λ c. is_name name c ≡ false) path
    → (take_through name path prefix).1 ≡ []
unfolding take_through
take_through-none name [] prefix h = refl
take_through-none name (c ∷ rest) prefix (h, hs) =
    rw h (take_through-none name rest (push prefix c) hs)

take_through-first :
    (name : Str) (before rest prefix : StdPath)
    → All (λ c. is_name name c ≡ false) before
    → (take_through name (before ++ of_str name ∷ rest) prefix).1 ≡ rest
unfolding take_through
take_through-first name [] rest prefix h = rw (str_eq_refl name)
take_through-first name (c ∷ before) rest prefix (h, hs) =
    rw h (take_through-first name before rest (push prefix c) hs)

module _ (before rest : StdPath) (tool : Str) where
  abbrev pub toolchain_path : StdPath
  toolchain_path = root_dir ∷ (before ++ of_str (str "toolchains") ∷ of_str tool ∷ rest)

  abbrev parsed : RustStd
  parsed =
      let cut = take_through (str "rust") rest [] in
      record {
        rustup_prefix = (take_through (str "toolchains") toolchain_path []).0;
        toolchain = Toolchain.from_str tool;
        rust_std_prefix = cut.0;
        rust_repo_path = RustRepo.from_std_path cut.1;
      }

  found :
      All (λ c. is_name (str "toolchains") c ≡ false) before
      → RustStd.from_std_path toolchain_path ≡ some parsed
  unfolding RustStd.from_std_path normal_str
  found h =
      ap (RustStd.after_prefix (take_through (str "toolchains") toolchain_path []).0) (
        take_through-first (str "toolchains") (root_dir ∷ before) (of_str tool ∷ rest) [] (refl, h))

  no_repo_path :
      All (λ c. is_name (str "rust") c ≡ false) rest
      → RustRepo.format (RustRepo.from_std_path (take_through (str "rust") rest []).1) ≡ []
  unfolding RustRepo.from_std_path RustRepo.format display
  no_repo_path h =
      ap (λ path. RustRepo.format (RustRepo.from_std_path path))
        (take_through-none (str "rust") rest [] h)

  -- An absolute path whose first component `toolchains` is followed by a readable name and, behind
  -- it, by no component `rust` is taken for one of `rust-std`, and its short form is the toolchain
  -- alone: the rest of the path, the file's name included, is not shown.
  pub short_form_drops_rest :
      All (λ c. is_name (str "toolchains") c ≡ false) before
      → All (λ c. is_name (str "rust") c ≡ false) rest
      → format_short (from_std_path toolchain_path)
        ≡ str "[" ++ (Toolchain.format_short (Toolchain.from_str tool) ++ str "]/")
  unfolding format_short from_std_path RustStd.format_short
  short_form_drops_rest hb hr = ap format_short (recognised (found hb)) ∙ rw (no_repo_path hr)
    where
      recognised :
          RustStd.from_std_path toolchain_path ≡ some parsed
          → from_std_path toolchain_path ≡ rust_std parsed
      recognised e = rw (e, from_std_path)
