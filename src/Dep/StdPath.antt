-- ===== src/Dep/StdPath.antt =====
-- `std::path` on Unix, as src/dep/ uses it: a path is the list of its components.
use probe_run.Base.{
  ◌≡◌, refl, Bool, true, false, ◌&&◌, Option, none, some, List, [], ◌∷◌, ◌++◌, if◌then◌else◌, All,
  arith, ap, ◌∙◌, Bool-cases, inl, inr,
}
use mathlib.Core.List.{append_assoc}
use probe_run.Base.Text.{Str, str, str_eq}

-- An `OsStr`: its lossy text, and whether it is valid UTF-8.
pub record OsStr : Type 0 where
  pub lossy : Str
  pub valid : Bool

pub data Component : Type 0 where
  root_dir cur_dir parent_dir : Component
  normal : OsStr → Component

abbrev pub StdPath : Type 0
StdPath = List Component

abbrev pub of_str : Str → Component
of_str s = normal (record { lossy = s; valid = true })

abbrev pub to_str : OsStr → Option Str
to_str s = if s.valid then some s.lossy else none

-- `component == name` for a text
abbrev pub is_name : Str → Component → Bool
is_name name (normal s) = s.valid && str_eq s.lossy name
is_name name _ = false

abbrev pub is_root : Component → Bool
is_root root_dir = true
is_root _ = false

abbrev pub is_absolute : StdPath → Bool
is_absolute [] = false
is_absolute (c ∷ rest) = is_root c

-- `PathBuf::push`: an absolute path takes the place of what was there
unfoldable pub push : StdPath → Component → StdPath
push path root_dir = root_dir ∷ []
push path c = path ++ c ∷ []

-- The loop `for component in &mut components { prefix.push(component); if … { break; } }`: the
-- prefix through the first component that has the name, and the components that are left.
unfoldable pub take_through : Str → StdPath → StdPath → StdPath × StdPath
take_through name [] prefix = (prefix, [])
take_through name (c ∷ rest) prefix =
    let more = take_through name rest (push prefix c) in
    if is_name name c then (push prefix c, rest) else more

-- `get_component_normal(component)?.to_str()?`
unfoldable pub normal_str : Component → Option Str
normal_str (normal s) = to_str s
normal_str _ = none

abbrev component_text : Component → Str
component_text root_dir = str "/"
component_text cur_dir = str "."
component_text parent_dir = str ".."
component_text (normal s) = s.lossy

-- `path.display().to_string()`
unfoldable pub display : StdPath → Str
display [] = []
display (c ∷ []) = component_text c
display (root_dir ∷ c ∷ rest) = str "/" ++ display (c ∷ rest)
display (c ∷ d ∷ rest) = component_text c ++ (str "/" ++ display (d ∷ rest))

-- only the first component of a path can be the root
abbrev pub IsRelative : StdPath → Type 0
IsRelative = All (λ c. is_root c ≡ false)

pub push-relative :
    (path : StdPath) (c : Component) → is_root c ≡ false → push path c ≡ path ++ c ∷ []
unfolding push
push-relative path root_dir h = cc
push-relative path cur_dir h = refl
push-relative path parent_dir h = refl
push-relative path (normal s) h = refl

-- The split loses nothing.
take_through-append :
    (name : Str) (path prefix : StdPath)
    → IsRelative path
    → (take_through name path prefix).0 ++ (take_through name path prefix).1 ≡ prefix ++ path
unfolding take_through
take_through-append name [] prefix h = refl
take_through-append name (c ∷ rest) prefix (h, hs) = elim (Bool-cases (is_name name c)) [
  | inl e ↦ rw e (rw (push-relative prefix c h) (append_assoc prefix (c ∷ []) rest))
  | inr e ↦ rw e (
      take_through-append name rest (push prefix c) hs
      ∙ (rw (push-relative prefix c h) (append_assoc prefix (c ∷ []) rest)))
]

take_through-IsRelative :
    (name : Str) (path prefix : StdPath)
    → IsRelative path
    → IsRelative (take_through name path prefix).1
unfolding take_through
take_through-IsRelative name [] prefix h = tt
take_through-IsRelative name (c ∷ rest) prefix (h, hs) = elim (Bool-cases (is_name name c)) [
  | inl e ↦ rw e hs
  | inr e ↦ rw e (take_through-IsRelative name rest (push prefix c) hs)
]

abbrev pub IsUnixPath : StdPath → Type 0
IsUnixPath [] = Unit
IsUnixPath (c ∷ rest) = IsRelative rest

-- An absolute path is cut without loss, from the empty prefix on.
pub take_through-absolute :
    (name : Str) (path : StdPath)
    → is_absolute path ≡ true
    → IsUnixPath path
    → ((take_through name path []).0 ++ (take_through name path []).1 ≡ path)
      × IsRelative (take_through name path []).1
unfolding take_through push
take_through-absolute name [] h k = cc
take_through-absolute name (root_dir ∷ rest) h k = (
  take_through-append name rest (root_dir ∷ []) k,
  take_through-IsRelative name rest (root_dir ∷ []) k,
)
take_through-absolute name (cur_dir ∷ rest) h k = cc
take_through-absolute name (parent_dir ∷ rest) h k = cc
take_through-absolute name (normal s ∷ rest) h k = cc

pub take_through-IsRelative' :
    (name : Str) (path : StdPath)
    → IsRelative path
    → ((take_through name path []).0 ++ (take_through name path []).1 ≡ path)
      × IsRelative (take_through name path []).1
take_through-IsRelative' name path h =
    (take_through-append name path [] h, take_through-IsRelative name path [] h)

pub normal_str-eq-some : (c : Component) (s : Str) → normal_str c ≡ some s → c ≡ of_str s
unfolding normal_str
normal_str-eq-some root_dir s h = cc
normal_str-eq-some cur_dir s h = cc
normal_str-eq-some parent_dir s h = cc
normal_str-eq-some (normal t) s h = ap normal (ground arith)
