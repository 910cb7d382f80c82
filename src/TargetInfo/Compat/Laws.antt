-- ===== src/TargetInfo/Compat/Laws.antt =====
-- When src/target_info.rs warns that the compilation target does not fit the chip.
use mathlib.Core.Option.{some-injective}
use probe_run.Base.{
  ◌≡◌, ◌↔◌, ◌⊎◌, inl, inr, refl, ap, subst, ◌∙◌, sym, Bool, true, false, ◌||◌, Option, none, some,
  List, [], ◌∷◌, ◌++◌, any, All, Bool-cases, if◌then◌else◌, arith,
}
use probe_run.Base.Text.{Str, str, str_eq, str_eq_iff, starts_with}
use probe_run.Result.{Result, ok}
use probe_run.Dep.StdPath.{StdPath, Component}
use probe_run.TargetInfo.Compat.{
  CoreType, armv6m, armv7a, armv7m, armv7em, armv8a, armv8m, riscv, Warning, unsupported,
  to_string_lossy, find_target, targets_of, compare, check_processor_target_compatability,
}

abbrev is_target : Component → Bool
is_target c = starts_with (str "thumbv") (to_string_lossy c)

-- the compilation target in a path: the first component that starts with `thumbv`
abbrev pub IsTarget : StdPath → Str → Type 0
IsTarget path target =
    (before : StdPath) × (c : Component) × (after : StdPath) × (path ≡ before ++ c ∷ after)
    × All (λ b. is_target b ≡ false) before
    × (is_target c ≡ true)
    × (target ≡ to_string_lossy c)

-- the targets that fit; for Risc-V every target does, for the 7A and 8A architectures none
abbrev pub Fits : CoreType → Str → Type 0
Fits armv6m t = t ≡ str "thumbv6m-none-eabi"
Fits armv7m t = t ≡ str "thumbv7m-none-eabi"
Fits armv7em t = (t ≡ str "thumbv7em-none-eabi") ⊎ (t ≡ str "thumbv7em-none-eabihf")
Fits armv8m t =
    (t ≡ str "thumbv8m.base-none-eabi")
    ⊎ ((t ≡ str "thumbv8m.main-none-eabi") ⊎ (t ≡ str "thumbv8m.main-none-eabihf"))
Fits armv7a t = true ≡ false
Fits armv8a t = true ≡ false
Fits riscv t = Unit

find_target-IsTarget : (path : StdPath) (t : Str) → find_target path ≡ some t → IsTarget path t
unfolding find_target
find_target-IsTarget [] t h = cc
find_target-IsTarget (c ∷ rest) t h = elim (Bool-cases (is_target c)) [
  | inl e ↦ ([], c, rest, refl, tt, e, some-injective _ _ (sym (rw e at h)))
  | inr e ↦
      let (before, d, after, split, missed, hit, same) = find_target-IsTarget rest t (rw e at h) in
      (c ∷ before, d, after, ap (λ r. c ∷ r) split, (e, missed), hit, same)
]

IsTarget-find_target : (path : StdPath) (t : Str) → IsTarget path t → find_target path ≡ some t
unfolding find_target
IsTarget-find_target path t ([], c, after, split, missed, hit, same) = rw (split, hit, same) refl
IsTarget-find_target path t (b ∷ before, c, after, split, (miss, missed), hit, same) =
    rw (split, miss)
      (IsTarget-find_target (before ++ c ∷ after) t (before, c, after, refl, missed, hit, same))

abbrev OneOf : Str → Str → List Str → Type 0
OneOf t a [] = t ≡ a
OneOf t a (b ∷ rest) = (t ≡ a) ⊎ OneOf t b rest

any_sound : (t a : Str) (rest : List Str) → any (str_eq t) (a ∷ rest) ≡ true → OneOf t a rest
any_sound t a [] h = (str_eq_iff t a).0 (ground arith)
any_sound t a (b ∷ rest) h = elim (Bool-cases (str_eq t a)) [
  | inl e ↦ inl ((str_eq_iff t a).0 e)
  | inr e ↦ inr (any_sound t b rest (rw e at h))
]

any_complete : (t a : Str) (rest : List Str) → OneOf t a rest → any (str_eq t) (a ∷ rest) ≡ true
any_complete t a [] h = rw ((str_eq_iff t a).1 h) refl
any_complete t a (b ∷ rest) (inl h) = rw ((str_eq_iff t a).1 h) refl
any_complete t a (b ∷ rest) (inr h) = rw (any_complete t b rest h) (or_true (str_eq t a))
  where
    or_true : (b : Bool) → (b || true) ≡ true
    or_true true = refl
    or_true false = refl

-- a result without a panic, which is no warning exactly if `P`
abbrev Judges : Type 0 → Result (Option Warning) → Type 0
Judges P r = (w : Option Warning) × (r ≡ ok w) × ((w ≡ none) ↔ P)

either-Judges :
    (b : Bool) (bad : Warning) (P : Type 0)
    → (b ≡ true → P)
    → (P → b ≡ true)
    → Judges P (if b then ok none else ok (some bad))
either-Judges true bad P sound complete = (none, refl, ((λ h. sound refl), (λ h. refl)))
either-Judges false bad P sound complete =
    (some bad, refl, ((λ h. cc), (λ h. absurd (let bad : false ≡ true = complete h in cc))))

compare-Judges :
    (core_type : CoreType) (t : Str)
    → Judges (Fits core_type t) (compare t core_type (targets_of core_type))
unfolding compare
compare-Judges riscv t = (none, refl, ((λ h. tt), (λ h. refl)))
compare-Judges armv7a t = (some (unsupported armv7a), refl, ((λ h. cc), (λ h. cc)))
compare-Judges armv8a t = (some (unsupported armv8a), refl, ((λ h. cc), (λ h. cc)))
compare-Judges armv6m t = either-Judges _ _ _ (any_sound t _ []) (any_complete t _ [])
compare-Judges armv7m t = either-Judges _ _ _ (any_sound t _ []) (any_complete t _ [])
compare-Judges armv7em t = either-Judges _ _ _ (any_sound t _ (_ ∷ [])) (any_complete t _ (_ ∷ []))
compare-Judges armv8m t =
    either-Judges _ _ _ (any_sound t _ (_ ∷ _ ∷ [])) (any_complete t _ (_ ∷ _ ∷ []))

-- The check never reaches its two `unreachable!` arms; it gives no warning exactly if the compilation
-- target, where the path has one, fits the type of the core.
pub check_processor_target_compatability_lem :
    (core_type : CoreType) (path : StdPath)
    → (w : Option Warning) × (check_processor_target_compatability core_type path ≡ ok w)
      × ((w ≡ none) ↔ ((t : Str) → IsTarget path t → Fits core_type t))
unfolding check_processor_target_compatability
check_processor_target_compatability_lem core_type path = by_target (find_target path) refl
  where
    by_target :
        (found : Option Str)
        → find_target path ≡ found
        → Judges ((t : Str) → IsTarget path t → Fits core_type t) (elim found [
          | none ↦ ok none
          | some target ↦ compare target core_type (targets_of core_type)
        ])
    by_target none e = (
      none,
      refl,
      (
        (λ h. λ t is.
            absurd (let bad : none ≡ some t = sym e ∙ IsTarget-find_target path t is in cc)),
        (λ h. refl),
      ),
    )
    by_target (some t) e =
        let (w, judged, iff) = compare-Judges core_type t in
        (
          w,
          judged,
          (
            (λ h. λ u is.
                subst (Fits core_type) (some-injective _ _ (sym e ∙ IsTarget-find_target path u is))
                  (iff.0 h)),
            (λ h. iff.1 (h t (find_target-IsTarget path t e))),
          ),
        )
