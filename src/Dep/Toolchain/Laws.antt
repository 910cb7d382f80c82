-- ===== src/Dep/Toolchain/Laws.antt =====
-- The name of a toolchain survives its parse.
use mathlib.Core.Option.{some-injective}
use probe_run.Base.{
  subst, Option-cases, ℕ, ◌+◌, ◌≡◌, refl, ap, ◌∙◌, none, some, [], ◌∷◌, ◌++◌, ◌==◌, if◌then◌else◌,
  arith, Bool-cases, inl, inr,
}
use probe_run.Base.Text.{
  Str, str, str_eq, str_eq_sound, starts_with, contains, split_once, split_once-join,
}
use probe_run.Base.Opt.{>>=-eq-some}
use probe_run.Dep.Toolchain.{
  One52, make, Channel, nightly, stable, beta, version, one52, verbatim, split_third_dash,
  nightly_from, before_dash, by_channel, one52_from_str, from_str, channel_text, format_highlight,
}

split_third_dash-join :
    (count : ℕ) (s before behind : Str)
    → split_third_dash count s ≡ some (before, behind)
    → before ++ b'-' ∷ behind ≡ s
unfolding split_third_dash
split_third_dash-join count [] before behind h = cc
split_third_dash-join count (c ∷ cs) [] behind h = ground arith
split_third_dash-join count (c ∷ cs) (d ∷ ds) behind h =
    ground (arith, split_third_dash-join (if c == b'-' then count + 1 else count) cs ds behind)

nightly_from-join :
    (rest : Str) (t : One52)
    → nightly_from rest ≡ some t
    → channel_text t.channel ++ b'-' ∷ t.host ≡ str "nightly" ++ b'-' ∷ rest
unfolding nightly_from channel_text
nightly_from-join rest t h = elim (Bool-cases (starts_with (str "20") (before_dash rest))) [
  | inl year ↦
      let (parts, split, made) = >>=-eq-some (split_third_dash 0 rest) _ (rw year at h) in
      dated parts.0 parts.1 split made
  | inr none_given ↦
      subst (λ (x : One52). channel_text x.channel ++ b'-' ∷ x.host ≡ str "nightly" ++ b'-' ∷ rest)
        (some-injective _ _ (rw none_given at h)) refl
]
  where
    dated :
        (date host : Str)
        → split_third_dash 0 rest ≡ some (date, host)
        → some (make (nightly (some date)) host) ≡ some t
        → channel_text t.channel ++ b'-' ∷ t.host ≡ str "nightly" ++ b'-' ∷ rest
    dated date host split made =
        subst
          (λ (x : One52). channel_text x.channel ++ b'-' ∷ x.host ≡ str "nightly" ++ b'-' ∷ rest)
          (some-injective _ _ made)
          (ap (λ (r : Str). str "nightly-" ++ r) (split_third_dash-join 0 rest date host split))

by_channel-join :
    (name rest : Str) (t : One52)
    → by_channel name rest ≡ some t
    → channel_text t.channel ++ b'-' ∷ t.host ≡ name ++ b'-' ∷ rest
unfolding by_channel channel_text
by_channel-join name rest t h = elim (Bool-cases (str_eq name (str "stable"))) [
  | inl e ↦ rw (str_eq_sound name (str "stable") e) (fixed stable (rw e at h))
  | inr e1 ↦ elim (Bool-cases (str_eq name (str "beta"))) [
    | inl e ↦ rw (str_eq_sound name (str "beta") e) (fixed beta (rw (e1, e) at h))
    | inr e2 ↦ elim (Bool-cases (str_eq name (str "nightly"))) [
      | inl e ↦
          rw (str_eq_sound name (str "nightly") e) (nightly_from-join rest t (rw (e1, e2, e) at h))
      | inr e3 ↦ elim (Bool-cases (contains b'.' name)) [
        | inl e ↦ fixed (version name) (rw (e1, e2, e3, e) at h)
        | inr e ↦ absurd (let bad : none ≡ some t = rw (e1, e2, e3, e) at h in cc)
      ]
    ]
  ]
]
  where
    fixed :
        (c : Channel)
        → some (make c rest) ≡ some t
        → channel_text t.channel ++ b'-' ∷ t.host ≡ channel_text c ++ b'-' ∷ rest
    fixed c e =
        subst
          (λ (x : One52). channel_text x.channel ++ b'-' ∷ x.host ≡ channel_text c ++ b'-' ∷ rest)
          (some-injective _ _ e) refl

abbrev pub unstyled : Str → Str
unstyled s = s

from_str-some : (s : Str) (t : One52) → one52_from_str s ≡ some t → from_str s ≡ one52 t
unfolding from_str
from_str-some s t h = rw (h, from_str)

from_str-none : (s : Str) → one52_from_str s ≡ none → from_str s ≡ verbatim s
unfolding from_str
from_str-none s h = rw (h, from_str)

-- With colours switched off, the highlighted form of a toolchain is the text it was parsed from,
-- for every text.
pub format_highlight-from_str : (s : Str) → format_highlight unstyled unstyled (from_str s) ≡ s
unfolding format_highlight
format_highlight-from_str s = elim (Option-cases (one52_from_str s)) [
  | inl plain ↦ rw (from_str-none s plain)
  | inr (t, parsed) ↦ rw (from_str-some s t parsed) (
      unfold one52_from_str in
      let (parts, split, made) = >>=-eq-some (split_once b'-' s) _ parsed in
      by_channel-join parts.0 parts.1 t made ∙ split_once-join b'-' s parts.0 parts.1 split)
]
