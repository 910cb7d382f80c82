-- ===== src/Probe/Laws.antt =====
-- Which probe src/probe.rs opens.
use probe_run.Base.{
  ◌≡◌, ◌↔◌, inl, inr, refl, sym, ap, ◌∙◌, true, false, some, List, [], ◌∷◌, ◌++◌, All, Bool-cases,
}
use probe_run.Base.Text.{Str}
use probe_run.Result.{ok, ok-injective}
use probe_run.Probe.{DebugProbeInfo, selected, filter, single, choose}
use probe_run.Probe.Filter.{ProbeFilter, from_str}
use probe_run.Probe.Matches.{Matches, selected-Matches, unselected-Matches}

-- the probe is in the list and matches, and no other does
abbrev pub IsOnly : ProbeFilter → List DebugProbeInfo → DebugProbeInfo → Type 0
IsOnly selector probes probe =
    (before : List DebugProbeInfo) × (after : List DebugProbeInfo) × (probes
      ≡ before ++ probe ∷ after)
    × All (λ p. ¬ Matches selector p) before
    × Matches selector probe
    × All (λ p. ¬ Matches selector p) after

-- the same, by the test of the code
abbrev IsKept : ProbeFilter → List DebugProbeInfo → DebugProbeInfo → Type 0
IsKept selector probes probe =
    (before : List DebugProbeInfo) × (after : List DebugProbeInfo) × (probes
      ≡ before ++ probe ∷ after)
    × All (λ p. selected selector p ≡ false) before
    × (selected selector probe ≡ true)
    × All (λ p. selected selector p ≡ false) after

unmatched_iff :
    (selector : ProbeFilter) (probes : List DebugProbeInfo)
    → All (λ p. selected selector p ≡ false) probes ↔ All (λ p. ¬ Matches selector p) probes
unmatched_iff selector [] = (λ h. tt, λ h. tt)
unmatched_iff selector (p ∷ rest) =
    let here = unselected-Matches selector p in
    let later = unmatched_iff selector rest in
    (λ (h, hs). (here.0 h, later.0 hs), λ (h, hs). (here.1 h, later.1 hs))

filter-none :
    (selector : ProbeFilter) (probes : List DebugProbeInfo)
    → filter probes selector ≡ []
    → All (λ p. selected selector p ≡ false) probes
unfolding filter
filter-none selector [] h = tt
filter-none selector (p ∷ rest) h = elim (Bool-cases (selected selector p)) [
  | inl e ↦ absurd (let bad : p ∷ filter rest selector ≡ [] = rw e at h in cc)
  | inr e ↦ (e, filter-none selector rest (rw e at h))
]

filter-IsKept :
    (selector : ProbeFilter) (probes : List DebugProbeInfo) (probe : DebugProbeInfo)
    → filter probes selector ≡ probe ∷ []
    → IsKept selector probes probe
unfolding filter
filter-IsKept selector [] probe h = cc
filter-IsKept selector (p ∷ rest) probe h = elim (Bool-cases (selected selector p)) [
  | inl e ↦ first e (rw e at h)
  | inr e ↦ extend e (filter-IsKept selector rest probe (rw e at h))
]
  where
    first :
        selected selector p ≡ true
        → p ∷ filter rest selector ≡ probe ∷ []
        → IsKept selector (p ∷ rest) probe
    first e same =
        let one : p ≡ probe = cc same in
        let nothing : filter rest selector ≡ [] = cc same in
        (
          [],
          rest,
          ap (λ q. q ∷ rest) one,
          tt,
          ap (selected selector) (sym one) ∙ e,
          filter-none selector rest nothing,
        )

    extend :
        selected selector p ≡ false → IsKept selector rest probe → IsKept selector (p ∷ rest) probe
    extend e (before, after, split, hb, hit, ha) =
        (p ∷ before, after, ap (λ l. p ∷ l) split, (e, hb), hit, ha)

drop_unselected :
    (selector : ProbeFilter) (before rest : List DebugProbeInfo)
    → All (λ p. selected selector p ≡ false) before
    → filter (before ++ rest) selector ≡ filter rest selector
unfolding filter
drop_unselected selector [] rest h = refl
drop_unselected selector (p ∷ before) rest (h, hs) = rw h (drop_unselected selector before rest hs)

keep_one :
    (selector : ProbeFilter) (probe : DebugProbeInfo) (after : List DebugProbeInfo)
    → selected selector probe ≡ true
    → All (λ p. selected selector p ≡ false) after
    → filter (probe ∷ after) selector ≡ probe ∷ []
unfolding filter
keep_one selector probe after hit ha = rw hit (ap (λ l. probe ∷ l) (rest_gone after ha))
  where
    rest_gone :
        (l : List DebugProbeInfo)
        → All (λ p. selected selector p ≡ false) l
        → filter l selector ≡ []
    rest_gone [] h = refl
    rest_gone (p ∷ l) (h, hs) = rw h (rest_gone l hs)

filter_only :
    (selector : ProbeFilter) (probes : List DebugProbeInfo) (probe : DebugProbeInfo)
    → IsKept selector probes probe
    → filter probes selector ≡ probe ∷ []
filter_only selector probes probe (before, after, split, hb, hit, ha) =
    rw split
      (drop_unselected selector before (probe ∷ after) hb ∙ keep_one selector probe after hit ha)

single-eq-ok :
    (probes : List DebugProbeInfo) (probe : DebugProbeInfo)
    → single probes ≡ ok probe
    → probes ≡ probe ∷ []
unfolding single
single-eq-ok [] probe h = cc
single-eq-ok (p ∷ []) probe h = ap (λ q. q ∷ []) (ok-injective h)
single-eq-ok (p ∷ q ∷ rest) probe h = cc

-- With a filter that can be parsed, a probe is chosen exactly if it is the only attached probe that
-- has the ids and the serial number of the filter, as far as the filter has them.
pub choose_iff :
    (text : Str) (selector : ProbeFilter) (probes : List DebugProbeInfo) (probe : DebugProbeInfo)
    → from_str text ≡ ok selector
    → (choose (some text) probes ≡ ok probe) ↔ IsOnly selector probes probe
unfolding choose
choose_iff text selector probes probe parsed = rw parsed (
  λ h. matched (filter-IsKept selector probes probe (single-eq-ok _ probe h)),
  λ only. ap single (filter_only selector probes probe (kept only)),
)
  where
    matched : IsKept selector probes probe → IsOnly selector probes probe
    matched (before, after, split, hb, hit, ha) = (
      before,
      after,
      split,
      (unmatched_iff selector before).0 hb,
      (selected-Matches selector probe).0 hit,
      (unmatched_iff selector after).0 ha,
    )

    kept : IsOnly selector probes probe → IsKept selector probes probe
    kept (before, after, split, hb, hit, ha) = (
      before,
      after,
      split,
      (unmatched_iff selector before).1 hb,
      (selected-Matches selector probe).1 hit,
      (unmatched_iff selector after).1 ha,
    )
