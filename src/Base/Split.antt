-- ===== src/Base/Split.antt =====
-- `str::split` at a character.
use Prim.Native.Nat.{ℕ}
use mathlib.Core.Path.{◌≡◌, refl}
use mathlib.Core.Bool.{true, false}
use mathlib.Core.List.{List, [], ◌∷◌, ◌++◌}
use native.Mathlib.Omega.{arith}
use probe_run.Base.Tests.{◌==◌, if◌then◌else◌}
use probe_run.Base.Lists.{All}
use probe_run.Base.Text.{Str}

abbrev cons_first : ℕ → List Str → List Str
cons_first c [] = (c ∷ []) ∷ []
cons_first c (part ∷ parts) = (c ∷ part) ∷ parts

-- `s.split(c)`: the parts between the separators, one more than there are of these
unfoldable pub split : ℕ → Str → List Str
split sep [] = [] ∷ []
split sep (c ∷ cs) = let parts = split sep cs in if c == sep then [] ∷ parts else cons_first c parts

abbrev pub HasNo : ℕ → Str → Type 0
HasNo c = All (λ d. (d == c) ≡ false)

pub split-last : (sep : ℕ) (part : Str) → HasNo sep part → split sep part ≡ part ∷ []
unfolding split
split-last sep [] h = refl
split-last sep (c ∷ cs) (h, hs) = rw h (rw (split-last sep cs hs))

pub split-append :
    (sep : ℕ) (part rest : Str)
    → HasNo sep part
    → split sep (part ++ sep ∷ rest) ≡ part ∷ split sep rest
unfolding split
split-append sep [] rest h = let same : (sep == sep) ≡ true = ground arith in rw same
split-append sep (c ∷ cs) rest (h, hs) = rw h (rw (split-append sep cs rest hs))
