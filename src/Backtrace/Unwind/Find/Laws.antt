-- ===== src/Backtrace/Unwind/Find/Laws.antt =====
-- `find_fde` of src/backtrace/unwind.rs finds the one entry that applies to an address.
use mathlib.Core.List.{append-nil}
use probe_run.Base.{
  ℕ, ◌≡◌, refl, sym, ap, subst, ◌∙◌, ◌↔◌, ◌⊎◌, ◌≤◌, Bool, true, false, not, ◌&&◌, List, [], ◌∷◌,
  ◌++◌, ◌==◌, All, length, length-append, Bool-cases, inl, inr, arith,
}
use probe_run.Result.{Result, ok, err, panic, ok-injective, >>=-eq-ok}
use probe_run.Elf.DebugFrame.{Fde, Entry, cie, fde, DebugFrame, covers}
use probe_run.Backtrace.Unwind.Find.{collect, pick, find_fde}

-- an entry of live code that covers the address
abbrev pub applies : ℕ → Fde → Bool
applies addr f = not (f.initial_address == 0) && covers f addr

-- the entry can be read, and does not apply
abbrev pub Passes : ℕ → Result Entry → Type 0
Passes addr (ok cie) = Unit
Passes addr (ok (fde (ok f))) = applies addr f ≡ false
Passes addr _ = true ≡ false

-- the entry is the only one that applies, and all of them can be read
abbrev pub IsOnly : ℕ → DebugFrame → Fde → Type 0
IsOnly addr debug_frame f =
    (before : DebugFrame) × (after : DebugFrame) × (debug_frame ≡ before ++ ok (fde (ok f)) ∷ after)
    × All (Passes addr) before
    × (applies addr f ≡ true)
    × All (Passes addr) after

collect-hit :
    (addr : ℕ) (f : Fde) (rest : DebugFrame) (acc : List Fde)
    → applies addr f ≡ true
    → collect addr (ok (fde (ok f)) ∷ rest) acc ≡ collect addr rest (acc ++ f ∷ [])
unfolding collect
collect-hit addr f rest acc h =
    let live : (f.initial_address == 0) ≡ false = ground arith in
    let inside : covers f addr ≡ true = ground arith in rw live (rw inside)

collect-miss :
    (addr : ℕ) (f : Fde) (rest : DebugFrame) (acc : List Fde)
    → applies addr f ≡ false
    → collect addr (ok (fde (ok f)) ∷ rest) acc ≡ collect addr rest acc
unfolding collect
collect-miss addr f rest acc h = elim (Bool-cases (f.initial_address == 0)) [
  | inl dead ↦ rw dead
  | inr live ↦ let outside : covers f addr ≡ false = ground arith in rw live (rw outside)
]

collect-Passes :
    (addr : ℕ) (es rest : DebugFrame) (acc : List Fde)
    → All (Passes addr) es
    → collect addr (es ++ rest) acc ≡ collect addr rest acc
unfolding collect
collect-Passes addr [] rest acc h = refl
collect-Passes addr (ok cie ∷ es) rest acc (h, hs) = collect-Passes addr es rest acc hs
collect-Passes addr (ok (fde (ok f)) ∷ es) rest acc (h, hs) =
    collect-miss addr f (es ++ rest) acc h ∙ collect-Passes addr es rest acc hs
collect-Passes addr (ok (fde (err e)) ∷ es) rest acc (h, hs) = cc
collect-Passes addr (ok (fde (panic p)) ∷ es) rest acc (h, hs) = cc
collect-Passes addr (err e ∷ es) rest acc (h, hs) = cc
collect-Passes addr (panic p ∷ es) rest acc (h, hs) = cc

collect-All-Passes :
    (addr : ℕ) (es : DebugFrame) (acc : List Fde)
    → All (Passes addr) es
    → collect addr es acc ≡ ok acc
unfolding collect
collect-All-Passes addr es acc h =
    ap (λ l. collect addr l acc) (sym (append-nil es)) ∙ collect-Passes addr es [] acc h

only_found : (addr : ℕ) (df : DebugFrame) (f : Fde) → IsOnly addr df f → find_fde df addr ≡ ok f
unfolding find_fde
only_found addr df f (before, after, split, hb, hit, ha) = rw split (
    rw (collect-Passes addr before (ok (fde (ok f)) ∷ after) [] hb)
      (rw (collect-hit addr f after [] hit) (rw (collect-All-Passes addr after (f ∷ []) ha))))

-- what the first entry did, in a search that returned
abbrev Head : ℕ → Result Entry → DebugFrame → List Fde → List Fde → Type 0
Head addr e rest acc out =
    (Passes addr e × (collect addr rest acc ≡ ok out))
    ⊎ ((g : Fde) × (e ≡ ok (fde (ok g)))
        × (applies addr g ≡ true)
        × (collect addr rest (acc ++ g ∷ []) ≡ ok out))

collect-Head :
    (addr : ℕ) (e : Result Entry) (rest : DebugFrame) (acc out : List Fde)
    → collect addr (e ∷ rest) acc ≡ ok out
    → Head addr e rest acc out
unfolding collect
collect-Head addr (ok cie) rest acc out h = inl (tt, h)
collect-Head addr (ok (fde (ok g))) rest acc out h = elim (Bool-cases (applies addr g)) [
  | inl hit ↦ inr (g, refl, hit, sym (collect-hit addr g rest acc hit) ∙ h)
  | inr miss ↦ inl (miss, sym (collect-miss addr g rest acc miss) ∙ h)
]
collect-Head addr (ok (fde (err e))) rest acc out h = cc
collect-Head addr (ok (fde (panic p))) rest acc out h = cc
collect-Head addr (err e) rest acc out h = cc
collect-Head addr (panic p) rest acc out h = cc

collect_grows :
    (addr : ℕ) (df : DebugFrame) (acc out : List Fde)
    → collect addr df acc ≡ ok out
    → length acc ≤ length out
unfolding collect
collect_grows addr [] acc out h =
    let same : acc ≡ out = ok-injective h in omega (arith, ap length same)
collect_grows addr (e ∷ rest) acc out h = elim (collect-Head addr e rest acc out h) [
  | inl (pass, more) ↦ collect_grows addr rest acc out more
  | inr (g, at, hit, more) ↦
      omega (arith, collect_grows addr rest (acc ++ g ∷ []) out more, length-append acc (g ∷ []))
]

-- a search that adds nothing has passed over everything
nothing_added :
    (addr : ℕ) (df : DebugFrame) (acc out : List Fde)
    → collect addr df acc ≡ ok out
    → length out ≡ length acc
    → (acc ≡ out) × All (Passes addr) df
unfolding collect
nothing_added addr [] acc out h len = (ok-injective h, tt)
nothing_added addr (e ∷ rest) acc out h len = elim (collect-Head addr e rest acc out h) [
  | inl (pass, more) ↦
      let (same, all) = nothing_added addr rest acc out more len in (same, (pass, all))
  | inr (g, at, hit, more) ↦ absurd (
      omega
        (arith, len, collect_grows addr rest (acc ++ g ∷ []) out more, length-append acc (g ∷ [])))
]

found-IsOnly :
    (addr : ℕ) (df : DebugFrame) (f : Fde) → collect addr df [] ≡ ok (f ∷ []) → IsOnly addr df f
unfolding collect
found-IsOnly addr [] f h = cc
found-IsOnly addr (e ∷ rest) f h = elim (collect-Head addr e rest [] (f ∷ []) h) [
  | inl (pass, more) ↦ extend pass (found-IsOnly addr rest f more)
  | inr (g, at, hit, more) ↦ first g at hit (nothing_added addr rest (g ∷ []) (f ∷ []) more refl)
]
  where
    extend : Passes addr e → IsOnly addr rest f → IsOnly addr (e ∷ rest) f
    extend pass (before, after, split, hb, hit, ha) =
        (e ∷ before, after, ap (λ l. e ∷ l) split, (pass, hb), hit, ha)

    first :
        (g : Fde)
        → e ≡ ok (fde (ok g))
        → applies addr g ≡ true
        → (g ∷ [] ≡ f ∷ []) × All (Passes addr) rest
        → IsOnly addr (e ∷ rest) f
    first g at hit (same, passed) =
        let one : g ≡ f = cc same in
        (
          [],
          rest,
          ap (λ x. x ∷ rest) (at ∙ ap (λ x. ok (fde (ok x))) one),
          tt,
          subst (λ x. applies addr x ≡ true) one hit,
          passed,
        )

picked : (addr : ℕ) (fdes : List Fde) (f : Fde) → pick addr fdes ≡ ok f → fdes ≡ f ∷ []
unfolding pick
picked addr [] f h = cc
picked addr (g ∷ []) f h = ap (λ x. x ∷ []) (ok-injective h)
picked addr (g ∷ k ∷ rest) f h = cc

-- The search returns an entry exactly if all entries can be read and it is the only one of live
-- code (its start is not 0) that covers the address.
pub find_fde_iff :
    (addr : ℕ) (df : DebugFrame) (f : Fde) → (find_fde df addr ≡ ok f) ↔ IsOnly addr df f
unfolding find_fde
find_fde_iff addr df f = (only, only_found addr df f)
  where
    only : find_fde df addr ≡ ok f → IsOnly addr df f
    only h =
        let (fdes, collected, e) = >>=-eq-ok (collect addr df []) (pick addr) h in
        found-IsOnly addr df f (collected ∙ ap ok (picked addr fdes f e))
