-- ===== src/Stacked/Laws.antt =====
-- What `Stacked::read` of src/stacked.rs reads, and when.
use probe_run.Base.{
  ℕ, ◌+◌, ◌≤◌, ◌<◌, ◌≡◌, inl, inr, Bool, true, false, none, some, List, arith, ◌&&◌, in_range,
  Bool-cases, if◌then◌else◌,
}
use native.Mathlib.Nat.{add_assoc}
use probe_run.Result.{ok}
use probe_run.U32.{Profile, dev, release, add_u32, add_u32-fits, add_u32-lt, u32_mod}
use probe_run.Exec.{pure, ◌>>=◌, lift-eq-ok, >>=-eq-ok}
use probe_run.Core.{Core}
use probe_run.Stacked.{Stacked, from_words, bounds_check, read}

bounds_check_fits :
    (p : Profile) (lo hi start len : ℕ)
    → start + len < u32_mod
    → bounds_check p lo hi start len ≡ ok (in_range lo hi start && in_range lo hi (start + len))
unfolding bounds_check
bounds_check_fits p lo hi start len h = rw (add_u32-fits p start len h)

-- Where the frame does not wrap round the address space, the two words at `sp + 20` are read if
-- they and the address behind them lie in the bounds; else nothing is read and the core is as it was.
pub read-in_bounds :
    (core : Core) (p : Profile) (sp : ℕ) (fpu : Bool) (lo hi : ℕ) (s : core.State)
    → sp + 28 < u32_mod
    → read core p sp fpu lo hi s ≡ (
        if in_range lo hi (sp + 20) && in_range lo hi (sp + 28)
        then (core.read_32 (sp + 20) 2 >>= λ words. pure (some (from_words fpu words))) s
        else (ok none, s))
unfolding read
read-in_bounds core p sp fpu lo hi s h = rw (add_u32-fits p sp 20 (omega arith)) (
    rw (bounds_check_fits p lo hi (sp + 20) 8 (omega arith)) (
      rw (add_assoc sp 20 8)
        (elim (Bool-cases (in_range lo hi (sp + 20) && in_range lo hi (sp + 28))) [
          | inl e ↦ rw e
          | inr e ↦ rw e
        ])))

bounds_check_sound :
    (p : Profile) (lo hi start : ℕ)
    → 8 ≤ lo
    → start < u32_mod
    → bounds_check p lo hi start 8 ≡ ok true
    → (lo ≤ start) × (start + 8 < hi)
unfolding bounds_check add_u32
bounds_check_sound dev lo hi start h k e = ground arith
bounds_check_sound release lo hi start h k e = ground arith

module _ (core : Core) (p : Profile) (start : ℕ) (fpu : Bool) (lo hi : ℕ) where
  -- what follows the bounds check
  accepted :
      (s s' : core.State) (st : Stacked)
      → 8 ≤ lo
      → start < u32_mod
      → (inside : Bool) → bounds_check p lo hi start 8 ≡ ok inside
      → (if inside
            then core.read_32 start 2 >>= (λ words. pure (some (from_words fpu words)))
            else pure none)
          s
        ≡ (ok (some st), s')
      → (x : ℕ) × (words : List ℕ) × (lo ≤ x)
        × (x + 8 < hi)
        × (core.read_32 x 2 s ≡ (ok words, s'))
        × (st ≡ from_words fpu words)
  accepted s s' st h k true check e =
      let (words, t, got, rest) = >>=-eq-ok (core.read_32 start 2) _ s s' (some st) e in
      let (a, b) = bounds_check_sound p lo hi start h k check in (start, words, a, b, cc, cc)
  accepted s s' st h k false check e = cc

-- A frame that is returned was read from inside the bounds, also where the address arithmetic of a
-- release build wraps, provided that the bounds start at 8 or above.
pub read_sound :
    (core : Core) (p : Profile) (sp : ℕ) (fpu : Bool) (lo hi : ℕ) (s s' : core.State) (st : Stacked)
    → 8 ≤ lo
    → read core p sp fpu lo hi s ≡ (ok (some st), s')
    → (start : ℕ) × (words : List ℕ) × (lo ≤ start)
      × (start + 8 < hi)
      × (core.read_32 start 2 s ≡ (ok words, s'))
      × (st ≡ from_words fpu words)
unfolding read
read_sound core p sp fpu lo hi s s' st h e =
    let (start, sum, e1) = lift-eq-ok (add_u32 p sp 20) _ s s' (some st) e in
    let (inside, check, e2) = lift-eq-ok (bounds_check p lo hi start 8) _ s s' (some st) e1 in
    accepted core p start fpu lo hi s s' st h (add_u32-lt p sp 20 start sum) inside check e2
