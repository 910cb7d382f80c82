-- ===== src/Canary/Installed.antt =====
-- What an installed canary of src/canary.rs is: the stack range of the target, painted.
use mathlib.Core.Option.{some-injective}
use probe_run.Base.{
  ◌+◌, ◌-◌, ◌/◌, ◌%◌, ◌≤◌, ◌<◌, ◌≡◌, ap, sym, ◌∙◌, Bool, true, false, not, ◌||◌, some, none, Option,
  ltb, ◌==◌, if◌then◌else◌, arith, subst, refl,
}
use probe_run.Result.{Result, ok, panic, assertion, ok-injective}
use probe_run.U32.{Profile, u32_mod}
use probe_run.Exec.{>>=-eq-ok, lift-eq-ok, pure}
use probe_run.Core.{Core}
use probe_run.TargetInfo.{StackInfo}
use probe_run.Canary.Subroutine
use probe_run.Canary.{F64, Canary, prepare, paint_canary, install}
use probe_run.Canary.Laws.{canary_of, prepare_lem}
use probe_run.Canary.Thumb.{Machine}
use probe_run.Canary.Thumb.Target.{IsThumb}
use probe_run.Canary.Thumb.Painted.{IsPainted, paint-IsPainted}

module _ (f64 : F64) (p : Profile) (heap : Bool) (info : StackInfo) where
  -- a canary that is placed covers the range, of words and at least 20 bytes
  pub record Placed (canary : Canary f64) : Type 0 where
    pub covers : canary ≡ canary_of f64 info
    pub long : 20 ≤ info.highest - info.lowest
    pub words : (info.highest - info.lowest) % 4 ≡ 0
    pub no_heap : heap ≡ false

  passed :
      (canary : Canary f64) (heap misaligned short : Bool)
      → (if heap
          then ok none
          else if misaligned
          then panic assertion
          else if short
          then ok none
          else ok (some (canary_of f64 info)))
        ≡ ok (some canary)
      → (heap ≡ false) × (misaligned ≡ false) × (short ≡ false) × (canary ≡ canary_of f64 info)
  passed canary true misaligned short h =
      absurd (let no_canary : none ≡ some canary = ok-injective h in cc)
  passed canary false true short h = absurd (panicked h)
    where
      panicked : ¬ (◌≡◌ {A = Result (Option (Canary f64))} (panic assertion) (ok (some canary)))
      panicked e = cc
  passed canary false false true h =
      absurd (let no_canary : none ≡ some canary = ok-injective h in cc)
  passed canary false false false h = (refl, refl, refl, sym (some-injective _ _ (ok-injective h)))

  prepare-Placed :
      (canary : Canary f64)
      → info.lowest ≤ info.highest
      → info.highest < u32_mod
      → prepare f64 p heap (some info) ≡ ok (some canary)
      → Placed canary
  prepare-Placed canary le small h =
      let (no_heap, aligned, long, covers) =
        passed canary heap (not (info.lowest % 4 == 0) || not (info.highest % 4 == 0))
          (ltb (info.highest - info.lowest) 20) (sym (prepare_lem f64 p heap info le small) ∙ h) in
      record {
        covers = covers;
        long = ground arith;
        words = ground (arith, aligned);
        no_heap = no_heap;
      }

  -- On a core that carries out the instructions of the machine code: a canary that is installed covers
  -- the stack range, which holds at least 20 bytes and is one of whole words, and it is installed only if
  -- the program does not use the heap. Every byte of the range and of the word behind it is the
  -- pattern then, and the rest of the memory is as it was: for a range that ends, with the word behind
  -- it, within 32-bit addresses.
  pub install-IsPainted :
      (core : Core) (view : core.State → Machine) (canary : Canary f64) (s s' : core.State)
      → IsThumb core view
      → info.lowest ≤ info.highest
      → info.highest + 4 < u32_mod
      → install core p f64 heap (some info) s ≡ (ok (some canary), s')
      → Placed canary
        × IsPainted info.lowest (info.highest - info.lowest) (view s).memory (view s').memory
  unfolding install
  install-IsPainted core view canary s s' thumb le small h =
      let (c, prepared, painted) =
        lift-eq-ok (prepare f64 p heap (some info)) (paint_canary core p f64) s s' (some canary)
          h in
      by_canary c prepared painted
    where
      by_canary :
          (c : Option (Canary f64))
          → prepare f64 p heap (some info) ≡ ok c
          → paint_canary core p f64 c s ≡ (ok (some canary), s')
          → Placed canary
            × IsPainted info.lowest (info.highest - info.lowest) (view s).memory (view s').memory
      by_canary none prepared painted = absurd (not_none (ok-injective (ap (λ q. q.0) painted)))
        where
          not_none : ¬ (none ≡ some canary)
          not_none e = cc
      by_canary (some k) prepared painted =
          let (_, t, done, left) =
            >>=-eq-ok (Subroutine.paint core p k.addr k.size) (λ _. pure (some k)) s s'
              (some canary) painted in
          let same : k ≡ canary = some-injective _ _ (ok-injective (ap (λ q. q.0) left)) in
          let state : t ≡ s' = ap (λ q. q.1) left in
          let placed = prepare-Placed k le (omega arith) prepared in
          let size = info.highest - info.lowest in
          (
            subst Placed same placed,
            paint-IsPainted info.lowest ((size - 12) / 4) size (omega (arith, placed.words))
                (omega arith) core view p s s' thumb
                (subst (λ c. Subroutine.paint core p c.addr c.size s ≡ (ok tt, s')) placed.covers
                  (done ∙ ap (λ q. (ok tt, q)) state)),
          )
