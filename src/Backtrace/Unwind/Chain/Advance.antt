-- ===== src/Backtrace/Unwind/Chain/Advance.antt =====
-- How a round of src/backtrace/unwind.rs goes on from a frame that the stack records.
use probe_run.Base.{
  ℕ, ◌+◌, ◌≤◌, ◌<◌, ◌≡◌, refl, ap, ◌∙◌, Bool, true, false, not, ◌&&◌, ◌||◌, some, List, [], ◌∷◌,
  if◌then◌else◌, ltb, leb, ◌==◌, arith, Bool-cases, inl, inr, in_range,
}
use probe_run.Base.Bits.{bit_and}
use probe_run.Result.{ok}
use probe_run.U32.{u32_mod, add_u32-fits}
use probe_run.Core.{Core}
use probe_run.Cortexm.{
  subroutine_eq, is_thumb_bit_set, clear_thumb_bit, exc_return_marker, exc_return_ftype_mask,
}
use probe_run.Registers
use probe_run.Registers.{Registers, Cache, store, sp_reg, lr_reg, pc_reg}
use probe_run.Registers.Laws.{get_cached}
use probe_run.Stacked
use probe_run.Stacked.{Stacked, from_words}
use probe_run.Stacked.Laws.{read-in_bounds}
use probe_run.Backtrace.Unwind.{
  Context, Output, exception, next, done, push, check_sp, advance, ram_bounds,
}
use probe_run.Backtrace.Unwind.Chain.{stacked_size}
use probe_run.Backtrace.Unwind.Chain.Rules.{regs_at, Holds}

-- whether a stack that ends at an address is taken for a corrupted one
abbrev pub ends_badly : Context → ℕ → Bool
ends_badly ctx last = not (
    in_range ctx.reset_fn_start ctx.reset_fn_end last
    || not (ltb ctx.reset_fn_start ctx.reset_fn_end))

module _ (core : Core) (ctx : Context) (s : core.State) where
  pub advance-end :
      (pc sp lr' : ℕ) (output : Output) (regs : Registers core)
      → subroutine_eq lr' pc ≡ true
      → advance ctx pc (not (sp == sp)) output lr' regs
        ≡ (ok (done (record output { corrupted = ends_badly ctx pc })), regs)
  unfolding advance
  advance-end pc sp lr' output regs own =
      let same : (sp == sp) ≡ true = ground arith in rw same (rw own refl)

  -- a frame is not its own caller
  goes_on :
      (pc sp cfa lr' : ℕ)
      → (sp ≡ cfa → subroutine_eq lr' pc ≡ false)
      → (not (not (sp == cfa)) && subroutine_eq lr' pc) ≡ false
  goes_on pc sp cfa lr' moved = elim (Bool-cases (sp == cfa)) [
    | inl same ↦ rw (same, moved (ground arith)) refl
    | inr other ↦ rw other refl
  ]

  check_sp-below :
      (pc sp lr : ℕ) (cache : Cache) (output : Output)
      → Holds core ctx s cache sp lr
      → sp ≤ ctx.stack_start
      → check_sp ctx pc output (regs_at core ctx s cache)
        ≡ (ok (next pc output), regs_at core ctx s cache)
  unfolding check_sp
  check_sp-below pc sp lr cache output (has_sp, has_lr) below =
      let inside : ltb ctx.stack_start sp ≡ false = ground arith in
      rw (get_cached core sp_reg sp (regs_at core ctx s cache) has_sp) (rw inside refl)

  pub advance-caller :
      (pc sp cfa lr' : ℕ) (cache : Cache) (output : Output)
      → Holds core ctx s cache cfa lr'
      → (sp ≡ cfa → subroutine_eq lr' pc ≡ false)
      → lr' < exc_return_marker
      → is_thumb_bit_set lr' ≡ true
      → cfa ≤ ctx.stack_start
      → advance ctx pc (not (sp == cfa)) output lr' (regs_at core ctx s cache)
        ≡ (ok (next (clear_thumb_bit lr') output), regs_at core ctx s cache)
  unfolding advance
  advance-caller pc sp cfa lr' cache output holds moved plain thumb below =
      let no_exception : leb exc_return_marker lr' ≡ false = ground arith in
      rw (goes_on pc sp cfa lr' moved) (
        rw no_exception
          (rw thumb (check_sp-below (clear_thumb_bit lr') cfa lr' cache output holds below)))

  advance-interrupted :
      (pc sp cfa lr' : ℕ) (stacked : Stacked) (cache : Cache) (output : Output)
      → Holds core ctx s cache cfa lr'
      → (sp ≡ cfa → subroutine_eq lr' pc ≡ false)
      → exc_return_marker ≤ lr'
      → Stacked.read core ctx.profile cfa
          (bit_and lr' exc_return_ftype_mask == 0)
          (ram_bounds ctx.active_ram_region).0
          (ram_bounds ctx.active_ram_region).1
          s
        ≡ (ok (some stacked), s)
      → cfa + Stacked.size stacked < u32_mod
      → cfa + Stacked.size stacked ≤ ctx.stack_start
      → (cache' : Cache) × (advance ctx pc (not (sp == cfa)) output lr' (regs_at core ctx s cache)
          ≡ (ok (next stacked.pc (push output exception)), regs_at core ctx s cache'))
        × Holds core ctx s cache' (cfa + Stacked.size stacked) stacked.lr
  unfolding advance Registers.on_core Registers.insert
  advance-interrupted pc sp cfa lr' stacked cache output (has_sp, has_lr) moved special words fits
        below =
      let is_exception : leb exc_return_marker lr' ≡ true = ground arith in
      let sp' = cfa + Stacked.size stacked in
      let cache' = store (store cache lr_reg stacked.lr) sp_reg sp' in
      (
        cache',
        rw (goes_on pc sp cfa lr' moved) (
            rw is_exception (
              rw (get_cached core sp_reg cfa (regs_at core ctx s cache) has_sp) (
                rw words (
                  rw (add_u32-fits ctx.profile cfa (Stacked.size stacked) fits) (
                    check_sp-below stacked.pc sp' stacked.lr cache' (push output exception)
                      (refl, refl) below))))),
        (refl, refl),
      )

  -- the registers that an exception stacked
  read-stacked :
      (cfa lr lr' pc' : ℕ)
      → (ram_bounds ctx.active_ram_region).0 ≤ cfa + 20
      → cfa + 28 < (ram_bounds ctx.active_ram_region).1
      → cfa + 28 < u32_mod
      → core.read_32 (cfa + 20) 2 s ≡ (ok (lr' ∷ pc' ∷ []), s)
      → Stacked.read core ctx.profile cfa
          (bit_and lr exc_return_ftype_mask == 0)
          (ram_bounds ctx.active_ram_region).0
          (ram_bounds ctx.active_ram_region).1
          s
        ≡ (ok (some (from_words (bit_and lr exc_return_ftype_mask == 0) (lr' ∷ pc' ∷ []))), s)
  read-stacked cfa lr lr' pc' low high fits words =
      let (lo, hi) = ram_bounds ctx.active_ram_region in
      let first : in_range lo hi (cfa + 20) ≡ true = ground arith in
      let behind : in_range lo hi (cfa + 28) ≡ true = ground arith in
      read-in_bounds core ctx.profile cfa (bit_and lr exc_return_ftype_mask == 0) lo hi s fits
      ∙ rw (first, behind) (rw words refl)

  size-stacked :
      (fpu : Bool) (words : List ℕ)
      → Stacked.size (from_words fpu words) ≡ (if fpu then 100 else 32)
  unfolding Stacked.size
  size-stacked true words = refl
  size-stacked false words = refl

  stacked_fits : (cfa lr : ℕ) → cfa + stacked_size lr < u32_mod → cfa + 28 < u32_mod
  stacked_fits cfa lr h = ground arith

  pub advance-stacked :
      (pc sp cfa lr' lr'' pc'' : ℕ) (cache : Cache) (output : Output)
      → Holds core ctx s cache cfa lr'
      → (sp ≡ cfa → subroutine_eq lr' pc ≡ false)
      → exc_return_marker ≤ lr'
      → (ram_bounds ctx.active_ram_region).0 ≤ cfa + 20
      → cfa + 28 < (ram_bounds ctx.active_ram_region).1
      → core.read_32 (cfa + 20) 2 s ≡ (ok (lr'' ∷ pc'' ∷ []), s)
      → cfa + stacked_size lr' < u32_mod
      → cfa + stacked_size lr' ≤ ctx.stack_start
      → (cache' : Cache) × (advance ctx pc (not (sp == cfa)) output lr' (regs_at core ctx s cache)
          ≡ (ok (next pc'' (push output exception)), regs_at core ctx s cache'))
        × Holds core ctx s cache' (cfa + stacked_size lr') lr''
  advance-stacked pc sp cfa lr' lr'' pc'' cache output holds moved special low high words fits
        below =
      let fpu = bit_and lr' exc_return_ftype_mask == 0 in
      let same : Stacked.size (from_words fpu (lr'' ∷ pc'' ∷ [])) ≡ stacked_size lr' =
        size-stacked fpu (lr'' ∷ pc'' ∷ []) in
      let (cache', ran, (has_sp, has_lr)) =
        advance-interrupted pc sp cfa lr' (from_words fpu (lr'' ∷ pc'' ∷ [])) cache output holds
          moved special (read-stacked cfa lr' lr'' pc'' low high (stacked_fits cfa lr' fits) words)
          (omega (arith, same)) (omega (arith, same)) in
      (cache', ran, (has_sp ∙ ap (λ q. some (cfa + q)) same, has_lr))
