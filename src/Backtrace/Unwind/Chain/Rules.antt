-- ===== src/Backtrace/Unwind/Chain/Rules.antt =====
-- One round of src/backtrace/unwind.rs at a frame that the stack records.
use probe_run.Base.{
  ℕ, ◌<◌, ◌≡◌, ◌≢◌, refl, ap, ◌∙◌, not, some, List, [], ◌∷◌, ◌==◌, arith, if◌then◌else◌,
}
use probe_run.Base.Int.{ℤ, pos, negsuc}
use probe_run.Result.{ok}
use probe_run.U32.{Profile, u32_mod, add_offset, add_offset-pos, add_offset-negsuc}
use probe_run.Core.{Core}
use probe_run.Registers
use probe_run.Registers.{
  Registers, Cache, RegisterRule, offset, undefined, other, register_and_offset, store, sp_reg,
  lr_reg,
}
use probe_run.Registers.Laws.{get_cached}
use probe_run.Elf.DebugFrame.{Fde, Row}
use probe_run.Backtrace.Unwind.{Context, Output, advance, update_all, unwind_frame, row_at}
use probe_run.Backtrace.Unwind.Terminates.Rows.{update_cfa-sp}
use probe_run.Backtrace.Unwind.Chain.{Slot, Restores, Frame}

add_offset-Slot :
    (p : Profile) (cfa : ℕ) (off : ℤ) (addr : ℕ)
    → cfa < u32_mod
    → Slot cfa off addr
    → add_offset p cfa off ≡ ok addr
add_offset-Slot p cfa (pos j) addr fits (at, small) =
    add_offset-pos p cfa j (omega arith) ∙ ap ok at
add_offset-Slot p cfa (negsuc j) addr fits at =
    add_offset-negsuc p cfa j (omega arith) fits ∙ ap ok (omega arith)

row_at-eq_ok : (f : Fde) (pc : ℕ) (row : Row) → f.row pc ≡ ok row → row_at f pc ≡ ok row
unfolding row_at
row_at-eq_ok f pc row h = rw (h, row_at)

module _ (core : Core) (ctx : Context) (s : core.State) where
  abbrev pub regs_at : Cache → Registers core
  regs_at cache = record { cache = cache; device = s }

  -- a cache that holds SP and LR
  abbrev pub Holds : Cache → (sp lr : ℕ) → Type 0
  Holds cache sp lr = (cache sp_reg ≡ some sp) × (cache lr_reg ≡ some lr)

  stored :
      (cache : Cache) (cfa lr reg value : ℕ)
      → reg ≢ sp_reg
      → Holds cache cfa lr
      → Holds (store cache reg value) cfa (if reg == lr_reg then value else lr)
  stored cache cfa lr reg value spared (has_sp, has_lr) = (ground arith, ground arith)

  update_step :
      (cache : Cache) (cfa lr reg addr value : ℕ) (off : ℤ)
      → cfa < u32_mod
      → Holds cache cfa lr
      → Slot cfa off addr
      → core.read_word_32 addr s ≡ (ok value, s)
      → Registers.update ctx.profile reg (offset off) (regs_at cache)
        ≡ (ok tt, regs_at (store cache reg value))
  unfolding Registers.update Registers.on_core Registers.insert
  update_step cache cfa lr reg addr value off fits (has_sp, has_lr) at word =
      rw (get_cached core sp_reg cfa (regs_at cache) has_sp)
        (rw (add_offset-Slot ctx.profile cfa off addr fits at) (rw word refl))

  -- The rules of a row go through, and LR comes to be the caller's.
  update_all-Restores :
      (cfa : ℕ) (rules : List (ℕ × RegisterRule)) (lr lr' : ℕ) (cache : Cache)
      → cfa < u32_mod
      → Holds cache cfa lr
      → Restores core ctx s cfa rules lr lr'
      → (cache' : Cache) × (update_all ctx rules (regs_at cache) ≡ (ok tt, regs_at cache'))
        × Holds cache' cfa lr'
  unfolding update_all
  update_all-Restores cfa [] lr lr' cache fits (has_sp, has_lr) same =
      (cache, refl, (has_sp, has_lr ∙ ap some same))
  update_all-Restores cfa ((reg, offset off) ∷ rest) lr lr' cache fits holds
        (addr, value, spared, at, word, later) =
      let (cache', ran, holds') =
        update_all-Restores cfa rest (if reg == lr_reg then value else lr) lr'
          (store cache reg value) fits (stored cache cfa lr reg value spared holds) later in
      (cache', rw (update_step cache cfa lr reg addr value off fits holds at word) ran, holds')
  update_all-Restores cfa ((reg, undefined) ∷ rest) lr lr' cache fits holds h = cc
  update_all-Restores cfa ((reg, other) ∷ rest) lr lr' cache fits holds h = cc

  -- At a frame the round comes to the link register of the caller.
  pub unwind_frame-Frame :
      (pc sp lr cfa lr' : ℕ) (cache : Cache) (output : Output)
      → Frame core ctx s pc sp lr cfa lr'
      → Holds cache sp lr
      → (cache' : Cache) × (unwind_frame ctx pc output (regs_at cache)
          ≡ advance ctx pc (not (sp == cfa)) output lr' (regs_at cache'))
        × Holds cache' cfa lr'
  unfolding unwind_frame
  unwind_frame-Frame pc sp lr cfa lr' cache output frame (has_sp, has_lr) =
      let changed : Registers.update_cfa ctx.profile frame.row.cfa (regs_at cache)
          ≡ (ok (not (sp == cfa)), regs_at (store cache sp_reg cfa)) =
        ap (λ rule. Registers.update_cfa ctx.profile rule (regs_at cache)) frame.by_sp
        ∙ update_cfa-sp ctx.profile frame.size sp (regs_at cache) has_sp
            (omega (arith, frame.top, frame.fits))
        ∙ ap (λ q. (ok (not (sp == q)), regs_at (store cache sp_reg q))) frame.top in
      let (cache', ran, (has_sp', has_lr')) =
        update_all-Restores cfa frame.row.registers lr lr' (store cache sp_reg cfa) frame.fits
          (refl, has_lr) frame.restored in
      (
        cache',
        rw frame.found (
            rw (row_at-eq_ok frame.entry pc frame.row frame.in_table) (
              rw changed (rw ran (rw (get_cached core lr_reg lr' (regs_at cache') has_lr') refl)))),
        (has_sp', has_lr'),
      )
