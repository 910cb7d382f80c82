-- ===== src/Backtrace/Unwind/Terminates/Rows.antt =====
-- What a row of the unwind table does to SP and LR in the register cache of src/registers.rs, if its
-- frame address is SP plus an offset.
use probe_run.Base.{
  ℕ, ◌+◌, ◌<◌, ◌≡◌, ◌≢◌, refl, sym, ap, ◌∙◌, not, some, List, [], ◌∷◌, ◌==◌, All, arith, Bool-cases,
  inl, inr,
}
use probe_run.Base.Int.{pos}
use probe_run.Result.{ok}
use probe_run.U32.{Profile, u32_mod, add_offset-pos}
use probe_run.Exec.{>>=-eq-ok}
use probe_run.Core.{Core}
use probe_run.Registers
use probe_run.Registers.{
  Registers, RegisterRule, offset, undefined, other, register_and_offset, sp_reg, lr_reg, store,
  is_some_of,
}
use probe_run.Registers.Laws.{get_cached, update_lem}
use probe_run.Elf.DebugFrame.{Row}
use probe_run.Backtrace.Unwind.{Context, update_all}

abbrev pub Spares : ℕ → List (ℕ × RegisterRule) → Type 0
Spares reg = All (λ rule. rule.0 ≢ reg)

-- The frame address is SP plus an offset, which fits 32 bits for an SP of at most `top` with an
-- extended exception frame above it. No rule is for SP, and none for LR where the offset is 0.
abbrev pub IsPlain : (top : ℕ) → Row → Type 0
IsPlain top row =
    (k : ℕ) × (row.cfa ≡ register_and_offset sp_reg (pos k))
    × (top + k + 104 < u32_mod)
    × Spares sp_reg row.registers
    × (k ≡ 0 → Spares lr_reg row.registers)

module _ {core : Core} where
  abbrev pub with_sp : Registers core → ℕ → Registers core
  with_sp regs sp = record regs { cache = store regs.cache sp_reg sp }

  pub update_cfa-sp :
      (p : Profile) (k sp : ℕ) (regs : Registers core)
      → regs.cache sp_reg ≡ some sp
      → sp + k < u32_mod
      → Registers.update_cfa p (register_and_offset sp_reg (pos k)) regs
        ≡ (ok (not (sp == sp + k)), with_sp regs (sp + k))
  unfolding Registers.update_cfa Registers.cached Registers.insert
  update_cfa-sp p k sp regs cached fits = rw (get_cached core sp_reg sp regs cached) (
      rw (add_offset-pos p sp k fits)
        (ap (λ o. (ok (not (is_some_of o (sp + k))), with_sp regs (sp + k))) cached))

  update_stores :
      (p : Profile) (reg sp : ℕ) (rule : RegisterRule) (regs regs' : Registers core)
      → regs.cache sp_reg ≡ some sp
      → Registers.update p reg rule regs ≡ (ok tt, regs')
      → (value : ℕ) × (regs'.cache ≡ store regs.cache reg value)
  unfolding Registers.update
  update_stores p reg sp (offset off) regs regs' cached h =
      let (addr, value, sum, word, kept) = update_lem core p reg off sp regs regs' cached h in
      (value, kept)
  update_stores p reg sp undefined regs regs' cached h = cc
  update_stores p reg sp other regs regs' cached h = cc

  -- after the rules of a row: SP as it was, and an entry for `r`, the same if there is no rule for it
  abbrev pub Kept : (sp r v : ℕ) → List (ℕ × RegisterRule) → Registers core → Type 0
  Kept sp r v rules regs =
      (regs.cache sp_reg ≡ some sp)
      × (v' : ℕ) × (regs.cache r ≡ some v')
      × (Spares r rules → v' ≡ v)

  pub update_all-Kept :
      (ctx : Context) (sp r v : ℕ) (rules : List (ℕ × RegisterRule)) (regs regs' : Registers core)
      → regs.cache sp_reg ≡ some sp
      → Spares sp_reg rules
      → regs.cache r ≡ some v
      → update_all ctx rules regs ≡ (ok tt, regs')
      → Kept sp r v rules regs'
  unfolding update_all
  update_all-Kept ctx sp r v [] regs regs' cached hs has h = (
    ap (λ t. t.1.cache sp_reg) (sym h) ∙ cached,
    v,
    ap (λ t. t.1.cache r) (sym h) ∙ has,
    λ _. refl,
  )
  update_all-Kept ctx sp r v ((reg, rule) ∷ rest) regs regs' cached (hs, hss) has h =
      by_first (λ v1 regs1 c g m. update_all-Kept ctx sp r v1 rest regs1 regs' c hss g m)
        (>>=-eq-ok (Registers.update ctx.profile reg rule) _ regs regs' tt h)
    where
      stored :
          ((v1 : ℕ) (regs1 : Registers core)
            → regs1.cache sp_reg ≡ some sp
            → regs1.cache r ≡ some v1
            → update_all ctx rest regs1 ≡ (ok tt, regs')
            → Kept sp r v1 rest regs')
          → (value : ℕ) (regs1 : Registers core) → regs1.cache ≡ store regs.cache reg value
          → update_all ctx rest regs1 ≡ (ok tt, regs')
          → Kept sp r v ((reg, rule) ∷ rest) regs'
      stored ih value regs1 cache more = elim (Bool-cases (r == reg)) [
        | inl same ↦
            let (kept, v', has', eq) =
              ih value regs1 (rw cache (ground (arith, cached))) (rw cache (ground arith)) more in
            (kept, v', has', λ (hr, hrs). absurd (hr (ground arith)))
        | inr different ↦
            let (kept, v', has', eq) =
              ih v regs1 (rw cache (ground (arith, cached))) (rw cache (ground (arith, has)))
                more in
            (kept, v', has', λ (hr, hrs). eq hrs)
      ]

      by_first :
          ((v1 : ℕ) (regs1 : Registers core)
            → regs1.cache sp_reg ≡ some sp
            → regs1.cache r ≡ some v1
            → update_all ctx rest regs1 ≡ (ok tt, regs')
            → Kept sp r v1 rest regs')
          → (u : Unit {0}) × (regs1 : Registers core) × (Registers.update ctx.profile reg rule regs
              ≡ (ok u, regs1))
            × (update_all ctx rest regs1 ≡ (ok tt, regs'))
          → Kept sp r v ((reg, rule) ∷ rest) regs'
      by_first ih (u, regs1, first, more) =
          let (value, cache) = update_stores ctx.profile reg sp rule regs regs1 cached first in
          stored ih value regs1 cache more
