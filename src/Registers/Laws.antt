-- ===== src/Registers/Laws.antt =====
-- What the operations of src/registers.rs do to the cache and to the core.
use probe_run.Base.{
  ℕ, ◌≡◌, ◌≢◌, refl, ◌⊎◌, sym, ap, Bool, not, none, some, arith, ◌==◌, Option-cases, inl, inr,
}
use probe_run.Base.Int.{ℤ}
use probe_run.Result.{ok, err, panic, Result}
use probe_run.U32.{Profile, add_offset}
use probe_run.Exec.{pure, ◌>>=◌, >>=-eq-ok, lift-eq-ok, continue}
use probe_run.Core.{Core}
use probe_run.Registers.{
  Registers, register_and_offset, offset, store, sp_reg, insert, get, cached, update_cfa, update,
  is_some_of,
}

module _ (core : Core) where
  pub get_cached :
      (reg val : ℕ) (regs : Registers core)
      → regs.cache reg ≡ some val
      → get reg regs ≡ (ok val, regs)
  unfolding get
  get_cached reg val regs h = rw (h, get)

  -- A vacant register is read from the core once and kept.
  get_vacant :
      (reg val : ℕ) (regs regs' : Registers core)
      → regs.cache reg ≡ none
      → get reg regs ≡ (ok val, regs')
      → regs'.cache ≡ store regs.cache reg val
  unfolding get
  get_vacant reg val regs regs' h e = filled (core.read_core_reg reg regs.device) (rw (h, get) at e)
    where
      filled :
          (r : Result ℕ × core.State)
          → continue {S = Registers core} r.0
              (λ v. (insert reg v >>= λ _. pure v))
              (record regs { device = r.1 })
            ≡ (ok val, regs')
          → regs'.cache ≡ store regs.cache reg val
      filled (ok v, c) p = ground arith
      filled (err x, c) p = cc
      filled (panic x, c) p = cc

  -- `get` fills its own entry and no other; the entry of a cached register stays as it was.
  pub get-cache :
      (reg val : ℕ) (regs regs' : Registers core)
      → get reg regs ≡ (ok val, regs')
      → ((regs.cache reg ≡ none) × (regs'.cache ≡ store regs.cache reg val))
        ⊎ ((regs.cache reg ≡ some val) × (regs' ≡ regs))
  get-cache reg val regs regs' e = elim (Option-cases (regs.cache reg)) [
    | inl vacant ↦ inl (vacant, get_vacant reg val regs regs' vacant e)
    | inr (v, h) ↦ inr (cc (get_cached reg v regs h), cc (get_cached reg v regs h))
  ]

  -- what follows the sum in `update_cfa`
  module _ (cfa : ℕ) (regs regs' : Registers core) (changed : Bool) where
    moved :
        (old : ℕ)
        → regs.cache sp_reg ≡ some old
        → (cached sp_reg >>= λ o. insert sp_reg cfa >>= λ _. pure (not (is_some_of o cfa))) regs
          ≡ (ok changed, regs')
        → (changed ≡ not (old == cfa)) × (regs'.cache ≡ store regs.cache sp_reg cfa)
    unfolding cached insert
    moved old h e = (ground arith, sym (ap (λ t. t.1.cache) e))

  -- what follows the address in `update`
  stored :
      (reg : ℕ) (regs regs' : Registers core) (r : Result ℕ × core.State)
      → continue {S = Registers core} r.0 (insert reg) (record regs { device = r.1 })
        ≡ (ok tt, regs')
      → (value : ℕ) × (r ≡ (ok value, regs'.device)) × (regs'.cache ≡ store regs.cache reg value)
  unfolding insert
  stored reg regs regs' (ok v, c) e =
      (v, ap (λ t. (ok v, t.1.device)) e, sym (ap (λ t. t.1.cache) e))
  stored reg regs regs' (err x, c) e = cc
  stored reg regs regs' (panic x, c) e = cc

  sp_kept :
      (reg base old : ℕ) (regs regs1 : Registers core)
      → regs.cache sp_reg ≡ some old
      → get reg regs ≡ (ok base, regs1)
      → (regs1.cache sp_reg ≡ some old) × ((r : ℕ) → r ≢ reg → regs1.cache r ≡ regs.cache r)
  sp_kept reg base old regs regs1 h e = elim (get-cache reg base regs regs1 e) [
    | inl (vacant, filled) ↦ rw filled (ground (arith, vacant), λ r n. ground arith)
    | inr (c, same) ↦ rw same (h, λ r n. refl)
  ]

  -- With SP cached, a successful `update_cfa` makes the computed address the new SP, reports a
  -- change exactly when it differs from the old SP, and changes at most the entries of SP and of
  -- the rule's register.
  pub update_cfa_lem :
      (p : Profile) (reg : ℕ) (off : ℤ) (old : ℕ) (regs regs' : Registers core) (changed : Bool)
      → regs.cache sp_reg ≡ some old
      → update_cfa p (register_and_offset reg off) regs ≡ (ok changed, regs')
      → (base : ℕ) × (cfa : ℕ) × (add_offset p base off ≡ ok cfa)
        × (regs'.cache sp_reg ≡ some cfa)
        × (changed ≡ not (old == cfa))
        × ((r : ℕ) → r ≢ sp_reg → r ≢ reg → regs'.cache r ≡ regs.cache r)
  unfolding update_cfa
  update_cfa_lem p reg off old regs regs' changed h e =
      let (base, regs1, got, e1) = >>=-eq-ok (get reg) _ regs regs' changed e in
      let (cfa, sum, e2) = lift-eq-ok (add_offset p base off) _ regs1 regs' changed e1 in
      let (kept, others) = sp_kept reg base old regs regs1 h got in
      let (flag, cache) = moved cfa regs1 regs' changed old kept e2 in
      (
        base,
        cfa,
        sum,
        rw cache (ground arith),
        flag,
        λ r n m. rw cache (ground (arith, others r m)),
      )

  -- With SP cached, a successful `update` reads one word, at SP plus the offset, and stores it as
  -- the value of the register and of no other.
  pub update_lem :
      (p : Profile) (reg : ℕ) (off : ℤ) (cfa : ℕ) (regs regs' : Registers core)
      → regs.cache sp_reg ≡ some cfa
      → update p reg (offset off) regs ≡ (ok tt, regs')
      → (addr : ℕ) × (value : ℕ) × (add_offset p cfa off ≡ ok addr)
        × (core.read_word_32 addr regs.device ≡ (ok value, regs'.device))
        × (regs'.cache ≡ store regs.cache reg value)
  unfolding update
  update_lem p reg off cfa regs regs' h e =
      let (addr, sum, e1) =
        lift-eq-ok (add_offset p cfa off) _ regs regs' tt
          (rw (get_cached sp_reg cfa regs h) at e) in
      let (value, word, kept) = stored reg regs regs' (core.read_word_32 addr regs.device) e1 in
      (addr, value, sum, word, kept)
