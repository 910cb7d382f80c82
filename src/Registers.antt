-- ===== src/Registers.antt =====
-- src/registers.rs: the cache of CPU registers while the stack is being unwound. A `BTreeMap` is a
-- partial function here. The unwind rules are those of gimli that the source tells apart.
pub mod Laws
use probe_run.Base.{ℕ, ◌≡◌, Bool, true, false, not, Option, none, some, ◌==◌, if◌then◌else◌}
use probe_run.Base.Int.{ℤ}
use probe_run.Result.{Result, ok, todo, unimplemented, unreachable}
use probe_run.U32.{Profile, add_offset}
use probe_run.Exec.{Exec, pure, abort, lift, ◌>>=◌, ◌>>◌}
use probe_run.Core.{Core}

abbrev pub lr_reg : ℕ
lr_reg = 14

abbrev pub pc_reg : ℕ
pc_reg = 15

abbrev pub sp_reg : ℕ
sp_reg = 13

-- `gimli::read::CfaRule`
pub data CfaRule : Type 0 where
  register_and_offset : ℕ → ℤ → CfaRule
  expression : CfaRule

-- `gimli::RegisterRule`; `other` stands for the variants that the source treats alike
pub data RegisterRule : Type 0 where
  offset : ℤ → RegisterRule
  undefined other : RegisterRule

abbrev pub Cache : Type 0
Cache = ℕ → Option ℕ

abbrev pub store : Cache → ℕ → ℕ → Cache
store cache reg val r = if r == reg then some val else cache r

-- `old == Some(&x)`
abbrev pub is_some_of : Option ℕ → ℕ → Bool
is_some_of none x = false
is_some_of (some y) x = y == x

module _ (core : Core) where
  pub record Registers : Type 0 where
    pub cache : Cache
    pub device : core.State

module _ {core : Core} where
  unfoldable pub new : ℕ → ℕ → core.State → Registers core
  new lr sp c = record { cache = store (store (λ _. none) lr_reg lr) sp_reg sp; device = c }

  -- a call on the core, which the registers own
  unfoldable pub on_core : {A : Type 0} → Exec core.State A → Exec (Registers core) A
  on_core m regs = let (r, c) = m regs.device in (r, record regs { device = c })

  unfoldable pub insert : ℕ → ℕ → Exec (Registers core) (Unit {0})
  insert reg val regs = pure tt (record regs { cache = store regs.cache reg val })

  -- the vacant entry: read the register, then fill the entry in
  unfoldable pub get : ℕ → Exec (Registers core) ℕ
  unfolding on_core insert
  get reg regs = elim (regs.cache reg) [
    | some val ↦ pure val regs
    | none ↦ (do val ← on_core (core.read_core_reg reg); insert reg val; pure val) regs
  ]

  unfoldable pub cached : ℕ → Exec (Registers core) (Option ℕ)
  cached reg regs = pure (regs.cache reg) regs

  -- Returns whether the canonical frame address has changed.
  unfoldable pub update_cfa : Profile → CfaRule → Exec (Registers core) Bool
  unfolding get cached insert
  update_cfa profile (register_and_offset register off) = do
    base ← get register
    cfa ← lift (add_offset profile base off)
    old_cfa ← cached sp_reg
    insert sp_reg cfa
    pure (not (is_some_of old_cfa cfa))
  update_cfa profile expression = abort todo

  unfoldable pub update : Profile → ℕ → RegisterRule → Exec (Registers core) (Unit {0})
  unfolding get on_core insert
  update profile reg (offset off) = do
    cfa ← get sp_reg
    addr ← lift (add_offset profile cfa off)
    value ← on_core (core.read_word_32 addr)
    insert reg value
  update profile reg undefined = abort unreachable
  update profile reg other = abort unimplemented
