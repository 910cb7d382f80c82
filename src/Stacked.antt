-- ===== src/Stacked.antt =====
-- src/stacked.rs: the registers that the hardware stacks on exception entry.
pub mod Laws
use probe_run.Base.{
  ℕ, ◌+◌, ◌*◌, Bool, Option, none, some, List, ◌&&◌, in_range, get_or, if◌then◌else◌,
}
use probe_run.Result.{Result, ok}
use probe_run.Result
use probe_run.U32.{Profile, add_u32}
use probe_run.Exec.{Exec, pure, lift, ◌>>=◌}
use probe_run.Core.{Core}

pub record Stacked : Type 0 where
  pub lr : ℕ
  pub pc : ℕ
  pub contains_fpu_regs : Bool

-- `Ok(())` is `true`, `Err(())` is `false`
unfoldable pub bounds_check : Profile → (lo hi start len : ℕ) → Result Bool
bounds_check profile lo hi start len =
    Result.◌>>=◌ (add_u32 profile start len)
      (λ end. ok (in_range lo hi start && in_range lo hi end))

abbrev pub register_size : ℕ
register_size = 4

abbrev pub words_offset : ℕ
words_offset = 5

abbrev pub words_minimum : ℕ
words_minimum = 2

abbrev pub words_basic : ℕ
words_basic = 8

abbrev pub words_extended : ℕ
words_extended = words_basic + 17

-- the two words that are read, `[lr, pc]`
abbrev pub from_words : Bool → List ℕ → Stacked
from_words fpu words = record {
  lr = get_or words 0 0;
  pc = get_or words 1 0;
  contains_fpu_regs = fpu;
}

module _ (core : Core) where
  unfoldable pub read :
      Profile → (sp : ℕ) → (fpu : Bool) → (lo hi : ℕ) → Exec core.State (Option Stacked)
  unfolding bounds_check
  read profile sp fpu lo hi = do
    start ← lift (add_u32 profile sp (register_size * words_offset))
    inside ← lift (bounds_check profile lo hi start (words_minimum * register_size))
    if inside
        then (do words ← core.read_32 start words_minimum; pure (some (from_words fpu words)))
        else pure none

unfoldable pub size : Stacked → ℕ
size stacked = (if stacked.contains_fpu_regs then words_extended else words_basic) * 4
