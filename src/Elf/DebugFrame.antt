-- ===== src/Elf/DebugFrame.antt =====
-- The part of `gimli::DebugFrame` that src/backtrace/unwind.rs reads.
use probe_run.Base.{ℕ, ◌+◌, Bool, List, in_range}
use probe_run.Result.{Result}
use probe_run.Registers.{CfaRule, RegisterRule}

-- a row of the unwind table: the rule for the frame address, and those for the registers
pub record Row : Type 0 where
  pub cfa : CfaRule
  pub registers : List (ℕ × RegisterRule)

-- a frame description entry for `len` addresses, and the row that gimli's
-- `unwind_info_for_address` finds for an address
pub record Fde : Type 0 where
  pub initial_address : ℕ
  pub len : ℕ
  pub row : ℕ → Result Row

-- what `entries.next()` yields; a partial entry may fail to parse
pub data Entry : Type 0 where
  cie : Entry
  fde : Result Fde → Entry

-- the entries in order; the iterator itself may fail
abbrev pub DebugFrame : Type 0
DebugFrame = List (Result Entry)

-- `fde.contains(addr)`
abbrev pub covers : Fde → ℕ → Bool
covers f addr = in_range f.initial_address (f.initial_address + f.len) addr
