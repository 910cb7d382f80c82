-- ===== src/Core.antt =====
-- The interface of `probe_rs::Core` and `probe_rs::MemoryInterface` that the program calls. It is
-- third-party code in front of real hardware, so its state and operations are a parameter.
use probe_run.Base.{ℕ, Bool, List}
use probe_run.Exec.{Exec}

pub record Core : Type 1 where
  pub State : Type 0
  -- by register number: 13 is SP, 14 is LR, 15 is PC
  pub read_core_reg : ℕ → Exec State ℕ
  pub write_core_reg : ℕ → ℕ → Exec State (Unit {0})
  -- an address and the length of the buffer
  pub read_8 : ℕ → ℕ → Exec State (List ℕ)
  pub write_8 : ℕ → List ℕ → Exec State (Unit {0})
  pub read_32 : ℕ → ℕ → Exec State (List ℕ)
  pub read_word_32 : ℕ → Exec State ℕ
  pub write_word_32 : ℕ → ℕ → Exec State (Unit {0})
  pub run : Exec State (Unit {0})
  pub halt : ℕ → Exec State (Unit {0})
  pub reset_and_halt : ℕ → Exec State (Unit {0})
  -- a timeout in milliseconds
  pub wait_for_core_halted : ℕ → Exec State (Unit {0})
  pub core_halted : Exec State Bool
  pub available_breakpoint_units : Exec State ℕ
  pub set_hw_breakpoint : ℕ → Exec State (Unit {0})
  pub clear_hw_breakpoint : ℕ → Exec State (Unit {0})
