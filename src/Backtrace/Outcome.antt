-- ===== src/Backtrace/Outcome.antt =====
-- `Outcome` of src/backtrace/mod.rs, and its exit code.
use probe_run.Base.{ℕ, Bool, true, false}

pub data Outcome : Type 0 where
  hard_fault ok stack_overflow ctrl_c : Outcome

abbrev pub is_ok : Outcome → Bool
is_ok ok = true
is_ok _ = false

abbrev pub is_stack_overflow : Outcome → Bool
is_stack_overflow stack_overflow = true
is_stack_overflow _ = false

-- `signal::SIGABRT` and `signal::SIGINT`
abbrev pub sigabrt : ℕ
sigabrt = 6

abbrev pub sigint : ℕ
sigint = 2

unfoldable pub exit_code : Outcome → ℕ
exit_code hard_fault = sigabrt
exit_code stack_overflow = sigabrt
exit_code ctrl_c = sigint
exit_code ok = 0
