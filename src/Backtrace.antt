-- ===== src/Backtrace.antt =====
-- src/backtrace/: unwinding the stopped program and reporting its backtrace.
pub mod Outcome
pub mod Unwind
pub mod Symbolicate
pub mod Settings
pub mod Pp
pub mod Print
