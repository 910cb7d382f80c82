-- ===== src/Logs.antt =====
-- The part of src/main.rs that prints the logs of the running program.
pub mod Location
pub mod Decode
pub mod Host
pub mod Poll
pub mod Print
