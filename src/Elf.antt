-- ===== src/Elf.antt =====
-- src/elf.rs: what the program takes from the firmware image. The `object` and `gimli` crates parse
-- the file; their views of it are `ObjectFile` and `DebugFrame`.
pub mod ObjectFile
pub mod DebugFrame
pub mod VectorTable
pub mod Symbols
pub mod Defmt
pub mod Parse
use probe_run.Base.{ℕ, Bool, Option, List}
use probe_run.Base.Text.{Str}
use probe_run.Cortexm.{VectorTable as CortexmVectorTable}
