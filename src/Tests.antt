-- ===== src/Tests.antt =====
-- The theorems at concrete inputs, and runs of the code.
pub mod Device
pub mod Unwinding
pub mod Memory
pub mod Paths
pub mod Printing
pub mod Image
pub mod Probes
pub mod Starting
pub mod World
pub mod Logging
pub mod Running
pub mod Diverging
pub mod Tracing
pub mod Machine
pub mod Painting
pub mod Searching
pub mod Commands
pub mod Concluding
