-- ===== src/Lib.antt =====
-- probe-run, a runner for Cortex-M firmware: it starts a program on a target through a debug probe,
-- and when the program stops it unwinds its stack and prints a backtrace.
--
-- How the parts interact. The firmware image gives the vector table, the symbols and the debug
-- frames. From these and the chip's memory map the program finds the RAM region and the range of the
-- stack; it paints that range before the start and measures how much of it was used afterwards. When
-- the target has stopped, the unwinder follows the stack by the debug frames, through a cache of the
-- registers in front of the core, and takes up the frames that the hardware stacks at exceptions. The
-- frames are given names and locations, and are printed up to a limit; the paths of dependencies are
-- recognised and shortened. The outcome of the unwinder is the exit code of the run.
--
--   Base         text, lists, options, bits and integers that the modules share
--   Result       what a Rust function can do: return, return an error, panic
--   U32          32-bit arithmetic in the dev profile (overflow panics) and in the release profile
--                (it wraps)
--   Exec         calls on a state that may fail
--   Core         the interface of probe_rs::Core, in front of real hardware: a parameter
--   Cortexm      src/cortexm.rs
--   Registers    src/registers.rs: the BTreeMap is a partial function
--   Stacked      src/stacked.rs
--   Elf          src/elf.rs: Parse is Elf::parse, VectorTable, Symbols and Defmt what it extracts; the
--                crates object, gimli and defmt_decoder answer by ObjectFile, DebugFrame and Crates
--   TargetInfo   src/target_info.rs: Ram is extract_active_ram_region, Stack extract_stack_info,
--                Compat check_processor_target_compatability, whose result is the warning
--   Backtrace    src/backtrace/: Unwind is unwind.rs, Symbolicate is symbolicate.rs, Pp is pp.rs;
--                Settings, Print and Outcome are mod.rs
--   Canary       src/canary.rs: Subroutine places, starts and reads back the two subroutines that run on
--                the target. Thumb carries out their machine code, by the Thumb instructions that the
--                listings in the source name (Listing), and relates it to the Rust functions that stand
--                there (Paint, Measure). That the attached core follows these instructions is the
--                hypothesis Thumb.Target.IsThumb; Installed and Likely are the canary on such a core. Float is
--                what IEEE 754 says of the f64 operations, the hypothesis IsRounded
--   Dep          src/dep/: StdPath is what these files use of std::path; RustStd, Toolchain, Rustc,
--                Cratesio and RustRepo are the files of these names; Recognise is mod.rs
--   Probe        src/probe.rs: Filter is ProbeFilter; the attached probes and their opening are arguments
--   Cli          src/cli.rs: Options is Opts; handle_arguments is the choice of the command, Output the
--                lines that the helper commands print
--   Startup      src/main.rs: analyze_vector_table, start_program, set_rtt_to_blocking,
--                setup_logging_channel; probe-rs answers the attempts to attach to RTT
--   Logs         src/main.rs: Print is print_logs, Poll its loop, Decode is
--                decode_and_print_defmt_logs, Location is location_info; Host is what they call of
--                RTT, of the decoder, of the logger and of the operating system
--   Run          src/main.rs: run_target_program; Prepare is lookup_probe_target, attach_to_probe and
--                flash, Logger is the set-up of the logger, Equipment is what they call of probe-rs and
--                of the file system
--   Main         src/main.rs: main, and the commands of src/cli.rs carried out
--   Tests        the theorems at concrete inputs
--
-- Functions keep their names; the body of a long function is cut into helpers that its parent calls
-- in the same order. `?` is the bind of Result, or of Exec where the core is used. The macro
-- unwrap_or_return_output is unwrap_or_return. What stands outside the program acts on one state
-- together with the core, so that a signal or a halt can come between any two calls.
--
-- Loops without a bound run on fuel, and the result is none if it runs out. For the unwinder, where
-- every frame address is the stack pointer plus an offset, twice the bytes between the stack pointer
-- and the start of the stack, and four, are enough; with a frame pointer in a corrupted stack no fuel
-- may be. For the decoding loop, more than the bytes that are not decoded yet is enough. The wait for
-- the program is as long as the program runs: any fuel from the number of polls up to the second
-- halted one is enough. The runs of the machine code take four instructions to a word of the painting
-- and seven to one of the measurement, and seven more are enough. The ten attempts to attach to RTT
-- are a recursion on their number, and every other loop is one on its list.
--
-- Not modelled: the texts of what is only logged or warned of (the warnings about the compilation
-- target and about timestamps are results), colours, the layout inside a printed line, errors in
-- writing to stderr, the times that the canary logs, and clap's parse of the arguments.
-- Floating-point arithmetic is a parameter (F64).
pub mod Base
pub mod Result
pub mod U32
pub mod Exec
pub mod Core
pub mod Cortexm
pub mod Registers
pub mod Stacked
pub mod Elf
pub mod TargetInfo
pub mod Backtrace
pub mod Canary
pub mod Dep
pub mod Probe
pub mod Cli
pub mod Startup
pub mod Logs
pub mod Run
pub mod Main
pub mod Tests
