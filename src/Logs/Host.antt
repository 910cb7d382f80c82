-- ===== src/Logs/Host.antt =====
-- What `print_logs` of src/main.rs calls of the operating system, of RTT in probe-rs and of
-- defmt_decoder. All of it acts on one state with the attached core, and is a parameter.
use probe_run.Base.{ℕ, Bool, Option, List}
use probe_run.Base.Text.{Str}
use probe_run.Exec.{Exec}
use probe_run.Core.{Core}
use probe_run.TargetInfo.{MemoryRegion}
use probe_run.Elf.Defmt.{Table}
use probe_run.Startup.{Attach}
use probe_run.Logs.Decode.{StreamDecoder}
use probe_run.Logs.Location.{Info}

pub record Host (core : Core) : Type 1 where
  pub decoder : StreamDecoder
  pub new_stream_decoder : Table → decoder.State
  -- an up channel of RTT; a read takes what is there, up to 1024 bytes
  pub Channel : Type 0
  pub channel_name : Channel → Option Str
  pub attach_region : List MemoryRegion → ℕ → core.State → Attach Channel × core.State
  pub read : Channel → Exec core.State (List ℕ)
  -- the logger, and the standard output
  pub log_defmt : decoder.Frame → Info → core.State → core.State
  pub write_all : List ℕ → Exec core.State (Unit {0})
  pub flush : Exec core.State (Unit {0})
  -- the handler of SIGINT, and the flag `exit` that it sets; a signal can come between any two calls
  pub register : Exec core.State (Unit {0})
  pub unregister : core.State → core.State
  pub register_conditional_default : Exec core.State (Unit {0})
  pub load_exit : core.State → Bool × core.State
