-- ===== src/Logs/Print.antt =====
-- `print_logs` of src/main.rs: it attaches to the log channel, forwards the logs until the program
-- stops, and halts the core if a signal ended the wait.
pub mod Signals
pub mod Laws
use probe_run.Base.{ℕ, Bool, true, false, ◌&&◌, Option, none, some, List, if◌then◌else◌}
use probe_run.Base.Text.{Str, str, str_eq}
use probe_run.Result.{ok, no_defmt_data}
use probe_run.Exec.{Exec, pure, fail, ◌>>=◌, ◌>>◌}
use probe_run.Core.{Core}
use probe_run.TargetInfo.{MemoryRegion}
use probe_run.Dep.StdPath.{StdPath}
use probe_run.Cli.Options.{Opts}
use probe_run.Elf.Defmt.{Table, Locations}
use probe_run.Elf.Parse.{Elf, rtt_buffer_address}
use probe_run.Startup.{setup_logging_channel}
use probe_run.Logs.Host.{Host}
use probe_run.Logs.Location.{location_info}
use probe_run.Logs.Poll.{Decoding, poll}

-- in milliseconds
abbrev pub timeout : ℕ
timeout = 1000

abbrev is_name : Str → Option Str → Bool
is_name name none = false
is_name name (some s) = str_eq s name

abbrev is_none : Option Table → Bool
is_none none = true
is_none (some table) = false

module _ {core : Core} (host : Host core) where
  abbrev pub open_channel : List MemoryRegion → Option ℕ → Exec core.State (Option host.Channel)
  open_channel memory_map none = pure none
  open_channel memory_map (some address) =
      setup_logging_channel (host.attach_region memory_map address) >>= λ channel.
      pure (some channel)

  -- `use_defmt`
  unfoldable pub uses_defmt : Option host.Channel → Bool
  uses_defmt none = false
  uses_defmt (some channel) = is_name (str "defmt") (host.channel_name channel)

  -- with `--no-flash`, a missing table is not looked at
  unfoldable pub check_table :
      (use_defmt no_flash : Bool) → Option Table → Exec core.State (Unit {0})
  check_table use_defmt no_flash table =
      if use_defmt && no_flash
      then pure tt
      else if use_defmt && is_none table
      then fail no_defmt_data
      else pure tt

  abbrev with_decoder : Option Table → Decoding host
  with_decoder none = none
  with_decoder (some table) = some (host.new_stream_decoder table, table.can_recover)

  unfoldable pub decoder_and_encoding : (use_defmt : Bool) → Option Table → Decoding host
  decoder_and_encoding use_defmt table = if use_defmt then with_decoder table else none

  abbrev load : Exec core.State Bool
  load s = let (exit, t) = host.load_exit s in (ok exit, t)

  abbrev halt_if : Bool → Exec core.State (Unit {0})
  halt_if true = core.halt timeout
  halt_if false = pure tt

  abbrev unregister : Exec core.State (Unit {0})
  unregister s = (ok tt, host.unregister s)

  -- what is done behind the loop: `halted_due_to_signal`
  unfoldable pub stop_on_signal : Exec core.State Bool
  stop_on_signal = do unregister; host.register_conditional_default; exit ← load; halt_if exit; load

  abbrev pub reported : Option (Unit {0}) → Exec core.State (Option Bool)
  reported none = pure none
  reported (some left) = stop_on_signal >>= λ signal. pure (some signal)

  module _ (bold dimmed : Str → Str) (strip_prefix : StdPath → Option StdPath) where
    unfoldable pub forward_to_logger :
        Option Locations → (shorten_paths : Bool) → host.decoder.Frame → core.State → core.State
    unfolding location_info
    forward_to_logger locations shorten_paths frame =
        host.log_defmt frame (
          location_info bold dimmed strip_prefix shorten_paths (host.decoder.index frame) locations)

    -- from the loop on
    unfoldable pub wait :
        (rounds : host.decoder.State → ℕ)
        → ℕ
        → Elf
        → Opts
        → Option host.Channel
        → Exec core.State (Option Bool)
    unfolding poll stop_on_signal
    wait rounds fuel elf opts channel =
        poll host (forward_to_logger elf.defmt_locations opts.shorten_paths) rounds fuel channel
          false (decoder_and_encoding (uses_defmt channel) elf.defmt_table)
        >>= reported

    -- whether a signal ended the wait, or `none` if the fuel of a loop ran out
    unfoldable pub print_logs :
        (rounds : host.decoder.State → ℕ)
        → ℕ
        → Elf
        → List MemoryRegion
        → Opts
        → Exec core.State (Option Bool)
    unfolding check_table wait
    print_logs rounds fuel elf memory_map opts = do
      host.register
      channel ← open_channel memory_map (rtt_buffer_address elf)
      check_table (uses_defmt channel) opts.no_flash elf.defmt_table
      wait rounds fuel elf opts channel
