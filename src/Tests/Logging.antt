-- ===== src/Tests/Logging.antt =====
-- The forwarding of the logs at concrete inputs.
use probe_run.Base.{
  ℕ, ◌+◌, ◌≡◌, ◌↔◌, ◌||◌, refl, arith, true, false, Option, none, some, List, [], ◌∷◌, length, All,
  if◌then◌else◌,
}
use probe_run.Base.Text.{Str, str}
use probe_run.Result.{ok, err, malformed_frame}
use probe_run.Cli.Options.{Opts}
use probe_run.Cortexm.{VectorTable}
use probe_run.Elf.Symbols.{Symbols}
use probe_run.Elf.Parse.{Elf}
use probe_run.Elf.Defmt.{Table, Location, Locations, has_no_entry, extract_defmt_info}
use probe_run.Elf.Defmt.Laws.{IsLocated, extract_defmt_info_iff}
use probe_run.Logs.Decode.{decode_and_print_defmt_logs}
use probe_run.Logs.Decode.Laws.{
  Yields, to_log, is_intact, log_all, decode_and_print_defmt_logs_lem,
  decode_and_print_defmt_logs_total,
}
use probe_run.Logs.Poll.{Decoding, poll, read_logs, forwarded}
use probe_run.Logs.Poll.Laws.{EndsWithin, poll_iff}
use probe_run.Startup.{setup_logging_channel}
use probe_run.Logs.Print.{print_logs, uses_defmt, decoder_and_encoding, forward_to_logger}
use probe_run.Logs.Print.Laws.{Reported, print_logs-Reported}
use probe_run.Tests.World.{World, bytes_decoder, bytes_decoder-Consumes, world_host, world_signals}

abbrev collect : ℕ → List ℕ → List ℕ
collect b s = b ∷ s

decode_and_print_defmt_logs_lem_example :
    decode_and_print_defmt_logs bytes_decoder collect false 9 (5 ∷ 6 ∷ 0 ∷ 7 ∷ []) []
    ≡ (err malformed_frame, 6 ∷ 5 ∷ [])
decode_and_print_defmt_logs_lem_example =
    decode_and_print_defmt_logs_lem bytes_decoder collect false 9 (5 ∷ 6 ∷ 0 ∷ 7 ∷ []) []
      (some 5 ∷ some 6 ∷ none ∷ some 7 ∷ []) [] (_, refl, (_, refl, (_, refl, (_, refl, refl))))
      (omega arith)

decode_and_print_defmt_logs_total_example :
    (answers : List (Option ℕ)) × (d' : List ℕ) × Yields bytes_decoder (5 ∷ 0 ∷ 7 ∷ []) answers d'
    × (decode_and_print_defmt_logs bytes_decoder collect true 4 (5 ∷ 0 ∷ 7 ∷ []) [] ≡ (
      (if true || is_intact bytes_decoder answers then ok (some d') else err malformed_frame),
      log_all bytes_decoder collect (to_log bytes_decoder true answers) [],
    ))
decode_and_print_defmt_logs_total_example =
    decode_and_print_defmt_logs_total bytes_decoder collect length true 4 (5 ∷ 0 ∷ 7 ∷ []) []
      bytes_decoder-Consumes (omega arith)

abbrev location : Location
location = record { file = []; line = 4; module_path = str "app" }

abbrev table : Table
table = record { indices = 1 ∷ 2 ∷ []; is_empty = false; has_timestamp = false; can_recover = true }

abbrev locations : Locations
locations = (2, location) ∷ (1, location) ∷ []

extract_defmt_info_iff_example :
    (extract_defmt_info (ok none) (ok (some table)) (λ t. ok locations) (some (str "1"))
      ≡ ok (some table, some locations))
    ↔ ((table.is_empty ≡ false → has_no_entry locations ≡ false)
        × All (IsLocated locations) table.indices)
extract_defmt_info_iff_example =
    extract_defmt_info_iff (ok none) (ok (some table)) (λ t. ok locations) (some (str "1")) table
      locations refl refl

-- the core is found halted once, runs on, and is found halted twice; a signal never comes
abbrev world : World
world = record {
  halted = true ∷ false ∷ true ∷ true ∷ [];
  input = (5 ∷ 6 ∷ []) ∷ [] ∷ (7 ∷ []) ∷ [] ∷ [];
  signals = [];
  exit = false;
  handler = true;
  output = [];
  halts = 0;
}

abbrev pub rounds : List ℕ → ℕ
rounds d = length d + 1

abbrev log : ℕ → World → World
log b w = world_host.log_defmt b (none, none, none) w

-- the frames 5, 6 and 7 are logged, and all of the script is used up
abbrev ended : World
ended = record {
  halted = [];
  input = [];
  signals = [];
  exit = false;
  handler = true;
  output = 5 ∷ 6 ∷ 7 ∷ [];
  halts = 0;
}

abbrev decoding : Decoding world_host
decoding = some ([], true)

polled : poll world_host log rounds 4 (some tt) false decoding world ≡ (ok (some tt), ended)
unfolding poll decode_and_print_defmt_logs
polled = refl

too_few :
    poll world_host log rounds 3 (some tt) false decoding world
    ≡ (ok none, record ended { halted = true ∷ []; input = [] ∷ [] })
unfolding poll decode_and_print_defmt_logs
too_few = refl

poll_iff_example :
    (poll world_host log rounds 4 (some tt) false decoding world ≡ (ok (some tt), ended))
    ↔ EndsWithin world_host log rounds (some tt) 4 false decoding world ended
poll_iff_example = poll_iff world_host log rounds (some tt) 4 false decoding world ended

read : {w : World} → read_logs world_host log rounds none none w ≡ (ok (forwarded none), w)
unfolding read_logs
read = refl

abbrev vectors : VectorTable
vectors = record { initial_stack_pointer = 0x2000_1000; hard_fault = 0x701 }

abbrev symbols : Symbols
symbols = record {
  main_fn_address = 0x400;
  program_uses_heap = false;
  reset_fn_start = 0x600;
  reset_fn_end = 0x620;
  rtt_buffer_address = some 0x2000_0040;
}

abbrev pub image : Elf
image = record {
  elf = record { section_by_name = λ name. none; sections = []; symbols = [] };
  symbols = symbols;
  debug_frame = [];
  defmt_locations = some locations;
  defmt_table = some table;
  live_functions = [];
  vector_table = vectors;
}

abbrev pub opts : Opts
opts = record {
  backtrace = str "auto";
  backtrace_limit = 50;
  chip = some (str "chip");
  chip_description_path = none;
  connect_under_reset = false;
  disable_double_buffering = false;
  elf = some [];
  erase_all = false;
  json = false;
  list_chips = false;
  list_probes = false;
  log_format = none;
  host_log_format = none;
  measure_stack = false;
  no_flash = false;
  probe = none;
  shorten_paths = false;
  speed = none;
  verbose = 0;
  verify = false;
  version = false;
}

-- a signal comes after the third poll
abbrev interrupted : World
interrupted = record world { signals = false ∷ false ∷ false ∷ true ∷ [] }

abbrev halted_by_signal : World
halted_by_signal = record ended {
  halted = true ∷ [];
  input = [] ∷ [];
  exit = true;
  handler = false;
  halts = 1;
}

abbrev pub plain : Str → Str
plain s = s

stopped :
    print_logs world_host plain plain (λ p. none) rounds 9 image [] opts interrupted
    ≡ (ok (some true), halted_by_signal)
unfolding print_logs decode_and_print_defmt_logs setup_logging_channel uses_defmt
    decoder_and_encoding forward_to_logger
stopped = refl

quiet :
    print_logs world_host plain plain (λ p. none) rounds 9 image [] opts world
    ≡ (ok (some false), record ended { handler = false })
unfolding print_logs decode_and_print_defmt_logs setup_logging_channel uses_defmt
    decoder_and_encoding forward_to_logger
quiet = refl

print_logs-Reported_example :
    Reported world_host world_signals plain plain
      (λ p. none)
      rounds
      image
      []
      opts
      false
      world
      (record ended { handler = false })
print_logs-Reported_example =
    print_logs-Reported world_host world_signals plain plain (λ p. none) rounds image [] opts 9
      world (record ended { handler = false }) false quiet
