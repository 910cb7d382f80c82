-- ===== src/Tests/Running.antt =====
-- A whole run of `run_target_program` on the scripted host.
use probe_run.Base.{◌↔◌, Option, ℕ, ◌≡◌, refl, true, false, none, some, [], ◌∷◌}
use probe_run.Base.Text.{Str, str}
use probe_run.Result.{ok}
use probe_run.U32.{dev}
use probe_run.Exec.{pure}
use probe_run.Canary.{F64}
use probe_run.Core.{Core}
use probe_run.Logs.Host.{Host}
use probe_run.Probe.{DebugProbeInfo}
use probe_run.Elf.ObjectFile.{ObjectFile, Section, Symbol}
use probe_run.Elf.Parse.{Crates}
use probe_run.Backtrace.Symbolicate.{Symbols}
use probe_run.Run.Prepare.{lookup_probe_target, attach_to_probe, flash}
use probe_run.Probe.{open_probe}
use probe_run.Startup.{analyze_vector_table, start_program}
use probe_run.Elf.Parse.{parse}
use probe_run.Elf.Symbols.{
  extract_live_functions, extract_symbols, scan_symbols, visit, by_address, by_name, reset_range,
}
use probe_run.Elf.Defmt.{extract_defmt_info}
use probe_run.Elf.VectorTable.{extract_vector_table}
use probe_run.Cortexm.{set_thumb_bit, clear_thumb_bit, is_hard_fault}
use probe_run.TargetInfo
use probe_run.TargetInfo.Compat.{armv7m, Warning, check_processor_target_compatability}
use probe_run.TargetInfo.Compat.Laws.{IsTarget, Fits, check_processor_target_compatability_lem}
use probe_run.Dep.StdPath.{StdPath, of_str}
use probe_run.Canary.{install}
use probe_run.Logs.Print.{print_logs, uses_defmt, decoder_and_encoding}
use probe_run.Backtrace.Unwind
use probe_run.Backtrace.Unwind.{round}
use probe_run.Backtrace.Unwind.Find.{find_fde}
use probe_run.Backtrace.Settings
use probe_run.Backtrace.Print
use probe_run.Backtrace.Outcome.{exit_code}
use probe_run.Registers
use probe_run.Run.Equipment.{Setup, Target}
use probe_run.Run.{Env, run_target_program}
use probe_run.Run.Logger.{timestamp_warning}
use probe_run.Run.Success.{StopsWell, run_target_program-StopsWell}
use probe_run.Logs.Print.Laws.{Reported}
use probe_run.TargetInfo.{TargetInfo}
use probe_run.Backtrace.Unwind.{Output}
use probe_run.Run.Course.{Finished}
use probe_run.Run.Laws.{run_target_program-Finished}
use probe_run.Tests.World.{World, world_core, world_host, world_signals}
use probe_run.Tests.Logging.{opts, plain, rounds}

abbrev section : Section
section = record {
  index = 1;
  address = 0;
  size = 16;
  bytes = ok (0 ∷ 1 ∷ 0 ∷ 0x20 ∷ 1 ∷ 6 ∷ 0 ∷ 0 ∷ 3 ∷ 6 ∷ 0 ∷ 0 ∷ 1 ∷ 7 ∷ 0 ∷ 0 ∷ []);
}

abbrev main_symbol : Symbol
main_symbol = record { name = ok (str "main"); section = some 1; address = 0x401; size = 8 }

-- every section is the same; there is no `_SEGGER_RTT`
abbrev file : ObjectFile
file = record { section_by_name = λ name. some section; sections = []; symbols = main_symbol ∷ [] }

abbrev crates : Crates
crates = record {
  parse_object = ok file;
  entries = λ bytes. [];
  parse_table = ok none;
  parse_table_ignore_version = ok none;
  get_locations = λ table. ok [];
}

abbrev target : Target
target = record { core_type = armv7m; memory_map = [] }

abbrev probe : DebugProbeInfo
probe = record { vendor_id = 1; product_id = 2; serial_number = none }

-- a set-up that succeeds
abbrev pub setup_of : (core : Core) → Setup core
setup_of core = record {
  exists = λ p s. true;
  add_target_from_yaml = λ p. pure tt;
  get_target_by_name = λ name. pure target;
  Probe = DebugProbeInfo;
  list_all = λ s. probe ∷ [];
  open_info = ok;
  set_speed = λ p speed. ok p;
  attach = λ p t a. pure tt;
  attach_under_reset = λ p t a. pure tt;
  erase_all = pure tt;
  download = λ p o. pure tt;
  session_memory_map = λ s. [];
  session_core = λ i. pure tt;
  read_file = λ p. pure crates;
  init_logger = λ format host_format json filter s. (false, s);
  warn_of_timestamp = λ w s. s;
}

abbrev pub setup : Setup world_core
setup = setup_of world_core

abbrev f64 : F64
f64 = record { Carrier = ℕ; from_u32 = λ n. n; div = λ a b. a; mul = λ a b. a; gt = λ a b. false }

abbrev no_symbols : Symbols
no_symbols = record {
  has_debug_info = false;
  find_frames = λ pc. none;
  symbol_at = λ pc. none;
  strip_prefix = λ p. none;
  live_functions = [];
}

abbrev pub env_of : {core : Core} (host : Host core) → (host.decoder.State → ℕ) → ℕ → Env core host
env_of host rounds unwind_fuel = record {
  profile = dev;
  ignore_version = none;
  f64 = f64;
  bold = plain;
  dimmed = plain;
  current_dir = pure tt;
  strip_prefix = λ p. none;
  symbols = λ elf. no_symbols;
  report = λ reports s. s;
  rounds = rounds;
  wait_fuel = 3;
  unwind_fuel = unwind_fuel;
}

abbrev pub env : Env world_core world_host
env = env_of world_host rounds 2

-- the core is found halted at the second and the third poll
abbrev pub world : World
world = record {
  halted = false ∷ true ∷ true ∷ [];
  input = [];
  signals = [];
  exit = false;
  handler = false;
  output = [];
  halts = 0;
}

abbrev after : World
after = record world { halted = [] }

ran : run_target_program world_host setup env [] (str "chip") opts world ≡ (ok (some 0), after)
unfolding run_target_program lookup_probe_target attach_to_probe flash open_probe
    analyze_vector_table start_program parse extract_live_functions extract_symbols scan_symbols
    visit by_address by_name reset_range extract_defmt_info extract_vector_table set_thumb_bit
    clear_thumb_bit install print_logs uses_defmt decoder_and_encoding round find_fde exit_code
    is_hard_fault TargetInfo.new Unwind.target Settings.new Print.print Registers.new
    TargetInfo.extract_active_ram_region timestamp_warning
ran = refl

run_target_program-Finished_example :
    Finished world_host world_signals setup env opts [] (str "chip") world 0 after
run_target_program-Finished_example =
    run_target_program-Finished world_host world_signals setup env opts [] (str "chip") world after
      0 ran

abbrev path : StdPath
path = of_str (str "target") ∷ of_str (str "thumbv7em-none-eabi") ∷ of_str (str "app") ∷ []

check_processor_target_compatability_lem_example :
    (w : Option Warning) × (check_processor_target_compatability armv7m path ≡ ok w)
    × ((w ≡ none) ↔ ((t : Str) → IsTarget path t → Fits armv7m t))
check_processor_target_compatability_lem_example =
    check_processor_target_compatability_lem armv7m path

run_target_program-StopsWell_example :
    (f : Finished world_host world_signals setup env opts [] (str "chip") world 0 after) × Reported
      world_host world_signals plain plain
      (λ p. none)
      rounds
      f.elf
      f.target_info.memory_map
      opts
      false
      f.supervised.waiting
      f.supervised.stop
    × StopsWell world_host world_signals setup env opts f.elf f.supervised.before f.supervised.after
        f.supervised.unwind
run_target_program-StopsWell_example =
    run_target_program-StopsWell world_host world_signals setup env opts [] (str "chip") world after
      ran
