-- ===== src/Elf/Parse.antt =====
-- `Elf::parse` of src/elf.rs.
use probe_run.Base.{ℕ, Bool, Option, List}
use probe_run.Base.Text.{Str, str}
use probe_run.Cortexm.{VectorTable}
use probe_run.Result.{Result, ok, section_missing, ok_or, ◌>>=◌}
use probe_run.U32.{Profile}
use probe_run.Elf.ObjectFile.{ObjectFile}
use probe_run.Elf.DebugFrame.{DebugFrame}
use probe_run.Elf.VectorTable.{extract_vector_table}
use probe_run.Elf.Symbols.{Symbols, extract_symbols, extract_live_functions}
use probe_run.Elf.Defmt.{Table, Locations, extract_defmt_info}

pub record Elf : Type 0 where
  pub elf : ObjectFile
  pub symbols : Symbols
  pub debug_frame : DebugFrame
  pub defmt_locations : Option Locations
  pub defmt_table : Option Table
  pub live_functions : List Str
  pub vector_table : VectorTable

-- What the `object`, `gimli` and `defmt_decoder` crates make of the bytes of the file.
pub record Crates : Type 0 where
  pub parse_object : Result ObjectFile
  pub entries : List ℕ → DebugFrame
  pub parse_table : Result (Option Table)
  pub parse_table_ignore_version : Result (Option Table)
  pub get_locations : Table → Result Locations

module _ (crates : Crates) where
  unfoldable pub extract_debug_frame : ObjectFile → Result DebugFrame
  extract_debug_frame elf = do
    section ← ok_or (elf.section_by_name (str ".debug_frame")) section_missing
    bytes ← section.bytes
    ok (crates.entries bytes)

  -- `variable` is the value of `PROBE_RUN_IGNORE_VERSION`.
  unfoldable pub parse : Profile → (variable : Option Str) → (reset_fn_address : ℕ) → Result Elf
  unfolding extract_debug_frame
  parse profile variable reset_fn_address = do
    elf ← crates.parse_object
    live_functions ← extract_live_functions elf
    info ←
        extract_defmt_info crates.parse_table crates.parse_table_ignore_version crates.get_locations
          variable
    vector_table ← extract_vector_table elf
    debug_frame ← extract_debug_frame elf
    symbols ← extract_symbols profile elf reset_fn_address
    ok (record {
      elf = elf;
      symbols = symbols;
      debug_frame = debug_frame;
      defmt_locations = info.1;
      defmt_table = info.0;
      live_functions = live_functions;
      vector_table = vector_table;
    })

abbrev pub rtt_buffer_address : Elf → Option ℕ
rtt_buffer_address elf = elf.symbols.rtt_buffer_address

abbrev pub main_fn_address : Elf → ℕ
main_fn_address elf = elf.symbols.main_fn_address

abbrev pub program_uses_heap : Elf → Bool
program_uses_heap elf = elf.symbols.program_uses_heap

abbrev pub reset_fn_range : Elf → ℕ × ℕ
reset_fn_range elf = (elf.symbols.reset_fn_start, elf.symbols.reset_fn_end)
