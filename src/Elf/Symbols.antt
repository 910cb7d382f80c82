-- ===== src/Elf/Symbols.antt =====
-- `extract_symbols` and `extract_live_functions` of src/elf.rs.
pub mod Visit
pub mod Laws
use probe_run.Base.{
  ℕ, Bool, true, false, not, ◌&&◌, ◌||◌, Option, none, some, List, [], ◌∷◌, ◌++◌, ltb, ◌==◌,
  if◌then◌else◌,
}
use probe_run.Base.Text.{Str, str, str_eq}
use probe_run.Cortexm.{clear_thumb_bit}
use probe_run.Result.{Result, ok, panic, expectation, section_missing, main_missing, ok_or, ◌>>=◌}
use probe_run.U32.{Profile, add_u32, u32_mod}
use probe_run.Elf.ObjectFile.{ObjectFile, Symbol}

pub record Symbols : Type 0 where
  pub main_fn_address : ℕ
  pub program_uses_heap : Bool
  -- a half-open range
  pub reset_fn_start : ℕ
  pub reset_fn_end : ℕ
  pub rtt_buffer_address : Option ℕ

-- the variables of the loop over the symbols
pub record Scan : Type 0 where
  pub main_fn_address : Option ℕ
  pub program_uses_heap : Bool
  pub reset_symbols : List Symbol
  pub rtt_buffer_address : Option ℕ

abbrev pub start : Scan
start = record {
  main_fn_address = none;
  program_uses_heap = false;
  reset_symbols = [];
  rtt_buffer_address = none;
}

-- `try_into().expect("expected 32-bit ELF")`
unfoldable pub expect_u32 : ℕ → Result ℕ
expect_u32 x = if ltb x u32_mod then ok x else panic expectation

abbrev pub is_heap_symbol : Str → Bool
is_heap_symbol name =
    str_eq name (str "__rust_alloc")
    || str_eq name (str "__rg_alloc")
    || str_eq name (str "__rdl_alloc")
    || str_eq name (str "malloc")

-- the `match name`
unfoldable pub by_name : Str → ℕ → Scan → Scan
by_name name address scan =
    if str_eq name (str "main")
    then record scan { main_fn_address = some (clear_thumb_bit address) }
    else if str_eq name (str "_SEGGER_RTT")
    then record scan { rtt_buffer_address = some address }
    else if is_heap_symbol name && not scan.program_uses_heap
    then record scan { program_uses_heap = true }
    else scan

unfoldable pub by_address : ℕ → Symbol → ℕ → Scan → Scan
by_address reset_fn_address symbol address scan =
    if address == reset_fn_address && not (symbol.size == 0)
    then record scan { reset_symbols = scan.reset_symbols ++ symbol ∷ [] }
    else scan

-- one round of the loop, by the symbol's name; a symbol with no readable name is passed over
unfoldable pub visit_named : ℕ → Symbol → Scan → Result Str → Result Scan
unfolding expect_u32
visit_named reset_fn_address symbol scan (ok name) = do
  address ← expect_u32 symbol.address
  ok (by_address reset_fn_address symbol address (by_name name address scan))
visit_named reset_fn_address symbol scan _ = ok scan

unfoldable pub visit : ℕ → Symbol → Scan → Result Scan
unfolding visit_named
visit reset_fn_address symbol scan = visit_named reset_fn_address symbol scan symbol.name

unfoldable pub scan_symbols : ℕ → List Symbol → Scan → Result Scan
scan_symbols reset_fn_address [] scan = ok scan
scan_symbols reset_fn_address (symbol ∷ rest) scan = do
  next ← visit reset_fn_address symbol scan
  scan_symbols reset_fn_address rest next

-- the range of the reset handler: known only if exactly one symbol fits
unfoldable pub reset_range : Profile → ℕ → List Symbol → Result (ℕ × ℕ)
reset_range profile reset_fn_address (reset ∷ []) = do
  addr ← expect_u32 reset.address
  size ← expect_u32 reset.size
  end ← add_u32 profile addr size
  ok (addr, end)
reset_range profile reset_fn_address _ = ok (reset_fn_address, reset_fn_address)

unfoldable pub extract_symbols : Profile → ObjectFile → ℕ → Result Symbols
extract_symbols profile elf reset_fn_address = do
  scan ← scan_symbols reset_fn_address elf.symbols start
  main ← ok_or scan.main_fn_address main_missing
  range ← reset_range profile reset_fn_address scan.reset_symbols
  ok (record {
    main_fn_address = main;
    program_uses_heap = scan.program_uses_heap;
    reset_fn_start = range.0;
    reset_fn_end = range.1;
    rtt_buffer_address = scan.rtt_buffer_address;
  })

-- the names of the symbols that stand in the `.text` section; a set, here as a list
unfoldable pub names_in : ℕ → List Symbol → Result (List Str)
names_in text [] = ok []
names_in text (symbol ∷ rest) =
    let later = names_in text rest in
    elim symbol.section [
      | none ↦ later
      | some i ↦
          if i == text then (do name ← symbol.name; names ← later; ok (name ∷ names)) else later
    ]

unfoldable pub extract_live_functions : ObjectFile → Result (List Str)
unfolding names_in
extract_live_functions elf = do
  text ← ok_or (elf.section_by_name (str ".text")) section_missing
  names_in text.index elf.symbols
