-- ===== src/Tests/Image.antt =====
-- The contents of a firmware image at concrete inputs.
use probe_run.Base.{ℕ, ◌≡◌, ◌↔◌, refl, true, none, some, List, [], ◌∷◌, arith, any, if◌then◌else◌}
use probe_run.Base.Int.{pos}
use probe_run.Base.Text.{Str, str, str_eq}
use probe_run.Result.{ok}
use probe_run.U32.{dev, add_u32}
use probe_run.Cortexm.{clear_thumb_bit}
use probe_run.Registers.{register_and_offset}
use probe_run.Elf.ObjectFile.{ObjectFile, Section, Symbol}
use probe_run.Elf.DebugFrame.{Fde, cie, fde, DebugFrame}
use probe_run.Elf.VectorTable.{extract_vector_table}
use probe_run.Elf.VectorTable.Laws.{encode, expected, extract_vector_table-encode}
use probe_run.Elf.Symbols.{
  Symbols, extract_symbols, is_heap_symbol, scan_symbols, visit, by_address, by_name, reset_range,
}
use probe_run.Elf.Symbols.Laws.{extract_symbols_lem}
use probe_run.Elf.Symbols.Visit.{clear_all, last_named, named}
use probe_run.Backtrace.Unwind.Find.{find_fde}
use probe_run.Backtrace.Unwind.Find.Laws.{find_fde_iff, IsOnly}

abbrev words : List ℕ
words = 0x2000_1000 ∷ 0x601 ∷ 0x603 ∷ 0x701 ∷ 0x603 ∷ []

abbrev vectors : Section
vectors = record { index = 1; address = 0; size = 20; bytes = ok (encode words) }

abbrev symbol : Str → ℕ → ℕ → Symbol
symbol name address size = record {
  name = ok name;
  section = some 2;
  address = address;
  size = size;
}

abbrev image : ObjectFile
image = record {
  section_by_name = λ name. if str_eq name (str ".vector_table") then some vectors else none;
  sections = vectors ∷ [];
  symbols =
      symbol (str "Reset") 0x601 0x20
      ∷ symbol (str "main") 0x401 0x20
      ∷ symbol (str "malloc") 0x501 8
      ∷ symbol (str "_SEGGER_RTT") 0x2000_0040 48
      ∷ [];
}

extract_vector_table-encode_example : extract_vector_table image ≡ expected words
extract_vector_table-encode_example =
    extract_vector_table-encode image vectors words
      (omega arith, (omega arith, (omega arith, (omega arith, (omega arith, tt))))) refl refl refl
      refl

abbrev symbols : Symbols
symbols = record {
  main_fn_address = 0x400;
  program_uses_heap = true;
  reset_fn_start = 0x601;
  reset_fn_end = 0x621;
  rtt_buffer_address = some 0x2000_0040;
}

extracted : extract_symbols dev image 0x601 ≡ ok symbols
unfolding extract_symbols scan_symbols visit by_address by_name reset_range add_u32 clear_thumb_bit
extracted = refl

extract_symbols_lem_example :
    (clear_all (last_named (str "main") image.symbols) ≡ some symbols.main_fn_address)
    × (symbols.rtt_buffer_address ≡ last_named (str "_SEGGER_RTT") image.symbols)
    × (symbols.program_uses_heap ≡ any (named is_heap_symbol) image.symbols)
extract_symbols_lem_example = extract_symbols_lem dev image 0x601 symbols extracted

abbrev entry_at : ℕ → ℕ → Fde
entry_at start len = record {
  initial_address = start;
  len = len;
  row = λ a. ok (record { cfa = register_and_offset 13 (pos 0); registers = [] });
}

-- dead code at address 0, and the two functions of the image
abbrev debug_frame : DebugFrame
debug_frame =
    ok cie
    ∷ ok (fde (ok (entry_at 0 0x800)))
    ∷ ok (fde (ok (entry_at 0x400 0x20)))
    ∷ ok (fde (ok (entry_at 0x600 0x20)))
    ∷ []

find_fde_iff_example :
    (find_fde debug_frame 0x410 ≡ ok (entry_at 0x400 0x20))
    ↔ IsOnly 0x410 debug_frame (entry_at 0x400 0x20)
find_fde_iff_example = find_fde_iff 0x410 debug_frame (entry_at 0x400 0x20)
