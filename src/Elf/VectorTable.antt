-- ===== src/Elf/VectorTable.antt =====
-- `extract_vector_table` of src/elf.rs.
pub mod Laws
use probe_run.Base.{ℕ, ◌+◌, ◌*◌, ◌%◌, ◌^◌, not, ◌||◌, List, [], ◌∷◌, ◌==◌, if◌then◌else◌, length}
use probe_run.Base.Text.{str}
use probe_run.Cortexm.{VectorTable}
use probe_run.Result.{
  Result, ok, err, section_missing, section_misaligned, vector_table_short, ok_or, ◌>>=◌,
}
use probe_run.Elf.ObjectFile.{ObjectFile, Section}

-- `u32::from_le_bytes`
abbrev pub from_le_bytes : (b0 b1 b2 b3 : ℕ) → ℕ
from_le_bytes b0 b1 b2 b3 = b0 + b1 * 2 ^ 8 + b2 * 2 ^ 16 + b3 * 2 ^ 24

-- `bytes.chunks_exact(4).map(from_le_bytes)`: a last chunk that is too short is dropped
unfoldable pub le_words : List ℕ → List ℕ
le_words (b0 ∷ b1 ∷ b2 ∷ b3 ∷ rest) = from_le_bytes b0 b1 b2 b3 ∷ le_words rest
le_words _ = []

-- the first four words, of which the first and the last are kept
unfoldable pub table_of : ℕ → List ℕ → Result VectorTable
table_of len (initial_stack_pointer ∷ reset ∷ third ∷ hard_fault ∷ rest) =
    ok (record { initial_stack_pointer = initial_stack_pointer; hard_fault = hard_fault })
table_of len _ = err (vector_table_short len)

-- the checks and the parse, on the section
unfoldable pub from_section : Section → Result VectorTable
unfolding le_words table_of
from_section section =
    if not (section.size % 4 == 0) || not (section.address % 4 == 0)
    then err section_misaligned
    else (do bytes ← section.bytes; table_of (length bytes) (le_words bytes))

unfoldable pub extract_vector_table : ObjectFile → Result VectorTable
unfolding from_section
extract_vector_table elf = do
  section ← ok_or (elf.section_by_name (str ".vector_table")) section_missing
  from_section section
