-- ===== src/Elf/VectorTable/Laws.antt =====
-- What `extract_vector_table` of src/elf.rs makes of the section's bytes.
use probe_run.Base.{ℕ, ◌*◌, ◌/◌, ◌%◌, ◌<◌, ◌≡◌, refl, ap₂, List, [], ◌∷◌, some, arith, All, length}
use probe_run.Base.Text.{str}
use probe_run.U32.{u32_mod}
use probe_run.Cortexm.{VectorTable}
use probe_run.Result.{Result, ok, err, vector_table_short}
use probe_run.Elf.ObjectFile.{ObjectFile, Section}
use probe_run.Elf.VectorTable.{le_words, table_of, extract_vector_table}

-- words as the linker writes them, lowest byte first
abbrev pub encode : List ℕ → List ℕ
encode [] = []
encode (w ∷ ws) = w % 256 ∷ w / 256 % 256 ∷ w / 65536 % 256 ∷ w / 16777216 % 256 ∷ encode ws

abbrev pub IsWord : ℕ → Type 0
IsWord w = w < u32_mod

le_words-encode : (ws : List ℕ) → All IsWord ws → le_words (encode ws) ≡ ws
unfolding le_words
le_words-encode [] h = refl
le_words-encode (w ∷ ws) (small, rest) = ap₂ (λ a b. a ∷ b) (omega arith) (le_words-encode ws rest)

length-encode : (ws : List ℕ) → length (encode ws) ≡ 4 * length ws
length-encode [] = omega arith
length-encode (w ∷ ws) = omega (arith, length-encode ws)

-- The table that is read back from the section's words, or the error.
abbrev pub expected : List ℕ → Result VectorTable
expected (isp ∷ reset ∷ third ∷ hard_fault ∷ rest) =
    ok (record { initial_stack_pointer = isp; hard_fault = hard_fault })
expected ws = err (vector_table_short (4 * length ws))

table_of-expected : (ws : List ℕ) → table_of (4 * length ws) ws ≡ expected ws
unfolding table_of
table_of-expected [] = refl
table_of-expected (a ∷ []) = refl
table_of-expected (a ∷ b ∷ []) = refl
table_of-expected (a ∷ b ∷ c ∷ []) = refl
table_of-expected (a ∷ b ∷ c ∷ d ∷ rest) = refl

-- A word-aligned section that holds 32-bit words in little endian order yields its first word as
-- the initial stack pointer and its fourth as the HardFault handler, or the error with its length
-- in bytes if it has fewer than four words.
pub extract_vector_table-encode :
    (elf : ObjectFile) (section : Section) (ws : List ℕ)
    → All IsWord ws
    → elf.section_by_name (str ".vector_table") ≡ some section
    → section.address % 4 ≡ 0
    → section.size % 4 ≡ 0
    → section.bytes ≡ ok (encode ws)
    → extract_vector_table elf ≡ expected ws
unfolding extract_vector_table
extract_vector_table-encode elf section ws small found address size bytes = rw found (
    rw size (
      rw address
        (rw bytes (rw (length-encode ws) (rw (le_words-encode ws small) (table_of-expected ws))))))
