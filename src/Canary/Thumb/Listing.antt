-- ===== src/Canary/Thumb/Listing.antt =====
-- The two listings of src/canary.rs, without the padding, and how bytes are read as instructions.
use probe_run.Base.{ℕ, ◌+◌, ◌-◌, ◌*◌, Option, List, [], ◌∷◌}
use probe_run.U32.{u32_mod}
use probe_run.Canary.Thumb.{
  r0, r1, r2, r3, hi, cs, ne, Instruction, cmp, branch_if, branch, stmia, ldr, adds, movs, bkpt,
  decode,
}

abbrev pub paint_listing : List Instruction
paint_listing = cmp r0 r1 ∷ branch_if hi 6 ∷ stmia r0 r2 ∷ branch (u32_mod - 6) ∷ bkpt ∷ bkpt ∷ []

-- The last branch goes to the start, as the listing's label says; its number there is -8.
abbrev pub measure_listing : List Instruction
measure_listing =
    cmp r0 r1
    ∷ branch_if cs 12
    ∷ ldr r3 r0
    ∷ cmp r3 r2
    ∷ branch_if ne 8
    ∷ adds r0 r0 4
    ∷ branch (u32_mod - 12)
    ∷ movs r0 0
    ∷ bkpt
    ∷ bkpt
    ∷ []

-- two bytes to an instruction
unfoldable pub disassemble : List ℕ → List (Option Instruction)
unfolding decode
disassemble [] = []
disassemble (low ∷ []) = []
disassemble (low ∷ high ∷ rest) = decode (low + high * 256) ∷ disassemble rest
