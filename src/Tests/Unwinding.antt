-- ===== src/Tests/Unwinding.antt =====
-- Unwinding a stack of two frames, `main` called by the reset handler.
use probe_run.Base.{ℕ, ◌≡◌, refl, subst, arith, false, none, some, [], ◌∷◌}
use probe_run.Base.Int.{pos, negsuc, ◌+ℤ◌, as_u32}
use probe_run.Result.{ok, ok-injective}
use probe_run.U32.{dev, add_offset}
use probe_run.Cortexm.{is_hard_fault, is_thumb_bit_set, clear_thumb_bit}
use probe_run.Registers
use probe_run.Registers.{Registers, register_and_offset, offset, Cache}
use probe_run.Elf.DebugFrame.{Row, cie, fde, DebugFrame}
use probe_run.Backtrace.Outcome
use probe_run.Backtrace.Unwind.{Context, Output, subroutine, unwind_core, round, row_at}
use probe_run.Backtrace.Unwind.Find.{find_fde}
use probe_run.Backtrace.Unwind.Report.{unwind_core-IsReport, IsReport, outcome_at}
use probe_run.Backtrace.Unwind.Terminates.{unwind_core-IsTotal, IsTotal}
use probe_run.Backtrace.Unwind.Terminates.Rows.{IsPlain}
use probe_run.Tests.Device.{Memory, memory_core, set}

-- `main` pushes LR and one more register
abbrev main_row : Row
main_row = record { cfa = register_and_offset 13 (pos 8); registers = (14, offset (negsuc 3)) ∷ [] }

abbrev reset_row : Row
reset_row = record { cfa = register_and_offset 13 (pos 0); registers = [] }

abbrev debug_frame : DebugFrame
debug_frame =
    ok cie
    ∷ ok (fde (ok (record { initial_address = 0x400; len = 0x20; row = λ a. ok main_row })))
    ∷ ok (fde (ok (record { initial_address = 0; len = 0x1000; row = λ a. ok main_row })))
    ∷ ok (fde (ok (record { initial_address = 0x600; len = 0x20; row = λ a. ok reset_row })))
    ∷ []

abbrev context : Context
context = record {
  profile = dev;
  vector_table = record { initial_stack_pointer = 0x2000_0100; hard_fault = 0x701 };
  debug_frame = debug_frame;
  reset_fn_start = 0x600;
  reset_fn_end = 0x620;
  active_ram_region = some (record { start = 0x2000_0000; end = 0x2000_0100 });
  stack_start = 0x2000_0100;
}

-- the word below the caller's frame holds the return address
abbrev memory : Memory
memory = record { words = set (λ a. 0) 0x2000_0084 0x605; registers = λ r. 0 }

abbrev output : Output
output = record {
  corrupted = false;
  outcome = Outcome.ok;
  raw_frames = subroutine 0x410 ∷ subroutine 0x604 ∷ [];
  processing_error = none;
}

unwound :
    unwind_core memory_core context 9 0x410 0x2000_0080 0x1 memory ≡ (ok (some output), memory)
unfolding unwind_core round is_hard_fault find_fde row_at Registers.update_cfa Registers.new
    add_offset ◌+ℤ◌ Registers.update as_u32 is_thumb_bit_set clear_thumb_bit
unwound = refl

unwind_core-IsReport_example : IsReport context 0x410 (outcome_at context 0x410 0x2000_0080) output
unwind_core-IsReport_example =
    unwind_core-IsReport memory_core context 9 0x410 0x2000_0080 0x1 memory memory output unwound

abbrev registers : Registers memory_core
registers = Registers.new {core = memory_core} 0x1 0x2000_0080 memory

row-IsPlain : (addr : ℕ) (row : Row) → ok main_row ≡ ok row → IsPlain 0x2000_0100 row
row-IsPlain addr row e =
    subst (IsPlain 0x2000_0100) (ok-injective e)
      (8, refl, omega arith, ((λ h. absurd (omega arith), tt)), λ z. absurd (omega arith))

reset_row-IsPlain : (addr : ℕ) (row : Row) → ok reset_row ≡ ok row → IsPlain 0x2000_0100 row
reset_row-IsPlain addr row e =
    subst (IsPlain 0x2000_0100) (ok-injective e) (0, refl, omega arith, tt, λ z. tt)

unwind_core-IsTotal_example :
    IsTotal context 0x410 0x2000_0080
      (unwind_core memory_core context 260 0x410 0x2000_0080 0x1 memory)
unwind_core-IsTotal_example =
    unwind_core-IsTotal memory_core context 0x2000_0100 260 0x410 0x2000_0080 0x1 memory
      (omega arith) (omega arith) (tt, (row-IsPlain, (row-IsPlain, (reset_row-IsPlain, tt))))
      (omega arith)
