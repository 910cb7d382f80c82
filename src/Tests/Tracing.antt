-- ===== src/Tests/Tracing.antt =====
-- A stack with an interrupt handler that stopped `main`, which the reset handler called.
use probe_run.Base.{ℕ, ◌≡◌, refl, arith, false, none, some, List, [], ◌∷◌}
use probe_run.Base.Int.{pos, negsuc}
use probe_run.Result.{ok}
use probe_run.U32.{dev}
use probe_run.Cortexm.{is_hard_fault, is_thumb_bit_set, clear_thumb_bit, subroutine_eq}
use probe_run.Registers.{register_and_offset, offset}
use probe_run.Elf.DebugFrame.{Fde, cie, fde, DebugFrame}
use probe_run.Backtrace.Outcome
use probe_run.Backtrace.Unwind.{Context, RawFrame, subroutine, exception, target}
use probe_run.Backtrace.Unwind.Find.{find_fde}
use probe_run.Backtrace.Unwind.Chain.{Chain, Frame, outermost, caller, interrupted}
use probe_run.Backtrace.Unwind.Chain.Complete.{target-IsComplete}
use probe_run.Tests.Device.{Memory, memory_core, set}

-- `main` pushes R7 and LR
abbrev main_entry : Fde
main_entry = record {
  initial_address = 0x400;
  len = 0x20;
  row = λ a. ok (record {
    cfa = register_and_offset 13 (pos 8);
    registers = (14, offset (negsuc 3)) ∷ (7, offset (negsuc 7)) ∷ [];
  });
}

-- neither the handler nor the reset handler uses the stack
abbrev leaf_entry : ℕ → Fde
leaf_entry address = record {
  initial_address = address;
  len = 0x20;
  row = λ a. ok (record { cfa = register_and_offset 13 (pos 0); registers = [] });
}

abbrev pub debug_frame : DebugFrame
debug_frame =
    ok cie
    ∷ ok (fde (ok main_entry))
    ∷ ok (fde (ok (leaf_entry 0x500)))
    ∷ ok (fde (ok (leaf_entry 0x600)))
    ∷ []

abbrev pub context : Context
context = record {
  profile = dev;
  vector_table = record { initial_stack_pointer = 0x2000_0100; hard_fault = 0x701 };
  debug_frame = debug_frame;
  reset_fn_start = 0x600;
  reset_fn_end = 0x620;
  active_ram_region = some (record { start = 0x2000_0000; end = 0x2000_0100 });
  stack_start = 0x2000_0100;
}

-- the stacked LR and PC of `main`, and the R7 and LR that it pushed
abbrev pub memory : Memory
memory = record {
  words =
      set (set (set (set (λ a. 0) 0x2000_0074 0x403) 0x2000_0078 0x410) 0x2000_0080 9) 0x2000_0084
        0x605;
  registers = set (set (set (λ r. 0) 15 0x502) 13 0x2000_0060) 14 0xffff_fff9;
}

handler_frame :
    Frame memory_core context memory 0x502 0x2000_0060 0xffff_fff9 0x2000_0060 0xffff_fff9
unfolding find_fde
handler_frame = record {
  entry = leaf_entry 0x500;
  row = record { cfa = register_and_offset 13 (pos 0); registers = [] };
  size = 0;
  found = refl;
  in_table = refl;
  by_sp = refl;
  top = refl;
  fits = omega arith;
  restored = refl;
}

main_frame : Frame memory_core context memory 0x410 0x2000_0080 0x403 0x2000_0088 0x605
unfolding find_fde
main_frame = record {
  entry = main_entry;
  row = record {
    cfa = register_and_offset 13 (pos 8);
    registers = (14, offset (negsuc 3)) ∷ (7, offset (negsuc 7)) ∷ [];
  };
  size = 8;
  found = refl;
  in_table = refl;
  by_sp = refl;
  top = refl;
  fits = omega arith;
  restored = (
    0x2000_0084,
    0x605,
    λ e. absurd (omega arith),
    refl,
    refl,
    (0x2000_0080, 9, λ e. absurd (omega arith), refl, refl, refl),
  );
}

reset_frame : Frame memory_core context memory 0x604 0x2000_0088 0x605 0x2000_0088 0x605
unfolding find_fde
reset_frame = record {
  entry = leaf_entry 0x600;
  row = record { cfa = register_and_offset 13 (pos 0); registers = [] };
  size = 0;
  found = refl;
  in_table = refl;
  by_sp = refl;
  top = refl;
  fits = omega arith;
  restored = refl;
}

abbrev pub frames : List RawFrame
frames = subroutine 0x502 ∷ exception ∷ subroutine 0x410 ∷ subroutine 0x604 ∷ []

pub chain : Chain memory_core context memory 0x502 0x2000_0060 0xffff_fff9 frames 0x604
unfolding is_hard_fault subroutine_eq is_thumb_bit_set clear_thumb_bit
chain =
    interrupted 0x502 0x2000_0060 0xffff_fff9 0x2000_0060 0xffff_fff9 0x410 0x403 0x604
      (subroutine 0x410 ∷ subroutine 0x604 ∷ []) handler_frame (λ e. refl) (omega arith)
      (omega arith) (omega arith) refl (omega arith) (omega arith) refl
      (caller 0x410 0x2000_0080 0x403 0x2000_0088 0x605 0x604 (subroutine 0x604 ∷ []) main_frame
        (λ e. refl) (omega arith) refl (omega arith) refl
        (outermost 0x604 0x2000_0088 0x605 0x605 reset_frame refl))

target-IsComplete_example : target memory_core context 3 memory ≡ (
  ok (
      some (record {
        corrupted = false;
        outcome = Outcome.ok;
        raw_frames = frames;
        processing_error = none;
      })),
  memory,
)
unfolding is_hard_fault
target-IsComplete_example =
    target-IsComplete memory_core context memory 3 0x502 0x2000_0060 0xffff_fff9 0x604 frames chain
      (omega arith) refl refl refl
