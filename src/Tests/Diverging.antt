-- ===== src/Tests/Diverging.antt =====
-- Two frames that are the callers of each other.
use probe_run.Base.{◌≡◌, refl, arith, none, some, [], ◌∷◌}
use probe_run.Result.{ok}
use probe_run.U32.{dev}
use probe_run.Cortexm.{is_hard_fault, is_thumb_bit_set, clear_thumb_bit, subroutine_eq}
use probe_run.Elf.DebugFrame.{Fde, fde}
use probe_run.Backtrace.Unwind.{Context, unwind_core}
use probe_run.Backtrace.Unwind.Find.{find_fde}
use probe_run.Backtrace.Unwind.Diverges.{frame_row, Frame, unwind_core_diverges}
use probe_run.Tests.Device.{Memory, memory_core, set}

-- code that keeps a frame pointer
abbrev entry : Fde
entry = record { initial_address = 0x400; len = 0x100; row = λ a. ok frame_row }

abbrev context : Context
context = record {
  profile = dev;
  vector_table = record { initial_stack_pointer = 0x2000_1000; hard_fault = 0x701 };
  debug_frame = ok (fde (ok entry)) ∷ [];
  reset_fn_start = 0x600;
  reset_fn_end = 0x620;
  active_ram_region = some (record { start = 0x2000_0000; end = 0x2000_1000 });
  stack_start = 0x2000_1000;
}

-- the frames at 0x2000_0100 and 0x2000_0200
abbrev memory : Memory
memory = record {
  words =
      set
        (set (set (set (λ a. 0) 0x2000_0100 0x2000_0200) 0x2000_0104 0x481) 0x2000_0200 0x2000_0100)
        0x2000_0204 0x411;
  registers = λ r. 0x2000_0100;
}

lower : Frame memory_core context memory 0x410 0x2000_0100 0x481 0x2000_0200
unfolding find_fde is_hard_fault is_thumb_bit_set subroutine_eq
lower = record {
  entry = entry;
  found = refl;
  row = refl;
  no_fault = refl;
  saved_fp = refl;
  saved_lr = refl;
  inside = omega arith;
  fits = omega arith;
  thumb = refl;
  no_exception = omega arith;
  moved = refl;
}

upper : Frame memory_core context memory 0x480 0x2000_0200 0x411 0x2000_0100
unfolding find_fde is_hard_fault is_thumb_bit_set subroutine_eq
upper = record {
  entry = entry;
  found = refl;
  row = refl;
  no_fault = refl;
  saved_fp = refl;
  saved_lr = refl;
  inside = omega arith;
  fits = omega arith;
  thumb = refl;
  no_exception = omega arith;
  moved = refl;
}

to_upper : clear_thumb_bit 0x481 ≡ 0x480
unfolding clear_thumb_bit
to_upper = refl

to_lower : clear_thumb_bit 0x411 ≡ 0x410
unfolding clear_thumb_bit
to_lower = refl

unwind_core_diverges_example :
    (unwind_core memory_core context 1000 0x410 0x2000_00f0 0x481 memory).0 ≡ ok none
unwind_core_diverges_example =
    unwind_core_diverges memory_core context memory 0x410 0x2000_0100 0x481 0x480 0x2000_0200 0x411
      to_upper to_lower lower upper 1000 0x2000_00f0 0x481 refl
