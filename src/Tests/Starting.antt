-- ===== src/Tests/Starting.antt =====
-- The start-up at concrete inputs.
use probe_run.Base.{ℕ, zero, suc, ◌+◌, ◌-◌, ◌%◌, ◌≡◌, ◌↔◌, refl, some, arith}
use probe_run.Result.{ok, external}
use probe_run.U32.{dev}
use probe_run.Exec.{◌>>◌, pure, fail}
use probe_run.Core.{Core}
use probe_run.Startup.{
  start_program, Attach, attached, not_found, setup_logging_channel, num_retries,
}
use probe_run.Startup.Laws.{
  Refuses, start_program-blocking, setup_logging_channel_iff, AttachesWithin,
}
use probe_run.Tests.Device.{Memory, memory_core, set}

-- the flags word has the mode 0 and two other bits set
abbrev memory : Memory
memory = record { words = set (λ a. 0) 0x2000_002c 0x30; registers = λ r. 0 }

start_program-blocking_example :
    start_program memory_core dev 0x400 (some 0x2000_0000) 0x601 memory
    ≡ ((memory_core.write_word_32 (0x2000_0000 + 44) (0x30 - 0x30 % 4 + 2)
            >> memory_core.clear_hw_breakpoint 0x400)
          >> (memory_core.set_hw_breakpoint (0x601 - 0x601 % 2) >> memory_core.run))
        memory
start_program-blocking_example =
    start_program-blocking memory_core dev 0x400 0x2000_0000 0x601 4 0x30 memory memory memory
      memory memory memory (omega arith) (omega arith) (omega arith) (omega arith) refl refl refl
      refl refl

-- without breakpoint units
abbrev no_units : Core
no_units = record memory_core {
  available_breakpoint_units = pure 0;
  set_hw_breakpoint = λ a. fail (external 1);
}

no_units-Refuses : Refuses no_units
no_units-Refuses a s = (external 1, s, refl)

-- a target that is ready after a number of attempts
abbrev countdown : ℕ → Attach ℕ × ℕ
countdown zero = (attached (some 7), 0)
countdown (suc n) = (not_found, n)

setup_logging_channel_iff_example :
    (setup_logging_channel countdown 3 ≡ (ok 7, 0)) ↔ AttachesWithin countdown num_retries 3 7 0
setup_logging_channel_iff_example = setup_logging_channel_iff countdown 3 0 7
