-- ===== src/Tests/Painting.antt =====
-- The canary is installed on a core that runs the machine code.
use probe_run.Base.{ℕ, ◌<◌, ◌≤◌, ◌⊎◌, ◌≡◌, refl, some, true, false, arith}
use probe_run.Result.{ok}
use probe_run.U32.{dev, add_u32, sub_u32}
use probe_run.TargetInfo.{StackInfo}
use probe_run.Canary.{install}
use probe_run.Canary.Subroutine
use probe_run.Canary.Subroutine.{canary_u8, canary_u32, paint_code}
use probe_run.Canary.Laws.{canary_of}
use probe_run.Canary.Installed.{Placed, install-IsPainted}
use probe_run.Canary.Thumb.{Machine, run, write_bytes}
use probe_run.Canary.Thumb.Step.{machine, write_bytes-inside}
use probe_run.Canary.Thumb.Paint.{paint_fn, paint_code-IsPaint}
use probe_run.Canary.Thumb.Painted.{IsPainted}
use probe_run.Tests.Machine.{thumb_core, view, thumb_core-IsThumb}
use probe_run.Tests.Memory.{fractions}

abbrev memory : ℕ → ℕ
memory x = 0

abbrev before : Machine
before = machine 1 2 3 4 0x400 false false memory

abbrev info : StackInfo
info = record { lowest = 0x2000_0000; highest = 0x2000_0018; data_below_stack = false }

abbrev after : Machine
after = (install thumb_core dev fractions false (some info) before).1

installed :
    install thumb_core dev fractions false (some info) before
    ≡ (ok (some (canary_of fractions info)), after)
unfolding install Subroutine.paint run add_u32 sub_u32
installed = refl

install-IsPainted_example :
    Placed fractions dev false info (canary_of fractions info)
    × IsPainted 0x2000_0000 24 memory after.memory
install-IsPainted_example =
    install-IsPainted fractions dev false info thumb_core view (canary_of fractions info) before
      after thumb_core-IsThumb (omega arith) (omega arith) installed

-- the code in place
abbrev loaded : ℕ → ℕ
loaded = write_bytes 0x2000_0000 paint_code memory

paint_code-IsPaint_example :
    (m : Machine) × (run 15
        (machine 0x2000_000c 0x2000_0010 canary_u32 9 0x2000_0000 false true loaded)
      ≡ some m)
    × (paint_fn 3 0x2000_000c 0x2000_0010 canary_u32 loaded ≡ some m.memory)
    × ((y : ℕ) → 0x2000_000c ≤ y → y < 0x2000_0014 → m.memory y ≡ canary_u8)
    × ((y : ℕ) → (y < 0x2000_000c) ⊎ (0x2000_0014 ≤ y) → m.memory y ≡ loaded y)
paint_code-IsPaint_example =
    paint_code-IsPaint 0x2000_0000 0x2000_000c 0x2000_0010 2 9 false true loaded
      (λ k small. write_bytes-inside 0x2000_0000 paint_code memory k small) (omega arith)
      (omega arith) (omega arith)
