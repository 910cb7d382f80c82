-- ===== src/Tests/Searching.antt =====
-- The canary is measured on a core that runs the machine code.
use probe_run.Base.{ℕ, ◌*◌, ◌≡◌, ap₂, refl, some, true, false, ◌==◌, if◌then◌else◌, arith}
use probe_run.Result.{ok}
use probe_run.U32.{dev, add_u32, sub_u32}
use probe_run.TargetInfo.{StackInfo}
use probe_run.Canary.{measure}
use probe_run.Canary.Subroutine
use probe_run.Canary.Subroutine.{canary_u8, canary_u32, measure_code}
use probe_run.Canary.Subroutine.Words.{IsMemory, first_touched}
use probe_run.Canary.Subroutine.Words.{measured as words_searched}
use probe_run.Canary.Laws.{canary_of}
use probe_run.Canary.Likely.{used, measure-likely}
use probe_run.Canary.Thumb.{Machine, run, write_bytes}
use probe_run.Canary.Thumb.Step.{machine, write_bytes-inside}
use probe_run.Canary.Thumb.Measure.{measure_fn, measure_code-IsMeasure}
use probe_run.Canary.Thumb.Measured.{measure-touched}
use probe_run.Tests.Machine.{thumb_core, view, thumb_core-IsThumb}
use probe_run.Tests.Memory.{fractions}
use probe_run.Canary.Float.{IsRounded, IsVerdict}

-- one byte behind the place of the code is touched
abbrev memory : ℕ → ℕ
memory x = if x == 0x2000_0019 then 0x55 else canary_u8

memory-IsMemory : IsMemory memory
memory-IsMemory x = ground arith

abbrev before : Machine
before = machine 1 2 3 4 0x400 false false memory

-- 20 bytes and three words
abbrev info : StackInfo
info = record { lowest = 0x2000_0000; highest = 0x2000_0020; data_below_stack = false }

measured :
    Subroutine.measure thumb_core dev 0x2000_0000 32 before
    ≡ (ok (some 0x2000_0019), (Subroutine.measure thumb_core dev 0x2000_0000 32 before).1)
unfolding Subroutine.measure run add_u32
measured = refl

measure-touched_example : some 0x2000_0019 ≡ first_touched memory 0x2000_0000 32
measure-touched_example =
    measure-touched thumb_core view thumb_core-IsThumb dev 0x2000_0000 3 32 (omega arith)
      (omega arith) (omega arith) before (Subroutine.measure thumb_core dev 0x2000_0000 32 before).1
      (some 0x2000_0019) memory-IsMemory measured

judged :
    measure thumb_core dev fractions 0x2000_0024 (canary_of fractions info) before
    ≡ (ok false, (measure thumb_core dev fractions 0x2000_0024 (canary_of fractions info) before).1)
unfolding measure Subroutine.measure run add_u32 sub_u32
judged = refl

-- fractions are exact
fractions-IsRounded : IsRounded fractions
fractions-IsRounded = record {
  Near = λ x p q k. (x.0 ≡ p) × (x.1 ≡ q);
  integer = λ n small. (refl, refl);
  quotient = λ x y p q j r t k (a, b) (c, d) pos few. (ap₂ ◌*◌ a d, ap₂ ◌*◌ b c);
  product = λ x y p q j r t k (a, b) (c, d) few. (ap₂ ◌*◌ a c, ap₂ ◌*◌ b d);
  above = λ x y p q j r t k (a, b) (c, d) few small more. rw (a, b, c, d) (ground arith);
  below = λ x y p q j r t k (a, b) (c, d) few small less. rw (a, b, c, d) (ground arith);
}

measure-likely_example : IsVerdict (used 0x2000_0024 (first_touched memory 0x2000_0000 32)) 32 false
measure-likely_example =
    measure-likely fractions thumb_core view dev info 0x2000_0024 3 before
      (measure thumb_core dev fractions 0x2000_0024 (canary_of fractions info) before).1 false
      fractions-IsRounded thumb_core-IsThumb memory-IsMemory (omega arith) (omega arith)
      (omega arith) (omega arith) judged

-- the code in place
abbrev loaded : ℕ → ℕ
loaded = write_bytes 0x2000_0000 measure_code memory

measure_code-IsMeasure_example :
    (m : Machine) × (run 28
        (machine 0x2000_0014 0x2000_0020 canary_u32 9 0x2000_0000 false true loaded)
      ≡ some m)
    × (measure_fn 4 0x2000_0014 0x2000_0020 canary_u32 loaded ≡ some m.r0)
    × (m.r0 ≡ words_searched loaded 0x2000_0014 3)
    × (m.memory ≡ loaded)
measure_code-IsMeasure_example =
    measure_code-IsMeasure 0x2000_0000 0x2000_0014 0x2000_0020 3 9 false true loaded
      (λ k small. write_bytes-inside 0x2000_0000 measure_code memory k small) (omega arith)
      (omega arith) (omega arith)
