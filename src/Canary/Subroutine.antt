-- ===== src/Canary/Subroutine.antt =====
-- The two subroutines of src/canary.rs that run on the target, and how they are placed and started.
pub mod Laws
pub mod Words
pub mod Match
pub mod Search
pub mod Paint
use probe_run.Base.{
  ℕ, suc, ◌/◌, ◌%◌, Bool, true, false, not, Option, none, some, List, [], ◌∷◌, ◌==◌, length,
  replicate, if◌then◌else◌,
}
use probe_run.Result
use probe_run.Result.{Result, ok, panic, expectation}
use probe_run.U32.{Profile, add_u32}
use probe_run.Exec.{Exec, pure, lift, ◌>>=◌, ◌>>◌}
use probe_run.Core.{Core}
use probe_run.Registers.{pc_reg}

abbrev pub canary_u8 : ℕ
canary_u8 = 0xaa

abbrev pub canary_u32 : ℕ
canary_u32 = 0xaaaa_aaaa

-- `TIMEOUT`, in milliseconds
abbrev pub timeout : ℕ
timeout = 1000

abbrev pub paint_code : List ℕ
paint_code = 0x88 ∷ 0x42 ∷ 0x01 ∷ 0xd8 ∷ 0x04 ∷ 0xc0 ∷ 0xfb ∷ 0xe7 ∷ 0x00 ∷ 0xbe ∷ 0x00 ∷ 0xbe ∷ []

abbrev pub measure_code : List ℕ
measure_code =
    0x88 ∷ 0x42 ∷ 0x04 ∷ 0xd2 ∷ 0x03 ∷ 0x68 ∷ 0x93 ∷ 0x42 ∷ 0x02 ∷ 0xd1 ∷ 0x00 ∷ 0x1d ∷ 0xf8 ∷ 0xe7
    ∷ 0x00 ∷ 0x20 ∷ 0x00 ∷ 0xbe ∷ 0x00 ∷ 0xbe ∷ []

abbrev pub paint_size : ℕ
paint_size = length paint_code

abbrev pub measure_size : ℕ
measure_size = length measure_code

-- `position(|b| b != CANARY_U8)`
unfoldable pub position : List ℕ → Option ℕ
position [] = none
position (b ∷ rest) =
    let later = position rest in
    if not (b == canary_u8) then some 0 else elim later [ none ↦ none | some n ↦ some (suc n) ]

unfoldable pub to_le_bytes : ℕ → List ℕ
to_le_bytes w = w % 256 ∷ w / 256 % 256 ∷ w / 65536 % 256 ∷ w / 16777216 % 256 ∷ []

module _ (core : Core) (profile : Profile) where
  unfoldable pub execute_subroutine :
      (low_addr stack_size : ℕ) → List ℕ → Exec core.State (Unit {0})
  execute_subroutine low_addr stack_size subroutine = do
    high_addr ← lift (add_u32 profile low_addr stack_size)
    first ← lift (add_u32 profile low_addr (length subroutine))
    core.write_core_reg 0 first
    core.write_core_reg 1 high_addr
    core.write_core_reg 2 canary_u32
    core.write_8 low_addr subroutine
    previous_pc ← core.read_core_reg pc_reg
    core.write_core_reg pc_reg low_addr
    core.run
    core.wait_for_core_halted timeout
    core.write_core_reg pc_reg previous_pc

  unfoldable pub overwrite_subroutine : ℕ → Exec core.State (Unit {0})
  overwrite_subroutine low_addr = core.write_8 low_addr (replicate paint_size canary_u8)

  unfoldable pub paint : (low_addr stack_size : ℕ) → Exec core.State (Unit {0})
  unfolding execute_subroutine overwrite_subroutine
  paint low_addr stack_size =
      execute_subroutine low_addr stack_size paint_code >> overwrite_subroutine low_addr

  -- the address of a byte that `position` finds
  abbrev pub touched_at : ℕ → Option ℕ → Result (Option ℕ)
  touched_at base none = ok none
  touched_at base (some pos) = Result.◌>>=◌ (add_u32 profile base pos) (λ a. ok (some a))

  unfoldable pub search_with_probe : ℕ → Exec core.State (Option ℕ)
  unfolding position
  search_with_probe low_addr = do
    buf ← core.read_8 low_addr measure_size
    lift (touched_at low_addr (position buf))

  -- the `expect` on the position in a word
  abbrev pub expect_touched : ℕ → Option ℕ → Result (Option ℕ)
  expect_touched word_addr none = panic expectation
  expect_touched word_addr (some offset) = touched_at word_addr (some offset)

  unfoldable pub get_result : Exec core.State (Option ℕ)
  unfolding position to_le_bytes
  get_result = do
    word_addr ← core.read_core_reg 0
    if word_addr == 0 then pure none else (do
      word ← core.read_word_32 word_addr
      lift (expect_touched word_addr (position (to_le_bytes word))))

  -- what is done after the search with the probe
  unfoldable pub run_measure : (low_addr stack_size : ℕ) → Option ℕ → Exec core.State (Option ℕ)
  unfolding execute_subroutine get_result
  run_measure low_addr stack_size (some addr) = pure (some addr)
  run_measure low_addr stack_size none =
      execute_subroutine low_addr stack_size measure_code >> get_result

  unfoldable pub measure : (low_addr stack_size : ℕ) → Exec core.State (Option ℕ)
  unfolding search_with_probe run_measure
  measure low_addr stack_size = search_with_probe low_addr >>= run_measure low_addr stack_size
