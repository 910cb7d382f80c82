-- ===== src/Tests/Device.antt =====
-- A core for the tests: memory by word address and registers by number. It runs nothing.
use probe_run.Base.{ℕ, zero, suc, ◌+◌, ◌/◌, ◌%◌, ◌*◌, true, List, [], ◌∷◌, ◌==◌, if◌then◌else◌}
use probe_run.Result.{ok}
use probe_run.Exec.{Exec, pure}
use probe_run.Core.{Core}

pub record Memory : Type 0 where
  pub words : ℕ → ℕ
  pub registers : ℕ → ℕ

abbrev pub set : (ℕ → ℕ) → ℕ → ℕ → ℕ → ℕ
set f i v j = if j == i then v else f j

abbrev words_from : Memory → ℕ → ℕ → List ℕ
words_from m addr zero = []
words_from m addr (suc n) = m.words addr ∷ words_from m (addr + 4) n

abbrev pub byte_at : Memory → ℕ → ℕ
byte_at m addr =
    let w = m.words (addr / 4 * 4) in
    let i = addr % 4 in
    if i == 0
    then w % 256
    else if i == 1
    then w / 256 % 256
    else if i == 2
    then w / 65536 % 256
    else w / 16777216 % 256

abbrev pub bytes_from : Memory → ℕ → ℕ → List ℕ
bytes_from m addr zero = []
bytes_from m addr (suc n) = byte_at m addr ∷ bytes_from m (addr + 1) n

abbrev done : Exec Memory (Unit {0})
done = pure tt

abbrev pub memory_core : Core
memory_core = record {
  State = Memory;
  read_core_reg = λ r m. (ok (m.registers r), m);
  write_core_reg = λ r v m. (ok tt, record m { registers = set m.registers r v });
  read_8 = λ addr n m. (ok (bytes_from m addr n), m);
  write_8 = λ addr bytes. done;
  read_32 = λ addr n m. (ok (words_from m addr n), m);
  read_word_32 = λ addr m. (ok (m.words addr), m);
  write_word_32 = λ addr v m. (ok tt, record m { words = set m.words addr v });
  run = done;
  halt = λ t. done;
  reset_and_halt = λ t. done;
  wait_for_core_halted = λ t. done;
  core_halted = pure true;
  available_breakpoint_units = pure 4;
  set_hw_breakpoint = λ a. done;
  clear_hw_breakpoint = λ a. done;
}
