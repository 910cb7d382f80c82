-- ===== src/Canary/Thumb/Step.antt =====
-- One instruction of a subroutine of src/canary.rs that lies in the memory.
use probe_run.Base.{
  ℕ, zero, suc, ◌+◌, ◌*◌, ◌≤◌, ◌<◌, ◌≡◌, ◌⊎◌, inl, inr, refl, ap, ◌∙◌, Option, some, List, [], ◌∷◌,
  length, get_or, Bool, true, false, ◌==◌, arith,
}
use probe_run.Canary.Subroutine.{to_le_bytes}
use probe_run.Canary.Thumb.{
  Instruction, cmp, bkpt, Machine, decode, halfword_at, execute, run, write_bytes, write_word,
}

abbrev pub machine : (a b p x pc : ℕ) → (c z : Bool) → (ℕ → ℕ) → Machine
machine a b p x pc c z memory = record {
  r0 = a;
  r1 = b;
  r2 = p;
  r3 = x;
  pc = pc;
  carry_flag = c;
  zero_flag = z;
  memory = memory;
}

-- the bytes lie at the address
abbrev pub Loaded : ℕ → List ℕ → (ℕ → ℕ) → Type 0
Loaded base code memory = (k : ℕ) → k < length code → memory (base + k) ≡ get_or code k 0

-- what is left of a run at an instruction
abbrev pub goes_on : ℕ → Machine → Instruction → Option Machine
goes_on n m bkpt = some m
goes_on n m i = run n (execute i m)

run-decode :
    (n : ℕ) (m : Machine) (i : Instruction)
    → decode (halfword_at m.memory m.pc) ≡ some i
    → run (suc n) m ≡ goes_on n m i
unfolding run
run-decode n m (cmp a b) h = rw (h, run) refl
run-decode n m bkpt h = rw (h, run) refl
run-decode n m i h = rw (h, run) refl

-- An instruction of the code is the one that is carried out.
pub run-step :
    (base : ℕ) (code : List ℕ) (k n : ℕ) (m : Machine) (i : Instruction)
    → Loaded base code m.memory
    → suc k < length code
    → m.pc ≡ base + k
    → decode (get_or code k 0 + get_or code (suc k) 0 * 256) ≡ some i
    → run (suc n) m ≡ goes_on n m i
run-step base code k n m i loaded inside at h = run-decode n m i (
    rw at (
      let second : base + k + 1 ≡ base + suc k = omega arith in
      rw second (rw (loaded k (omega arith), loaded (suc k) inside) h)))

write_bytes-below :
    (a : ℕ) (bytes : List ℕ) (memory : ℕ → ℕ) (x : ℕ)
    → x < a
    → write_bytes a bytes memory x ≡ memory x
write_bytes-below a [] memory x h = refl
write_bytes-below a (b ∷ rest) memory x h =
    let other : (x == a) ≡ false = ground arith in
    rw other (write_bytes-below (a + 1) rest memory x (omega arith))

write_bytes-above :
    (a : ℕ) (bytes : List ℕ) (memory : ℕ → ℕ) (x : ℕ)
    → a + length bytes ≤ x
    → write_bytes a bytes memory x ≡ memory x
write_bytes-above a [] memory x h = refl
write_bytes-above a (b ∷ rest) memory x h =
    let other : (x == a) ≡ false = ground arith in
    rw other (write_bytes-above (a + 1) rest memory x (omega arith))

-- A write leaves the other bytes as they are.
pub write_bytes-outside :
    (a : ℕ) (bytes : List ℕ) (memory : ℕ → ℕ) (x : ℕ)
    → (x < a) ⊎ (a + length bytes ≤ x)
    → write_bytes a bytes memory x ≡ memory x
write_bytes-outside a bytes memory x (inl h) = write_bytes-below a bytes memory x h
write_bytes-outside a bytes memory x (inr h) = write_bytes-above a bytes memory x h

pub write_bytes-inside :
    (a : ℕ) (bytes : List ℕ) (memory : ℕ → ℕ) (i : ℕ)
    → i < length bytes
    → write_bytes a bytes memory (a + i) ≡ get_or bytes i 0
write_bytes-inside a [] memory i h = absurd (omega arith)
write_bytes-inside a (b ∷ rest) memory zero h =
    let same : (a + 0 == a) ≡ true = ground arith in rw same refl
write_bytes-inside a (b ∷ rest) memory (suc i) h =
    let other : (a + suc i == a) ≡ false = ground arith in
    let shift : a + suc i ≡ a + 1 + i = omega arith in
    rw other (
      ap (write_bytes (a + 1) rest memory) shift
      ∙ write_bytes-inside (a + 1) rest memory i (omega arith))

-- The code stays where it is under a write behind it.
pub write_word-Loaded :
    (base : ℕ) (code : List ℕ) (a w : ℕ) (memory : ℕ → ℕ)
    → base + length code ≤ a
    → Loaded base code memory
    → Loaded base code (write_word a w memory)
unfolding write_word
write_word-Loaded base code a w memory h loaded k inside =
    write_bytes-below a (to_le_bytes w) memory (base + k) (omega arith) ∙ loaded k inside

-- what a run makes of the address that a step has come to
pub run-pc :
    (n a b p x : ℕ) (c z : Bool) (memory : ℕ → ℕ) (pc pc' : ℕ)
    → pc ≡ pc'
    → run n (machine a b p x pc c z memory) ≡ run n (machine a b p x pc' c z memory)
run-pc n a b p x c z memory pc pc' e = ap (λ q. run n (machine a b p x q c z memory)) e
