-- ===== src/Canary/Thumb/Measure/Round.antt =====
-- One round of the loop in the machine code of `measure_subroutine` in src/canary.rs.
use probe_run.Base.{
  ℕ, suc, ◌+◌, ◌-◌, ◌%◌, ◌≤◌, ◌<◌, ◌≡◌, refl, ◌∙◌, some, Bool, true, false, leb, ◌==◌, arith,
}
use probe_run.U32.{u32_mod}
use probe_run.Canary.Subroutine.{measure_code}
use probe_run.Canary.Subroutine.Words.{word_at}
use probe_run.Canary.Thumb.{
  r0, r1, r2, r3, cs, ne, cmp, branch_if, branch, ldr, adds, movs, bkpt, run, decode, execute,
}
use probe_run.Canary.Thumb.Step.{Loaded, machine, run-step, run-pc}

-- One round of the loop of the machine code, for any place of the code and any registers.
module _ (base b p x a : ℕ) (memory : ℕ → ℕ) (fits : base + 20 < u32_mod)
    (loaded : Loaded base measure_code memory) where
  -- the word that is loaded
  abbrev w : ℕ
  w = word_at memory a

  compared :
      (n : ℕ) (c z : Bool)
      → run (suc n) (machine a b p x base c z memory)
        ≡ run n (machine a b p x (base + 2) (leb b a) (a == b) memory)
  unfolding decode execute
  compared n c z =
      run-step base measure_code 0 n (machine a b p x base c z memory) (cmp r0 r1) loaded
        (omega arith) (omega arith) refl
      ∙ run-pc n a b p x (leb b a) (a == b) memory _ (base + 2) (omega arith)

  -- behind the end of the range
  pub ended :
      (n : ℕ) (c z : Bool)
      → b ≤ a
      → run (suc (suc (suc (suc n)))) (machine a b p x base c z memory)
        ≡ some (machine 0 b p x (base + 16) true true memory)
  unfolding decode execute
  ended n c z h =
      let above : leb b a ≡ true = ground arith in
      compared (suc (suc (suc n))) c z
      ∙ rw above (
          run-step base measure_code 2 (suc (suc n))
            (machine a b p x (base + 2) true (a == b) memory) (branch_if cs 12) loaded (omega arith)
            refl refl
          ∙ run-pc (suc (suc n)) a b p x true (a == b) memory _ (base + 14) (omega arith)
          ∙ run-step base measure_code 14 (suc n) (machine a b p x (base + 14) true (a == b) memory)
              (movs r0 0) loaded (omega arith) refl refl
          ∙ run-pc (suc n) 0 b p x true true memory _ (base + 16) (omega arith)
          ∙ run-step base measure_code 16 n (machine 0 b p x (base + 16) true true memory) bkpt
              loaded (omega arith) refl refl)

  -- in the range: up to the branch on the word
  tested :
      (n : ℕ) (c z : Bool)
      → a < b
      → run (suc (suc (suc (suc n)))) (machine a b p x base c z memory)
        ≡ run n (machine a b p w (base + 8) (leb p w) (w == p) memory)
  unfolding decode execute
  tested n c z h =
      let below : leb b a ≡ false = ground arith in
      compared (suc (suc (suc n))) c z
      ∙ rw below (
          run-step base measure_code 2 (suc (suc n))
            (machine a b p x (base + 2) false (a == b) memory) (branch_if cs 12) loaded
            (omega arith) refl refl
          ∙ run-pc (suc (suc n)) a b p x false (a == b) memory _ (base + 4) (omega arith)
          ∙ run-step base measure_code 4 (suc n) (machine a b p x (base + 4) false (a == b) memory)
              (ldr r3 r0) loaded (omega arith) refl refl
          ∙ run-pc (suc n) a b p w false (a == b) memory _ (base + 6) (omega arith)
          ∙ run-step base measure_code 6 n (machine a b p w (base + 6) false (a == b) memory)
              (cmp r3 r2) loaded (omega arith) refl refl
          ∙ run-pc n a b p w (leb p w) (w == p) memory _ (base + 8) (omega arith))

  pub found :
      (n : ℕ) (c z : Bool)
      → a < b
      → (w == p) ≡ false
      → run (suc (suc (suc (suc (suc (suc n)))))) (machine a b p x base c z memory)
        ≡ some (machine a b p w (base + 16) (leb p w) false memory)
  unfolding decode execute
  found n c z h other =
      tested (suc (suc n)) c z h
      ∙ rw other (
          run-step base measure_code 8 (suc n) (machine a b p w (base + 8) (leb p w) false memory)
            (branch_if ne 8) loaded (omega arith) refl refl
          ∙ run-pc (suc n) a b p w (leb p w) false memory _ (base + 16) (omega arith)
          ∙ run-step base measure_code 16 n (machine a b p w (base + 16) (leb p w) false memory)
              bkpt loaded (omega arith) refl refl)

  pub passed :
      (n : ℕ) (c z : Bool)
      → a < b
      → (w == p) ≡ true
      → run (suc (suc (suc (suc (suc (suc (suc n))))))) (machine a b p x base c z memory)
        ≡ run n (
            machine
              ((a + 4) % u32_mod)
              b
              p
              w
              base
              (leb u32_mod (a + 4))
              ((a + 4) % u32_mod == 0)
              memory)
  unfolding decode execute
  passed n c z h same =
      tested (suc (suc (suc n))) c z h
      ∙ rw same (
          run-step base measure_code 8 (suc (suc n))
            (machine a b p w (base + 8) (leb p w) true memory) (branch_if ne 8) loaded (omega arith)
            refl refl
          ∙ run-pc (suc (suc n)) a b p w (leb p w) true memory _ (base + 10) (omega arith)
          ∙ run-step base measure_code 10 (suc n)
              (machine a b p w (base + 10) (leb p w) true memory) (adds r0 r0 4) loaded
              (omega arith) refl refl
          ∙ run-pc (suc n) ((a + 4) % u32_mod) b p w (leb u32_mod (a + 4)) ((a + 4) % u32_mod == 0)
              memory _ (base + 12) (omega arith)
          ∙ run-step base measure_code 12 n
              (machine ((a + 4) % u32_mod) b p w (base + 12) (leb u32_mod (a + 4))
                ((a + 4) % u32_mod == 0) memory)
              (branch (u32_mod - 12)) loaded (omega arith) refl refl
          ∙ run-pc n ((a + 4) % u32_mod) b p w (leb u32_mod (a + 4)) ((a + 4) % u32_mod == 0) memory
              _ base (omega arith))
