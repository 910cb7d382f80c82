-- ===== src/Canary/Thumb/Paint/Round.antt =====
-- One round of the loop in the machine code of `paint_subroutine` in src/canary.rs.
use probe_run.Base.{
  ℕ, suc, ◌+◌, ◌-◌, ◌%◌, ◌≤◌, ◌<◌, ◌≡◌, refl, ◌∙◌, some, Bool, true, false, leb, ◌==◌, ◌&&◌, not,
  arith,
}
use probe_run.U32.{u32_mod}
use probe_run.Canary.Subroutine.{paint_code}
use probe_run.Canary.Thumb.{
  r0, r1, r2, hi, cmp, branch_if, branch, stmia, bkpt, run, write_word, decode, execute,
}
use probe_run.Canary.Thumb.Step.{Loaded, machine, run-step, run-pc, write_word-Loaded}

-- One round of the loop of the machine code, for any place of the code and any registers.
module _ (base b p x a : ℕ) (memory : ℕ → ℕ) (fits : base + 12 < u32_mod)
    (loaded : Loaded base paint_code memory) where
  compared :
      (n : ℕ) (c z : Bool)
      → run (suc n) (machine a b p x base c z memory)
        ≡ run n (machine a b p x (base + 2) (leb b a) (a == b) memory)
  unfolding decode execute
  compared n c z =
      run-step base paint_code 0 n (machine a b p x base c z memory) (cmp r0 r1) loaded
        (omega arith) (omega arith) refl
      ∙ run-pc n a b p x (leb b a) (a == b) memory _ (base + 2) (omega arith)

  -- the words of the range: one is written
  pub more :
      (n : ℕ) (c z : Bool)
      → a ≤ b
      → base + 12 ≤ a
      → run (suc (suc (suc (suc n)))) (machine a b p x base c z memory)
        ≡ run n (machine ((a + 4) % u32_mod) b p x base (leb b a) (a == b) (write_word a p memory))
  unfolding decode execute
  more n c z h behind =
      let same : (leb b a && not (a == b)) ≡ false = ground arith in
      compared (suc (suc (suc n))) c z
      ∙ run-step base paint_code 2 (suc (suc n))
          (machine a b p x (base + 2) (leb b a) (a == b) memory) (branch_if hi 6) loaded
          (omega arith) refl refl
      ∙ rw same (run-pc (suc (suc n)) a b p x (leb b a) (a == b) memory _ (base + 4) (omega arith))
      ∙ run-step base paint_code 4 (suc n) (machine a b p x (base + 4) (leb b a) (a == b) memory)
          (stmia r0 r2) loaded (omega arith) refl refl
      ∙ run-pc (suc n) ((a + 4) % u32_mod) b p x (leb b a) (a == b) (write_word a p memory) _
          (base + 6) (omega arith)
      ∙ run-step base paint_code 6 n
          (machine ((a + 4) % u32_mod) b p x (base + 6) (leb b a) (a == b) (write_word a p memory))
          (branch (u32_mod - 6)) (write_word-Loaded base paint_code a p memory behind loaded)
          (omega arith) refl refl
      ∙ run-pc n ((a + 4) % u32_mod) b p x (leb b a) (a == b) (write_word a p memory) _ base
          (omega arith)

  -- the end of the range: the breakpoint
  pub done :
      (n : ℕ) (c z : Bool)
      → b < a
      → run (suc (suc (suc n))) (machine a b p x base c z memory)
        ≡ some (machine a b p x (base + 8) true false memory)
  unfolding decode execute
  done n c z h =
      let above : leb b a ≡ true = ground arith in
      let other : (a == b) ≡ false = ground arith in
      compared (suc (suc n)) c z
      ∙ rw (above, other)
          (run-step base paint_code 2 (suc n) (machine a b p x (base + 2) true false memory)
              (branch_if hi 6) loaded (omega arith) refl refl
            ∙ run-pc (suc n) a b p x true false memory _ (base + 8) (omega arith)
            ∙ run-step base paint_code 8 n (machine a b p x (base + 8) true false memory) bkpt
                loaded (omega arith) refl refl)
