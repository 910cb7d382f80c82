-- ===== src/Canary/Thumb/Target.antt =====
-- An attached core that runs the machine code of src/canary.rs, as the program reaches it: what
-- probe-rs documents of the calls, and that a core which was let run and then is found halted has
-- carried out the instructions in its memory, from its program counter to a breakpoint.
use mathlib.Core.Option.{some-injective}
use probe_run.Base.{
  ℕ, zero, suc, ◌+◌, ◌<◌, ◌≡◌, refl, sym, ap, ◌∙◌, Option, none, some, List, length, ◌==◌,
  if◌then◌else◌,
}
use probe_run.Result.{ok}
use probe_run.U32.{Profile, u32_mod, add_u32-fits}
use probe_run.Exec.{Exec, ◌>>=◌, ◌>>◌, Returns, >>=-Returns, Returns-intro}
use probe_run.Core.{Core}
use probe_run.Registers.{pc_reg}
use probe_run.Canary.Subroutine.{timeout, canary_u32, execute_subroutine}
use probe_run.Canary.Subroutine.Words.{bytes_at, word_at}
use probe_run.Canary.Thumb.{
  Instruction, bkpt, Machine, decode, halfword_at, execute, run, write_bytes,
}

-- the registers by their number, of those that the machine has
abbrev pub set_register : ℕ → ℕ → Machine → Machine
set_register n v m =
    if n == 0
    then record m { r0 = v }
    else if n == 1
    then record m { r1 = v }
    else if n == 2
    then record m { r2 = v }
    else if n == 3
    then record m { r3 = v }
    else if n == pc_reg
    then record m { pc = v }
    else m

abbrev pub set_bytes : ℕ → List ℕ → Machine → Machine
set_bytes a bytes m = record m { memory = write_bytes a bytes m.memory }

pub record IsThumb (core : Core) (view : core.State → Machine) : Type 0 where
  pub reg_written :
      (n v : ℕ) (s s' : core.State)
      → core.write_core_reg n v s ≡ (ok tt, s')
      → view s' ≡ set_register n v (view s)
  pub reg_read :
      (n v : ℕ) (s s' : core.State) → core.read_core_reg n s ≡ (ok v, s') → view s' ≡ view s
  pub r0_read : (v : ℕ) (s s' : core.State) → core.read_core_reg 0 s ≡ (ok v, s') → v ≡ (view s).r0
  pub bytes_written :
      (a : ℕ) (bytes : List ℕ) (s s' : core.State)
      → core.write_8 a bytes s ≡ (ok tt, s')
      → view s' ≡ set_bytes a bytes (view s)
  pub bytes_read :
      (a n : ℕ) (bytes : List ℕ) (s s' : core.State)
      → core.read_8 a n s ≡ (ok bytes, s')
      → (bytes ≡ bytes_at (view s).memory a n) × (view s' ≡ view s)
  pub word_read :
      (a w : ℕ) (s s' : core.State)
      → core.read_word_32 a s ≡ (ok w, s')
      → (w ≡ word_at (view s).memory a) × (view s' ≡ view s)
  pub ran :
      (s t s' : core.State)
      → core.run s ≡ (ok tt, t)
      → core.wait_for_core_halted timeout t ≡ (ok tt, s')
      → (n : ℕ) × (run n (view s) ≡ some (view s'))

-- A run has one end, whatever its fuel.
next_unique :
    (n k : ℕ) (m a b : Machine)
    → ((m : Machine) → run n m ≡ some a → run k m ≡ some b → a ≡ b)
    → (o : Option Instruction) → decode (halfword_at m.memory m.pc) ≡ o
    → run (suc n) m ≡ some a
    → run (suc k) m ≡ some b
    → a ≡ b
unfolding run
next_unique n k m a b ih none e h h' = absurd (let bad : none ≡ some a = rw (e, run) at h in cc)
next_unique n k m a b ih (some bkpt) e h h' =
    some-injective _ _ (sym (rw (e, run) at h) ∙ rw (e, run) at h')
next_unique n k m a b ih (some i) e h h' = ih (execute i m) (rw (e, run) at h) (rw (e, run) at h')

pub run_unique : (n k : ℕ) (m a b : Machine) → run n m ≡ some a → run k m ≡ some b → a ≡ b
unfolding run
run_unique zero k m a b h h' = cc
run_unique (suc n) zero m a b h h' = cc
run_unique (suc n) (suc k) m a b h h' =
    next_unique n k m a b (λ q. run_unique n k q a b) (decode (halfword_at m.memory m.pc)) refl h h'

-- the machine as a subroutine is started
abbrev pub started : (low size : ℕ) → List ℕ → Machine → Machine
started low size code m = set_register pc_reg low (
    set_bytes low code (
      set_register 2 canary_u32
        (set_register 1 (low + size) (set_register 0 (low + length code) m))))

-- what a run of a subroutine leaves
abbrev pub Ran : (low size : ℕ) → List ℕ → Machine → Machine → Type 0
Ran low size code before after =
    (n : ℕ) × (m : Machine) × (pc : ℕ) × (run n (started low size code before) ≡ some m)
    × (after ≡ set_register pc_reg pc m)

module _ (core : Core) (view : core.State → Machine) (thumb : IsThumb core view) (p : Profile)
    (low size : ℕ) (code : List ℕ) where
  -- the calls of `execute_subroutine`, from the last one back
  abbrev reset_pc : ℕ → Exec core.State (Unit {0})
  reset_pc previous_pc = core.write_core_reg pc_reg previous_pc

  abbrev execute_it : ℕ → Exec core.State (Unit {0})
  execute_it previous_pc = core.run >> (core.wait_for_core_halted timeout >> reset_pc previous_pc)

  abbrev set_pc : ℕ → Exec core.State (Unit {0})
  set_pc previous_pc = core.write_core_reg pc_reg low >> execute_it previous_pc

  abbrev place : Exec core.State (Unit {0})
  place = core.write_8 low code >> (core.read_core_reg pc_reg >>= set_pc)

  abbrev set_r2 : Exec core.State (Unit {0})
  set_r2 = core.write_core_reg 2 canary_u32 >> place

  abbrev set_r1 : Exec core.State (Unit {0})
  set_r1 = core.write_core_reg 1 (low + size) >> set_r2

  -- from the point where the subroutine is in place and the program counter points to it
  execute_it-Ran :
      (before : Machine) (pc : ℕ) (s : core.State)
      → view s ≡ started low size code before
      → Returns (λ _ s'. Ran low size code before (view s')) (execute_it pc s)
  execute_it-Ran before pc s start =
      >>=-Returns P core.run (λ _. core.wait_for_core_halted timeout >> reset_pc pc) s
        (λ _ t e.
          >>=-Returns P (core.wait_for_core_halted timeout) (λ _. reset_pc pc) t
            (λ _ u e'. Returns-intro P (reset_pc pc u) (λ _ v e''.
              let (n, halted) = thumb.ran s t u e e' in
              (
                n,
                view u,
                pc,
                ap (run n) (sym start) ∙ halted,
                thumb.reg_written pc_reg pc u v e'',
              ))))
    where
      P : Unit {0} → core.State → Type 0
      P _ s' = Ran low size code before (view s')

  -- A subroutine that is executed is run by the machine, with the parameters in its registers.
  pub execute-Ran :
      (s : core.State)
      → low + size < u32_mod
      → low + length code < u32_mod
      → Returns
          (λ _ s'. Ran low size code (view s) (view s'))
          (execute_subroutine core p low size code s)
  unfolding execute_subroutine
  execute-Ran s fits placed = rw (add_u32-fits p low size fits) (
      rw (add_u32-fits p low (length code) placed) (
        >>=-Returns P (core.write_core_reg 0 (low + length code)) (λ _. set_r1) s
          (λ _ s1 e1.
            >>=-Returns P (core.write_core_reg 1 (low + size)) (λ _. set_r2) s1
              (λ _ s2 e2.
                >>=-Returns P (core.write_core_reg 2 canary_u32) (λ _. place) s2
                  (λ _ s3 e3.
                    >>=-Returns P (core.write_8 low code)
                      (λ _. core.read_core_reg pc_reg >>= set_pc) s3
                      (λ _ s4 e4. >>=-Returns P (core.read_core_reg pc_reg) set_pc s4 (λ pc s5 e5.
                        >>=-Returns P (core.write_core_reg pc_reg low) (λ _. execute_it pc) s5
                          (λ _ s6 e6. execute_it-Ran (view s) pc s6 (
                            thumb.reg_written pc_reg low s5 s6 e6
                            ∙ ap (set_register pc_reg low) (
                                thumb.reg_read pc_reg pc s4 s5 e5
                                ∙ thumb.bytes_written low code s3 s4 e4
                                ∙ ap (set_bytes low code) (
                                    thumb.reg_written 2 canary_u32 s2 s3 e3
                                    ∙ ap (set_register 2 canary_u32) (
                                        thumb.reg_written 1 (low + size) s1 s2 e2
                                        ∙ ap (set_register 1 (low + size)) (
                                            thumb.reg_written 0 (low + length code) s s1
                                              e1)))))))))))))
    where
      P : Unit {0} → core.State → Type 0
      P _ s' = Ran low size code (view s) (view s')
