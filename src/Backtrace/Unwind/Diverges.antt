-- ===== src/Backtrace/Unwind/Diverges.antt =====
-- A corrupted stack on which the loop of src/backtrace/unwind.rs never ends: two frames, found by the
-- frame pointer R7, of which each is the caller of the other.
use probe_run.Base.{
  ℕ, zero, suc, ◌+◌, ◌≤◌, ◌<◌, ◌≡◌, refl, ap, ◌∙◌, Bool, true, false, not, ◌&&◌, none, [], ◌∷◌, ltb,
  leb, arith,
}
use probe_run.Base.Int.{pos, negsuc}
use probe_run.Result.{ok}
use probe_run.U32.{u32_mod, add_offset-pos, add_offset, add_offset-negsuc}
use probe_run.Core.{Core}
use probe_run.Cortexm.{
  is_hard_fault, subroutine_eq, is_thumb_bit_set, clear_thumb_bit, exc_return_marker,
}
use probe_run.Registers
use probe_run.Registers.{
  Registers, Cache, store, is_some_of, lr_reg, sp_reg, register_and_offset, offset,
}
use probe_run.Elf.DebugFrame.{Fde, Row}
use probe_run.Backtrace.Unwind.{
  Context, Output, next, subroutine, push, update_all, check_sp, advance, unwind_frame, row_at,
  check_hard_fault, round, unwind, unwind_core, start,
}
use probe_run.Backtrace.Unwind.Find.{find_fde}

abbrev pub fp_reg : ℕ
fp_reg = 7

-- the row of code that has pushed R7 and LR and points R7 to them
abbrev pub frame_row : Row
frame_row = record {
  cfa = register_and_offset fp_reg (pos 8);
  registers = (lr_reg, offset (negsuc 3)) ∷ (fp_reg, offset (negsuc 7)) ∷ [];
}

and_false : (b : Bool) → (b && false) ≡ false
and_false true = refl
and_false false = refl

row_at-eq_ok : (f : Fde) (pc : ℕ) (row : Row) → f.row pc ≡ ok row → row_at f pc ≡ ok row
unfolding row_at
row_at-eq_ok f pc row h = rw (h, row_at)

module _ (core : Core) (ctx : Context) (s : core.State) where
  -- At `pc` the code has a frame at `fp`, which holds the frame pointer and the LR of its caller; reading
  -- them does not change the target.
  pub record Frame (pc fp lr caller : ℕ) : Type 0 where
    pub entry : Fde
    pub found : find_fde ctx.debug_frame pc ≡ ok entry
    pub row : entry.row pc ≡ ok frame_row
    pub no_fault : is_hard_fault pc ctx.vector_table ≡ false
    pub saved_fp : core.read_word_32 fp s ≡ (ok caller, s)
    pub saved_lr : core.read_word_32 (fp + 4) s ≡ (ok lr, s)
    pub inside : fp + 8 ≤ ctx.stack_start
    pub fits : fp + 8 < u32_mod
    pub thumb : is_thumb_bit_set lr ≡ true
    pub no_exception : lr < exc_return_marker
    pub moved : subroutine_eq lr pc ≡ false

  -- R7 reads as `fp`, from the cache or from the core
  abbrev Holds : ℕ → Registers core → Type 0
  Holds fp regs =
      (cache : Cache) × (Registers.get fp_reg regs ≡ (ok fp, record { cache = cache; device = s }))

  abbrev device_at : Cache → Registers core
  device_at cache = record { cache = cache; device = s }

  -- the cache behind the row of the frame: the frame address in SP, and what was saved
  abbrev unwound : Cache → (fp lr caller : ℕ) → Cache
  unwound cache fp lr caller = store (store (store cache sp_reg (fp + 8)) lr_reg lr) fp_reg caller

  cfa_step :
      (pc fp lr caller : ℕ) (cache : Cache) (regs : Registers core)
      → Frame pc fp lr caller
      → Registers.get fp_reg regs ≡ (ok fp, device_at cache)
      → (changed : Bool) × (Registers.update_cfa ctx.profile frame_row.cfa regs
          ≡ (ok changed, device_at (store cache sp_reg (fp + 8))))
  unfolding Registers.update_cfa Registers.cached Registers.insert
  cfa_step pc fp lr caller cache regs frame holds = (
    not (is_some_of (cache sp_reg) (fp + 8)),
    rw holds (rw (add_offset-pos ctx.profile fp 8 frame.fits) refl),
  )

  slot :
      (fp k addr : ℕ)
      → fp + 8 ≡ addr + suc k
      → fp + 8 < u32_mod
      → add_offset ctx.profile (fp + 8) (negsuc k) ≡ ok addr
  slot fp k addr at fits =
      add_offset-negsuc ctx.profile (fp + 8) k (omega arith) fits ∙ ap ok (omega arith)

  rules_step :
      (pc fp lr caller : ℕ) (cache : Cache)
      → Frame pc fp lr caller
      → update_all ctx frame_row.registers (device_at (store cache sp_reg (fp + 8)))
        ≡ (ok tt, device_at (unwound cache fp lr caller))
  unfolding update_all Registers.update Registers.get Registers.on_core Registers.insert
  rules_step pc fp lr caller cache frame =
      rw (slot fp 3 (fp + 4) (omega arith) frame.fits)
        (rw frame.saved_lr (rw (slot fp 7 fp (omega arith) frame.fits) (rw frame.saved_fp)))

  end_step :
      (pc fp lr caller : ℕ) (cache : Cache) (changed : Bool) (output : Output)
      → Frame pc fp lr caller
      → advance ctx pc changed output lr (device_at (unwound cache fp lr caller))
        ≡ (ok (next (clear_thumb_bit lr) output), device_at (unwound cache fp lr caller))
  unfolding advance check_sp Registers.get
  end_step pc fp lr caller cache changed output frame =
      let plain : leb exc_return_marker lr ≡ false = ground (arith, frame.no_exception) in
      let below : ltb ctx.stack_start (fp + 8) ≡ false = ground (arith, frame.inside) in
      rw frame.moved (rw (and_false (not changed)) (rw plain (rw frame.thumb (rw below))))

  frame_step :
      (pc fp lr caller : ℕ) (cache : Cache) (regs : Registers core) (output : Output)
      → Frame pc fp lr caller
      → Registers.get fp_reg regs ≡ (ok fp, device_at cache)
      → unwind_frame ctx pc output regs
        ≡ (ok (next (clear_thumb_bit lr) output), device_at (unwound cache fp lr caller))
  unfolding unwind_frame Registers.get
  frame_step pc fp lr caller cache regs output frame holds =
      let (changed, moved) = cfa_step pc fp lr caller cache regs frame holds in
      rw frame.found (
        rw (row_at-eq_ok frame.entry pc frame_row frame.row) (
          rw moved (
            rw (rules_step pc fp lr caller cache frame)
              (end_step pc fp lr caller cache changed output frame))))

  round_step :
      (stopped pc fp lr caller : ℕ) (cache : Cache) (regs : Registers core) (output : Output)
      → Frame pc fp lr caller
      → Registers.get fp_reg regs ≡ (ok fp, device_at cache)
      → round ctx stopped pc output regs ≡ (
        ok (next (clear_thumb_bit lr) (push output (subroutine pc))),
        device_at (unwound cache fp lr caller),
      )
  unfolding round check_hard_fault
  round_step stopped pc fp lr caller cache regs output frame holds =
      rw frame.no_fault
        (frame_step pc fp lr caller cache regs (push output (subroutine pc)) frame holds)

  -- the frame at `fp` of the code at `pc`, and that at `fp'` of the code at `pc'`, are the callers of each
  -- other
  module _ (pc fp lr pc' fp' lr' : ℕ) (to : clear_thumb_bit lr ≡ pc')
      (back : clear_thumb_bit lr' ≡ pc) (here : Frame pc fp lr fp')
      (there : Frame pc' fp' lr' fp) where
    spins :
        (fuel stopped : ℕ) (cache : Cache) (regs : Registers core) (output : Output)
        → Registers.get fp_reg regs ≡ (ok fp, device_at cache)
        → (unwind ctx fuel stopped pc output regs).0 ≡ ok none
    unfolding unwind Registers.get
    spins zero stopped cache regs output holds = refl
    spins (suc zero) stopped cache regs output holds =
        rw (round_step stopped pc fp lr fp' cache regs output here holds)
    spins (suc (suc fuel)) stopped cache regs output holds =
        rw (round_step stopped pc fp lr fp' cache regs output here holds) (
          rw to (
            rw
              (round_step stopped pc' fp' lr' fp (unwound cache fp lr fp')
                (device_at (unwound cache fp lr fp')) (push output (subroutine pc)) there refl)
              (rw back (
                spins fuel stopped (unwound (unwound cache fp lr fp') fp' lr' fp)
                  (device_at (unwound (unwound cache fp lr fp') fp' lr' fp))
                  (push (push output (subroutine pc)) (subroutine pc')) refl))))

    -- If the frame that the frame pointer of a stopped program points to and a second frame are the
    -- callers of each other (each holds, in memory that reads do not change, the other's address and an LR
    -- into its code, both below the start of the stack and neither in the hard fault handler), then no number
    -- of rounds is enough: the unwinder never returns.
    pub unwind_core_diverges :
        (fuel sp lr0 : ℕ)
        → core.read_core_reg fp_reg s ≡ (ok fp, s)
        → (unwind_core core ctx fuel pc sp lr0 s).0 ≡ ok none
    unfolding unwind_core Registers.get Registers.new Registers.on_core Registers.insert
    unwind_core_diverges fuel sp lr0 read =
        spins fuel sp (store (store (store (λ _. none) lr_reg lr0) sp_reg sp) fp_reg fp)
          (Registers.new {core = core} lr0 sp s) start (rw read)
