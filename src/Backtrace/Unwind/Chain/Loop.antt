-- ===== src/Backtrace/Unwind/Chain/Loop.antt =====
-- The loop of src/backtrace/unwind.rs goes through the frames that the stack records.
use mathlib.Core.List.{append_assoc}
use probe_run.Base.{
  ℕ, zero, suc, ◌≤◌, ◌≡◌, refl, ap, ◌∙◌, false, Option, none, some, List, [], ◌∷◌, ◌++◌, arith,
}
use probe_run.Result.{ok}
use probe_run.Core.{Core}
use probe_run.Cortexm.{is_hard_fault, clear_thumb_bit}
use probe_run.Registers.{Registers, Cache}
use probe_run.Backtrace.Outcome.{Outcome}
use probe_run.Backtrace.Unwind.{
  Context, Output, RawFrame, subroutine, exception, next, done, push, set_outcome, check_hard_fault,
  unwind_frame, round, unwind,
}
use probe_run.Backtrace.Unwind.Chain.{Chain, outermost, caller, interrupted}
use probe_run.Backtrace.Unwind.Chain.Rules.{regs_at, Holds, unwind_frame-Frame}
use probe_run.Backtrace.Unwind.Chain.Advance.{
  ends_badly, advance-end, advance-caller, advance-stacked,
}

-- the rounds of the loop: one to each subroutine
abbrev pub rounds : List RawFrame → ℕ
rounds [] = 0
rounds (subroutine pc ∷ rest) = suc (rounds rest)
rounds (exception ∷ rest) = rounds rest

module _ (core : Core) (ctx : Context) (s : core.State) where
  -- the output with the frames from an address on
  abbrev pub finished : Output → Option Outcome → List RawFrame → (last : ℕ) → Output
  finished output found frames last =
      let o = set_outcome output found in
      record o { corrupted = ends_badly ctx last; raw_frames = o.raw_frames ++ frames }

  -- what the loop makes of a round that goes on
  unwind-next :
      (fuel stopped pc pc' : ℕ) (output output' : Output) (found : Option Outcome)
      (regs regs' : Registers core)
      → check_hard_fault pc ctx.vector_table output stopped ctx.active_ram_region ≡ ok found
      → unwind_frame ctx pc (push (set_outcome output found) (subroutine pc)) regs
        ≡ (ok (next pc' output'), regs')
      → unwind ctx (suc fuel) stopped pc output regs ≡ unwind ctx fuel stopped pc' output' regs'
  unfolding unwind round
  unwind-next fuel stopped pc pc' output output' found regs regs' checked ran =
      rw (checked, unwind) (rw ran refl)

  unwind-done :
      (fuel stopped pc : ℕ) (output output' : Output) (found : Option Outcome)
      (regs regs' : Registers core)
      → check_hard_fault pc ctx.vector_table output stopped ctx.active_ram_region ≡ ok found
      → unwind_frame ctx pc (push (set_outcome output found) (subroutine pc)) regs
        ≡ (ok (done output'), regs')
      → unwind ctx (suc fuel) stopped pc output regs ≡ (ok (some output'), regs')
  unfolding unwind round
  unwind-done fuel stopped pc output output' found regs regs' checked ran =
      rw (checked, unwind) (rw ran refl)

  plain :
      (pc stopped : ℕ) (output : Output)
      → is_hard_fault pc ctx.vector_table ≡ false
      → check_hard_fault pc ctx.vector_table output stopped ctx.active_ram_region ≡ ok none
  unfolding check_hard_fault
  plain pc stopped output h = rw h refl

  pub unwind-Chain :
      (fuel stopped : ℕ) {pc sp lr last : ℕ} {frames : List RawFrame} (cache : Cache)
      (output : Output) (found : Option Outcome)
      → Chain core ctx s pc sp lr frames last
      → Holds core ctx s cache sp lr
      → rounds frames ≤ fuel
      → check_hard_fault pc ctx.vector_table output stopped ctx.active_ram_region ≡ ok found
      → (cache' : Cache) × (unwind ctx fuel stopped pc output (regs_at core ctx s cache)
          ≡ (ok (some (finished output found frames last)), regs_at core ctx s cache'))
  unwind-Chain zero stopped cache output found (outermost pc sp lr lr' frame own) holds enough
        checked =
      absurd (omega arith)
  unwind-Chain zero stopped cache output found
        (caller pc sp lr cfa lr' last frames frame moved plain_lr thumb below no_fault rest) holds
        enough checked =
      absurd (omega arith)
  unwind-Chain zero stopped cache output found
        (interrupted pc sp lr cfa lr' pc'' lr'' last frames frame moved special low high words fits
          below no_fault rest)
        holds enough checked =
      absurd (omega arith)
  unwind-Chain (suc fuel) stopped cache output found (outermost pc sp lr lr' frame own) holds enough
        checked =
      let (cache', ran, _) =
        unwind_frame-Frame core ctx s pc sp lr sp lr' cache
          (push (set_outcome output found) (subroutine pc)) frame holds in
      (
        cache',
        unwind-done fuel stopped pc output _ found _ _ checked (
            ran
            ∙ advance-end core ctx s pc sp lr' (push (set_outcome output found) (subroutine pc))
                (regs_at core ctx s cache') own),
      )
  unwind-Chain (suc fuel) stopped cache output found
        (caller pc sp lr cfa lr' last frames frame moved plain_lr thumb below no_fault rest) holds
        enough checked =
      let output' = push (set_outcome output found) (subroutine pc) in
      let (cache', ran, holds') =
        unwind_frame-Frame core ctx s pc sp lr cfa lr' cache output' frame holds in
      let (cache'', ran') =
        unwind-Chain fuel stopped cache' output' none rest holds' (omega arith)
          (plain (clear_thumb_bit lr') stopped output' no_fault) in
      (
        cache'',
        unwind-next fuel stopped pc (clear_thumb_bit lr') output output' found _
              (regs_at core ctx s cache') checked
              (ran
                ∙ advance-caller core ctx s pc sp cfa lr' cache' output' holds' moved plain_lr thumb
                    below)
            ∙ ran'
            ∙ ap
                (λ fs. (
                  ok (
                      some (record (set_outcome output found) {
                        corrupted = ends_badly ctx last;
                        raw_frames = fs;
                      })),
                  regs_at core ctx s cache'',
                ))
                (append_assoc (set_outcome output found).raw_frames (subroutine pc ∷ []) frames),
      )
  unwind-Chain (suc fuel) stopped cache output found
        (interrupted pc sp lr cfa lr' pc'' lr'' last frames frame moved special low high words fits
          below no_fault rest)
        holds enough checked =
      let o = set_outcome output found in
      let output' = push o (subroutine pc) in
      let (cache', ran, holds') =
        unwind_frame-Frame core ctx s pc sp lr cfa lr' cache output' frame holds in
      let (cache'', ran', holds'') =
        advance-stacked core ctx s pc sp cfa lr' lr'' pc'' cache' output' holds' moved special low
          high words fits below in
      let (cache3, ran'') =
        unwind-Chain fuel stopped cache'' (push output' exception) none rest holds'' (omega arith)
          (plain pc'' stopped (push output' exception) no_fault) in
      (
        cache3,
        unwind-next fuel stopped pc pc'' output (push output' exception) found _
              (regs_at core ctx s cache'') checked (ran ∙ ran')
            ∙ ran''
            ∙ ap
                (λ fs. (
                  ok (some (record o { corrupted = ends_badly ctx last; raw_frames = fs })),
                  regs_at core ctx s cache3,
                ))
                (append_assoc (o.raw_frames ++ subroutine pc ∷ []) (exception ∷ []) frames
                  ∙ append_assoc o.raw_frames (subroutine pc ∷ []) (exception ∷ frames)),
      )
