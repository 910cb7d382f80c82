-- ===== src/Startup/Laws.antt =====
-- What the start-up of src/main.rs does to the log channel, and how often it tries to attach.
use probe_run.Base.{
  ℕ, zero, suc, ◌+◌, ◌-◌, ◌%◌, ◌<◌, ◌≡◌, ◌↔◌, ◌⊎◌, inl, inr, ◌≢◌, Option, false, ◌==◌, refl, ap,
  ap₂, ◌∙◌, none, some, [], ◌∷◌, arith,
}
use probe_run.Base.Bits.{bit_or_and_mode}
use probe_run.Result.{Error, ok, err, rtt_without_breakpoints, ok-injective}
use probe_run.U32.{Profile, u32_mod, add_u32-fits}
use probe_run.Exec.{◌>>◌}
use probe_run.Core.{Core}
use probe_run.Cortexm.{clear_thumb_bit}
use probe_run.Cortexm.Laws.{clear_thumb_bit_lem}
use probe_run.Startup.{
  set_rtt_to_blocking, prepare_rtt, start_program, Attach, attached, not_found, failed, answer,
  attempts, setup_logging_channel, num_retries,
}

-- If the program reaches `main` and the flags of the channel can be read there, the word is written
-- back with its two lowest bits set to 2 (block if full) and the others as they were, and then the
-- breakpoint at `main` is cleared.
pub set_rtt_to_blocking_lem :
    (core : Core) (p : Profile) (main rtt flags : ℕ) (s0 s1 s2 s3 s4 : core.State)
    → rtt + 44 < u32_mod
    → flags < u32_mod
    → core.set_hw_breakpoint main s0 ≡ (ok tt, s1)
    → core.run s1 ≡ (ok tt, s2)
    → core.wait_for_core_halted 5000 s2 ≡ (ok tt, s3)
    → core.read_32 (rtt + 44) 1 s3 ≡ (ok (flags ∷ []), s4)
    → set_rtt_to_blocking core p main rtt s0
      ≡ (core.write_word_32 (rtt + 44) (flags - flags % 4 + 2) >> core.clear_hw_breakpoint main) s4
unfolding set_rtt_to_blocking
set_rtt_to_blocking_lem core p main rtt flags s0 s1 s2 s3 s4 fits small set ran halted read =
    rw set (
      rw ran
        (rw halted (rw (add_u32-fits p rtt 44 fits) (rw read (rw (bit_or_and_mode flags small))))))

-- On a device with hardware breakpoints, for an image with a log channel: if the program reaches `main`
-- and the flags of the channel can be read there, then the word is written back with its two lowest
-- bits set to 2 (block if full) and the others as they were, the breakpoint at `main` is cleared, one
-- is set at the HardFault handler, whose Thumb bit is dropped, and the program is let run.
pub start_program-blocking :
    (core : Core) (p : Profile) (main rtt hard_fault units flags : ℕ)
    (s s0 s1 s2 s3 s4 : core.State)
    → 0 < units
    → rtt + 44 < u32_mod
    → flags < u32_mod
    → hard_fault < u32_mod
    → core.available_breakpoint_units s ≡ (ok units, s0)
    → core.set_hw_breakpoint main s0 ≡ (ok tt, s1)
    → core.run s1 ≡ (ok tt, s2)
    → core.wait_for_core_halted 5000 s2 ≡ (ok tt, s3)
    → core.read_32 (rtt + 44) 1 s3 ≡ (ok (flags ∷ []), s4)
    → start_program core p main (some rtt) hard_fault s
      ≡ ((core.write_word_32 (rtt + 44) (flags - flags % 4 + 2) >> core.clear_hw_breakpoint main)
            >> (core.set_hw_breakpoint (hard_fault - hard_fault % 2) >> core.run))
          s4
unfolding start_program prepare_rtt
start_program-blocking core p main rtt hf units flags s s0 s1 s2 s3 s4 pos fits small word counted
      set ran halted read =
    let some_units : (units == 0) ≡ false = ground arith in
    rw counted (
      rw some_units (
        rw
          (set_rtt_to_blocking_lem core p main rtt flags s0 s1 s2 s3 s4 fits small set ran halted
            read)
          (rw (clear_thumb_bit_lem hf word) refl)))

-- a core that has no free breakpoint unit refuses a breakpoint
abbrev pub Refuses : Core → Type 0
Refuses core =
    (a : ℕ) (s : core.State)
    → (e : Error) × (s' : core.State) × (core.set_hw_breakpoint a s ≡ (err e, s'))

-- On a device that has no hardware breakpoints and refuses to set one, the start fails, and the program
-- is not let run: for an image with a log channel with the error that RTT is not supported, and for one
-- without with the error of the breakpoint at the HardFault handler.
pub start_program-no_units :
    (core : Core) (p : Profile) (main : ℕ) (rtt : Option ℕ) (hard_fault : ℕ) (s t : core.State)
    → Refuses core
    → core.available_breakpoint_units s ≡ (ok 0, t)
    → (e : Error) × (s' : core.State) × (start_program core p main rtt hard_fault s ≡ (err e, s'))
      × (((rtt ≡ none) × (core.set_hw_breakpoint (clear_thumb_bit hard_fault) t ≡ (err e, s')))
          ⊎ ((rtt ≢ none) × (e ≡ rtt_without_breakpoints) × (s' ≡ t)))
unfolding start_program prepare_rtt
start_program-no_units core p main none hf s t refuses counted =
    let (e, s', refused) = refuses (clear_thumb_bit hf) t in
    (e, s', rw (counted, refused) refl, inl (refl, refused))
start_program-no_units core p main (some rtt) hf s t refuses counted =
    (rtt_without_breakpoints, t, rw counted refl, inr (λ e. cc, refl, refl))

module _ {S Channel : Type 0} (attach : S → Attach Channel × S) where
  -- after `k` attempts that found no control block
  abbrev pub Tries : ℕ → S → S → Type 0
  Tries zero s t = s ≡ t
  Tries (suc k) s t = (u : S) × (attach s ≡ (not_found, u)) × Tries k u t

  -- an attempt among the first `n` attaches to the channel
  abbrev pub AttachesWithin : ℕ → S → Channel → S → Type 0
  AttachesWithin n s channel s' =
      (k : ℕ) × (t : S) × (k < n) × Tries k s t × (attach t ≡ (attached (some channel), s'))

  attempts_sound :
      (n : ℕ) (s s' : S) (channel : Channel)
      → attempts attach n s ≡ (ok channel, s')
      → AttachesWithin n s channel s'
  unfolding attempts
  attempts_sound zero s s' channel h = cc
  attempts_sound (suc n) s s' channel h =
      by_answer (λ u e. attempts_sound n u s' channel e) (attach s) refl h
    where
      by_answer :
          ((u : S) → attempts attach n u ≡ (ok channel, s') → AttachesWithin n u channel s')
          → (r : Attach Channel × S) → attach s ≡ r
          → answer attach r.0 (attempts attach n r.1) r.1 ≡ (ok channel, s')
          → AttachesWithin (suc n) s channel s'
      by_answer ih (attached (some c), u) at e = (
        0,
        s,
        omega arith,
        refl,
        at ∙ ap₂ (λ x y. (attached (some x), y)) (ok-injective (ap (λ q. q.0) e)) (ap (λ q. q.1) e),
      )
      by_answer ih (attached none, u) at e = cc
      by_answer ih (not_found, u) at e =
          let (k, t, lt, tries, hit) = ih u e in (suc k, t, omega arith, (u, at, tries), hit)
      by_answer ih (failed x, u) at e = cc

  attempts_complete :
      (k n : ℕ) (s t s' : S) (channel : Channel)
      → k < n
      → Tries k s t
      → attach t ≡ (attached (some channel), s')
      → attempts attach n s ≡ (ok channel, s')
  unfolding attempts
  attempts_complete k zero s t s' channel lt tries at = absurd (omega arith)
  attempts_complete zero (suc n) s t s' channel lt tries at = rw tries (rw at)
  attempts_complete (suc k) (suc n) s t s' channel lt (u, missed, tries) at =
      rw missed (attempts_complete k n u t s' channel (omega arith) tries at)

  -- The set-up returns a channel exactly if one of the first ten attempts attaches to it and those
  -- before it found no control block.
  pub setup_logging_channel_iff :
      (s s' : S) (channel : Channel)
      → (setup_logging_channel attach s ≡ (ok channel, s'))
        ↔ AttachesWithin num_retries s channel s'
  unfolding setup_logging_channel
  setup_logging_channel_iff s s' channel = (
    attempts_sound num_retries s s' channel,
    λ (k, t, lt, tries, at). attempts_complete k num_retries s t s' channel lt tries at,
  )
