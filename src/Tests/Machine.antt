-- ===== src/Tests/Machine.antt =====
-- A core that carries out the machine code of the canary's subroutines, and the code's listings.
use probe_run.Base.{
  ℕ, [], ◌≡◌, refl, sym, ap, ◌∙◌, Option, none, some, true, ◌==◌, map, if◌then◌else◌,
}
use probe_run.Result.{Result, ok, err, external, ok-injective}
use probe_run.Exec.{pure}
use probe_run.Core.{Core}
use probe_run.Canary.Subroutine.{paint_code, measure_code}
use probe_run.Canary.Subroutine.Words.{bytes_at, word_at}
use probe_run.Canary.Thumb.{Machine, run}
use probe_run.Canary.Thumb.Target.{IsThumb, set_register, set_bytes}
use probe_run.Canary.Thumb.Listing.{paint_listing, measure_listing, disassemble}

-- the bytes are the instructions that the source lists
paint_listed : disassemble paint_code ≡ map some paint_listing
unfolding disassemble
paint_listed = refl

measure_listed : disassemble measure_code ≡ map some measure_listing
unfolding disassemble
measure_listed = refl

abbrev register : ℕ → Machine → ℕ
register n m =
    if n == 0
    then m.r0
    else if n == 1
    then m.r1
    else if n == 2
    then m.r2
    else if n == 3
    then m.r3
    else m.pc

-- the end of a run, if the machine comes to one
abbrev halted : Machine → Option Machine → Result (Unit {0}) × Machine
halted before none = (err (external 1), before)
halted before (some m) = (ok tt, m)

abbrev pub thumb_core : Core
thumb_core = record {
  State = Machine;
  read_core_reg = λ n m. (ok (register n m), m);
  write_core_reg = λ n v m. (ok tt, set_register n v m);
  read_8 = λ a n m. (ok (bytes_at m.memory a n), m);
  write_8 = λ a bytes m. (ok tt, set_bytes a bytes m);
  read_32 = λ a n. pure [];
  read_word_32 = λ a m. (ok (word_at m.memory a), m);
  write_word_32 = λ a v. pure tt;
  run = pure tt;
  halt = λ t. pure tt;
  reset_and_halt = λ t. pure tt;
  wait_for_core_halted = λ t m. halted m (run 200 m);
  core_halted = pure true;
  available_breakpoint_units = pure 4;
  set_hw_breakpoint = λ a. pure tt;
  clear_hw_breakpoint = λ a. pure tt;
}

abbrev pub view : Machine → Machine
view m = m

after_wait : (m m' : Machine) (r : Option Machine) → halted m r ≡ (ok tt, m') → r ≡ some m'
after_wait m m' none h = absurd (failed (ap (λ q. q.0) h))
  where
    failed : ¬ (◌≡◌ {A = Result (Unit {0})} (err (external 1)) (ok tt))
    failed e = cc
after_wait m m' (some a) h = ap (λ q. some q.1) h

pub thumb_core-IsThumb : IsThumb thumb_core view
thumb_core-IsThumb = record {
  reg_written = λ n v s s' h. sym (ap (λ q. q.1) h);
  reg_read = λ n v s s' h. sym (ap (λ q. q.1) h);
  r0_read = λ v s s' h. sym (ok-injective (ap (λ q. q.0) h));
  bytes_written = λ a bytes s s' h. sym (ap (λ q. q.1) h);
  bytes_read = λ a n bytes s s' h. (sym (ok-injective (ap (λ q. q.0) h)), sym (ap (λ q. q.1) h));
  word_read = λ a w s s' h. (sym (ok-injective (ap (λ q. q.0) h)), sym (ap (λ q. q.1) h));
  ran = λ s t s' h h'. (200, ap (run 200) (ap (λ q. q.1) h) ∙ after_wait t s' (run 200 t) h');
}
