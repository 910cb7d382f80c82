-- ===== src/Startup.antt =====
-- The parts of src/main.rs that start the program on the target and attach to its log channel.
pub mod Laws
use probe_run.Base.{ℕ, zero, suc, ◌-◌, ◌==◌, Option, none, some, List, get_or, if◌then◌else◌}
use probe_run.Base.Bits.{bit_and, bit_or}
use probe_run.Result.{
  Error, Result, ok, err, rtt_without_breakpoints, no_up_channel, control_block_not_found,
}
use probe_run.U32.{Profile, add_u32}
use probe_run.Exec.{Exec, pure, fail, lift, ◌>>=◌, ◌>>◌}
use probe_run.Core.{Core}
use probe_run.Cortexm.{set_thumb_bit, clear_thumb_bit, not_u32}
use probe_run.Registers.{sp_reg, pc_reg}

abbrev pub offset : ℕ
offset = 44

abbrev pub mode_mask : ℕ
mode_mask = 3

abbrev pub mode_block_if_full : ℕ
mode_block_if_full = 2

module _ (core : Core) (profile : Profile) where
  -- the start of the stack and the address of the reset handler
  unfoldable pub analyze_vector_table : Exec core.State (ℕ × ℕ)
  analyze_vector_table = do
    stack_start ← core.read_core_reg sp_reg
    pc ← core.read_core_reg pc_reg
    pure (stack_start, set_thumb_bit pc)

  unfoldable pub set_rtt_to_blocking :
      (main_fn_address rtt_buffer_address : ℕ) → Exec core.State (Unit {0})
  set_rtt_to_blocking main_fn_address rtt_buffer_address = do
    core.set_hw_breakpoint main_fn_address
    core.run
    core.wait_for_core_halted 5000
    address ← lift (add_u32 profile rtt_buffer_address offset)
    channel_flags ← core.read_32 address 1
    core.write_word_32 address
        (bit_or (bit_and (get_or channel_flags 0 0) (not_u32 mode_mask)) mode_block_if_full)
    core.clear_hw_breakpoint main_fn_address

  -- what is done before the program is let run, by the number of breakpoint units
  unfoldable pub prepare_rtt :
      (main_fn_address : ℕ) → Option ℕ → (units : ℕ) → Exec core.State (Unit {0})
  unfolding set_rtt_to_blocking
  prepare_rtt main_fn_address none units = pure tt
  prepare_rtt main_fn_address (some rtt_buffer_address) units =
      if units == 0
      then fail rtt_without_breakpoints
      else set_rtt_to_blocking main_fn_address rtt_buffer_address

  unfoldable pub start_program :
      (main_fn_address : ℕ)
      → (rtt_buffer_address : Option ℕ) → (hard_fault : ℕ) → Exec core.State (Unit {0})
  unfolding prepare_rtt
  start_program main_fn_address rtt_buffer_address hard_fault = do
    units ← core.available_breakpoint_units
    prepare_rtt main_fn_address rtt_buffer_address units
    core.set_hw_breakpoint (clear_thumb_bit hard_fault)
    core.run

-- what `Rtt::attach_region` of probe-rs answers: the up channel 0, if there is one
pub data Attach (Channel : Type 0) : Type 0 where
  attached : Option Channel → Attach Channel
  not_found : Attach Channel
  failed : Error → Attach Channel

abbrev pub num_retries : ℕ
num_retries = 10

module _ {S Channel : Type 0} (attach : S → Attach Channel × S) where
  -- an answer, and what follows if the control block was not found
  abbrev pub answer : Attach Channel → Result Channel × S → S → Result Channel × S
  answer (attached (some channel)) later s = (ok channel, s)
  answer (attached none) later s = (err no_up_channel, s)
  answer not_found later s = later
  answer (failed e) later s = (err e, s)

  -- the loop
  unfoldable pub attempts : ℕ → Exec S Channel
  attempts zero s = (err control_block_not_found, s)
  attempts (suc n) s = let (r, t) = attach s in answer r (attempts n t) t

  unfoldable pub setup_logging_channel : Exec S Channel
  unfolding attempts
  setup_logging_channel = attempts num_retries
