-- ===== src/Tests/Concluding.antt =====
-- The end of a run whose program stopped in an interrupt handler, and of one whose core cannot be read.
use probe_run.Base.{ℕ, ◌==◌, if◌then◌else◌, ◌≡◌, refl, arith, true, false, none, some, List, []}
use probe_run.Result.{ok, external}
use probe_run.Exec.{Exec, fail, pure, ◌>>◌}
use probe_run.Cortexm.{is_hard_fault}
use probe_run.Core.{Core}
use probe_run.Startup.{attached}
use probe_run.Elf.Parse.{Elf}
use probe_run.TargetInfo.{TargetInfo}
use probe_run.Logs.Decode.{StreamDecoder, unexpected_eof}
use probe_run.Logs.Host.{Host}
use probe_run.Logs.Print.{timeout}
use probe_run.Backtrace.Settings
use probe_run.Backtrace.Settings.{Settings, auto}
use probe_run.Backtrace.Print.{Report}
use probe_run.Run.Equipment.{Setup}
use probe_run.Run.{Env, conclude}
use probe_run.Run.Traced.{Reports, code_of, conclude-Reports}
use probe_run.Backtrace.Unwind.Target.{lr_unread}
use probe_run.Run.Unread.{Told, conclude-Unread}
use probe_run.Tests.Device.{Memory, memory_core}
use probe_run.Tests.Logging.{opts, image}
use probe_run.Tests.Running.{setup_of, env_of}
use probe_run.Tests.Tracing.{context, memory, frames, chain}

abbrev decoder : StreamDecoder
decoder = record {
  State = Unit;
  Frame = Unit;
  index = λ b. 0;
  received = λ bytes d. d;
  decode = λ d. (unexpected_eof, d);
}

-- nothing is logged, and no signal comes
abbrev host_of : (core : Core) → Host core
host_of core = record {
  decoder = decoder;
  new_stream_decoder = λ table. tt;
  Channel = Unit;
  channel_name = λ c. none;
  attach_region = λ memory_map address s. (attached none, s);
  read = λ c. pure [];
  log_defmt = λ b info s. s;
  write_all = λ bytes. pure tt;
  flush = pure tt;
  register = pure tt;
  unregister = λ s. s;
  register_conditional_default = pure tt;
  load_exit = λ s. (false, s);
}

abbrev host : Host memory_core
host = host_of memory_core

abbrev setup : Setup memory_core
setup = setup_of memory_core

abbrev env : Env memory_core host
env = env_of host (λ d. 1) 3

abbrev elf : Elf
elf = record image { debug_frame = context.debug_frame; vector_table = context.vector_table }

abbrev target_info : TargetInfo
target_info = record {
  active_ram_region = context.active_ram_region;
  memory_map = [];
  stack_info = none;
  stack_start = context.stack_start;
}

abbrev settings : Settings
settings = record {
  backtrace_limit = 50;
  backtrace = auto;
  halted_due_to_signal = true;
  include_addresses = false;
  shorten_paths = false;
  stack_overflow = false;
}

chosen : Settings.new true opts false ≡ ok settings
unfolding Settings.new
chosen = refl

conclude-Reports_example :
    (reports : List Report) × Reports host setup env elf target_info opts settings memory 0x502
      0x2000_0060 0x604 frames reports
    × (conclude host setup env elf target_info none opts (some true) memory
        ≡ (memory_core.reset_and_halt timeout
              >> pure (some (code_of (is_hard_fault 0x502 elf.vector_table) true)))
            (env.report reports memory))
conclude-Reports_example =
    conclude-Reports host setup env elf target_info opts none true false settings memory memory
      0x502 0x2000_0060 0xffff_fff9 0x604 frames refl chosen chain (omega arith) refl refl refl

-- a core whose link register cannot be read
abbrev read_but_lr : ℕ → Exec Memory ℕ
read_but_lr reg = if reg == 14 then fail (external 7) else pure 0x402

abbrev broken_core : Core
broken_core = record memory_core { read_core_reg = read_but_lr }

abbrev broken_host : Host broken_core
broken_host = host_of broken_core

abbrev broken_env : Env broken_core broken_host
broken_env = env_of broken_host (λ d. 1) 3

abbrev unlimited : Settings
unlimited = record settings { backtrace_limit = 0; halted_due_to_signal = false }

unlimited_chosen : Settings.new false (record opts { backtrace_limit = 0 }) false ≡ ok unlimited
unfolding Settings.new
unlimited_chosen = refl

conclude-Unread_example :
    (reports : List Report) × Told unlimited (external 7) reports
    × (conclude broken_host
          (setup_of broken_core)
          broken_env
          elf
          target_info
          none
          (record opts { backtrace_limit = 0 })
          (some false)
          memory
        ≡ (broken_core.reset_and_halt timeout >> pure (some (code_of false false)))
            (broken_env.report reports memory))
conclude-Unread_example =
    conclude-Unread broken_host (setup_of broken_core) broken_env elf target_info
      (record opts { backtrace_limit = 0 }) none false false unlimited memory memory memory
      (external 7) refl unlimited_chosen
      (lr_unread (external 7) 0x402 0x402 memory memory memory refl refl refl)
