-- ===== src/Tests/Commands.antt =====
-- The commands of `main`, on the scripted host.
use probe_run.Base.{◌≡◌, refl, true, none, some, List, [], ◌∷◌, ◌++◌}
use probe_run.Base.Text.{Str, str}
use probe_run.Result.{ok}
use probe_run.Exec.{pure}
use probe_run.Cli
use probe_run.Cli.{extract_git_hash}
use probe_run.Cli.Options.{Opts}
use probe_run.Cli.Output.{ChipFamily, chip_lines, print_chips, join, print_version}
use probe_run.Main.{Terminal, configure_terminal_colorization, carry_out, handle_arguments, main}
use probe_run.Tests.World.{World, world_core, world_host}
use probe_run.Tests.Logging.{opts}
use probe_run.Tests.Running.{setup, env, world}

abbrev family : ChipFamily
family = record { name = str "nRF52"; variants = str "A" ∷ str "B" ∷ [] }

abbrev flat : List Str → Str
flat [] = []
flat (line ∷ rest) = line ++ b'/' ∷ flat rest

abbrev terminal : Terminal world_core
terminal = record {
  version = str "0.3";
  git_describe = str "v0.3-1-gabc";
  defmt_versions = str "3" ∷ str "4" ∷ [];
  term = λ s. some (str "dumb");
  set_override = λ b s. s;
  families = pure (family ∷ []);
  print_lines = λ lines s. record s { output = s.output ++ flat lines };
  print_probes = λ lines s. s;
  deprecated = λ s. record s { output = b'!' ∷ [] };
  warn_of_measure_stack = λ s. s;
}

abbrev chips_opts : Opts
chips_opts = record opts { list_chips = true; elf = none; chip = none }

abbrev version_opts : Opts
version_opts = record opts { version = true; elf = none; chip = none }

listed :
    main world_host setup env terminal chips_opts world
    ≡ (ok (some 0), record world { output = str "!nRF52/    Variants:/        A/        B/" })
unfolding main configure_terminal_colorization handle_arguments carry_out Cli.handle_arguments
    chip_lines print_chips
listed = refl

printed :
    main world_host setup env terminal version_opts world
    ≡ (ok (some 0), record world { output = str "!0.3 gabc/supported defmt versions: 3, 4/" })
unfolding main configure_terminal_colorization handle_arguments carry_out Cli.handle_arguments
    print_version extract_git_hash join
printed = refl

-- the core is not looked at and not halted
abbrev IsUntouched : World → Type 0
IsUntouched s = (s.halted ≡ world.halted) × (s.halts ≡ 0)
