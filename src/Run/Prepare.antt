-- ===== src/Run/Prepare.antt =====
-- `lookup_probe_target`, `attach_to_probe` and `flash` of src/main.rs. What they log or print is left
-- out.
use probe_run.Base.{false, not, Option, none, some, if◌then◌else◌}
use probe_run.Base.Text.{Str}
use probe_run.Result.{no_elf_file}
use probe_run.Exec.{Exec, pure, fail, lift, ◌>>=◌, ◌>>◌}
use probe_run.Core.{Core}
use probe_run.Cli.Options.{Opts}
use probe_run.Dep.StdPath.{StdPath}
use probe_run.Probe.{open_probe}
use probe_run.TargetInfo.Compat.{check_processor_target_compatability}
use probe_run.Run.Equipment.{Setup, Target, DownloadOptions}

module _ {core : Core} (setup : Setup core) where
  abbrev add_description : Option StdPath → Exec core.State (Unit {0})
  add_description none = pure tt
  add_description (some cdp) = setup.add_target_from_yaml cdp

  unfoldable pub lookup_probe_target : StdPath → Str → Opts → Exec core.State Target
  unfolding check_processor_target_compatability
  lookup_probe_target elf_path chip_name opts s =
      (if not (setup.exists elf_path s) then fail no_elf_file else (do
        add_description opts.chip_description_path
        probe_target ← setup.get_target_by_name chip_name
        lift (check_processor_target_compatability probe_target.core_type elf_path)
        pure probe_target))
        s

  unfoldable pub attach_to_probe : Target → Opts → Exec core.State (Unit {0})
  attach_to_probe probe_target opts s =
      (do
        probe ←
            lift
              (open_probe setup.open_info setup.set_speed opts.probe opts.speed (setup.list_all s))
        if opts.connect_under_reset
            then setup.attach_under_reset probe probe_target opts.erase_all
            else setup.attach probe probe_target opts.erase_all)
        s

  abbrev pub download_options : Opts → DownloadOptions
  download_options opts = record {
    dry_run = false;
    disable_double_buffering = opts.disable_double_buffering;
    verify = opts.verify;
  }

  unfoldable pub flash : StdPath → Opts → Exec core.State (Unit {0})
  flash elf_path opts =
      if opts.no_flash
      then pure tt
      else ((if opts.erase_all then setup.erase_all else pure tt)
          >> setup.download elf_path (download_options opts))
