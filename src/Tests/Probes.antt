-- ===== src/Tests/Probes.antt =====
-- The choice of the probe, its filter, and the version's hash, at concrete inputs.
use probe_run.Base.{◌≡◌, ◌↔◌, refl, none, some, [], ◌∷◌, ◌++◌, arith}
use probe_run.Base.Text.{str}
use probe_run.Result.{ok}
use probe_run.Probe.{DebugProbeInfo, choose}
use probe_run.Probe.Filter.{ProbeFilter, from_str, from_parts, u16_from_hex}
use probe_run.Probe.Filter.Laws.{show, from_str-show}
use probe_run.Probe.Laws.{choose_iff, IsOnly}
use probe_run.Cli.{extract_git_hash, extract_git_hash_lem, suffix}

from_str-show_example :
    from_str (show (some (0x1366, 0x1015)) (some (str "683")))
    ≡ ok (record { vid_pid = some (0x1366, 0x1015); serial = some (str "683") })
from_str-show_example =
    from_str-show (some (0x1366, 0x1015)) (some (str "683"))
      (omega arith, omega arith, (refl, (refl, (refl, tt))))

abbrev jlink : DebugProbeInfo
jlink = record { vendor_id = 0x1366; product_id = 0x1015; serial_number = some (str "683") }

abbrev stlink : DebugProbeInfo
stlink = record { vendor_id = 0x0483; product_id = 0x374b; serial_number = none }

abbrev by_ids : ProbeFilter
by_ids = record { vid_pid = some (0x1366, 0x1015); serial = some (str "683") }

ids_parsed : from_str (str "1366:1015:683") ≡ ok by_ids
unfolding from_str from_parts u16_from_hex
ids_parsed = refl

choose_iff_example :
    (choose (some (str "1366:1015:683")) (stlink ∷ jlink ∷ []) ≡ ok jlink)
    ↔ IsOnly by_ids (stlink ∷ jlink ∷ []) jlink
choose_iff_example = choose_iff (str "1366:1015:683") by_ids (stlink ∷ jlink ∷ []) jlink ids_parsed

-- a tag with a dash of its own
extract_git_hash_lem_example :
    extract_git_hash
      (str "v0.3.0" ++ b'-' ∷ (str "rc" ++ b'-' ∷ (str "12" ++ suffix (some (str "g25c50d2")))))
    ≡ ok (str "12")
extract_git_hash_lem_example =
    extract_git_hash_lem (str "v0.3.0") (str "rc") (str "12") (some (str "g25c50d2"))
      (refl, (refl, (refl, (refl, (refl, (refl, tt)))))) (refl, (refl, tt)) (refl, (refl, tt))
