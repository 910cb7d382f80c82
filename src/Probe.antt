-- ===== src/Probe.antt =====
-- src/probe.rs: which debug probe is opened. The list of the probes that are attached comes from
-- probe-rs, as an argument.
pub mod Filter
pub mod Matches
pub mod Laws
use probe_run.Base.{
  ℕ, ◌+◌, Bool, true, false, ◌&&◌, Option, none, some, List, [], ◌∷◌, ◌==◌, if◌then◌else◌,
}
use probe_run.Base.Text.{Str, str_eq}
use probe_run.Result.{Result, ok, err, no_probe, many_probes, ◌>>=◌}
use Filter.{ProbeFilter, from_str}

-- `probe_rs::DebugProbeInfo`
pub record DebugProbeInfo : Type 0 where
  pub vendor_id : ℕ
  pub product_id : ℕ
  pub serial_number : Option Str

abbrev pub same_ids : Option (ℕ × ℕ) → DebugProbeInfo → Bool
same_ids none probe = true
same_ids (some (vid, pid)) probe = probe.vendor_id == vid && probe.product_id == pid

abbrev pub is_serial : Option Str → Str → Bool
is_serial none serial = false
is_serial (some number) serial = str_eq number serial

abbrev pub same_serial : Option Str → DebugProbeInfo → Bool
same_serial none probe = true
same_serial (some serial) probe = is_serial probe.serial_number serial

unfoldable pub selected : ProbeFilter → DebugProbeInfo → Bool
selected selector probe = same_ids selector.vid_pid probe && same_serial selector.serial probe

unfoldable pub filter : List DebugProbeInfo → ProbeFilter → List DebugProbeInfo
unfolding selected
filter [] selector = []
filter (probe ∷ rest) selector =
    let kept = filter rest selector in if selected selector probe then probe ∷ kept else kept

-- the probes that are left by the option `--probe`
unfoldable pub filtered_probes : Option Str → List DebugProbeInfo → Result (List DebugProbeInfo)
unfolding filter from_str
filtered_probes none all_probes = ok all_probes
filtered_probes (some probe_opt) all_probes = do
  selector ← from_str probe_opt
  ok (filter all_probes selector)

-- the two checks on their number
unfoldable pub single : List DebugProbeInfo → Result DebugProbeInfo
single [] = err no_probe
single (probe ∷ []) = ok probe
single (probe ∷ another ∷ rest) = err many_probes

unfoldable pub choose : Option Str → List DebugProbeInfo → Result DebugProbeInfo
unfolding filtered_probes single
choose probe_opt all_probes = do probes ← filtered_probes probe_opt all_probes; single probes

-- `open`, with what probe-rs does on the device
module _ {Probe : Type 0} (open_info : DebugProbeInfo → Result Probe)
    (set_speed : Probe → ℕ → Result Probe) where
  abbrev pub with_speed : Option ℕ → Probe → Result Probe
  with_speed none probe = ok probe
  with_speed (some speed) probe = set_speed probe speed

  unfoldable pub open_probe :
      (probe_opt : Option Str) → (speed : Option ℕ) → List DebugProbeInfo → Result Probe
  unfolding choose
  open_probe probe_opt speed all_probes = do
    info ← choose probe_opt all_probes
    probe ← open_info info
    with_speed speed probe

-- a line of the list of probes; probe-rs formats the entries
pub data ProbeLine : Type 0 where
  found none_found : ProbeLine
  numbered : ℕ → DebugProbeInfo → ProbeLine

unfoldable pub numbered_lines : ℕ → List DebugProbeInfo → List ProbeLine
numbered_lines num [] = []
numbered_lines num (link ∷ rest) = numbered num link ∷ numbered_lines (num + 1) rest

unfoldable pub print : List DebugProbeInfo → List ProbeLine
unfolding numbered_lines
print [] = none_found ∷ []
print (probe ∷ rest) = found ∷ numbered_lines 0 (probe ∷ rest)
