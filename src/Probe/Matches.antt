-- ===== src/Probe/Matches.antt =====
-- Which probes a filter of src/probe.rs asks for.
use mathlib.Core.Option.{some-injective}
use probe_run.Base.{
  ℕ, ◌≡◌, ◌↔◌, Bool, ◌&&◌, Option, none, arith, inl, inr, refl, ap, true, false, some, Bool-cases,
}
use probe_run.Base.Text.{Str, str_eq_sound, str_eq_refl}
use probe_run.Probe.{DebugProbeInfo, same_ids, is_serial, same_serial, selected}
use probe_run.Probe.Filter.{ProbeFilter}

-- What the parts of a filter ask for: these two ids, if it has ids; this serial number, if it has one.
-- A probe without a serial number matches no filter that has one.
abbrev pub HasIds : Option (ℕ × ℕ) → DebugProbeInfo → Type 0
HasIds none probe = Unit
HasIds (some (vid, pid)) probe = (probe.vendor_id ≡ vid) × (probe.product_id ≡ pid)

abbrev pub HasSerial : Option Str → DebugProbeInfo → Type 0
HasSerial none probe = Unit
HasSerial (some serial) probe = probe.serial_number ≡ some serial

abbrev pub Matches : ProbeFilter → DebugProbeInfo → Type 0
Matches selector probe = HasIds selector.vid_pid probe × HasSerial selector.serial probe

same_ids_iff :
    (ids : Option (ℕ × ℕ)) (probe : DebugProbeInfo) → (same_ids ids probe ≡ true) ↔ HasIds ids probe
same_ids_iff none probe = (λ h. tt, λ h. refl)
same_ids_iff (some (vid, pid)) probe = (λ h. (ground arith, ground arith), λ (v, p). ground arith)

is_serial_iff :
    (number : Option Str) (serial : Str) → (is_serial number serial ≡ true) ↔ (number ≡ some serial)
is_serial_iff none serial = (λ h. cc, λ h. cc)
is_serial_iff (some number) serial = (
  λ h. ap some (str_eq_sound number serial h),
  λ h. rw (some-injective number serial h) (str_eq_refl serial),
)

same_serial_iff :
    (serial : Option Str) (probe : DebugProbeInfo)
    → (same_serial serial probe ≡ true) ↔ HasSerial serial probe
same_serial_iff none probe = (λ h. tt, λ h. refl)
same_serial_iff (some serial) probe = is_serial_iff probe.serial_number serial

and_iff : (a b : Bool) → ((a && b) ≡ true) ↔ ((a ≡ true) × (b ≡ true))
and_iff a b = (λ h. (ground arith, ground arith), λ (x, y). ground arith)

pub selected-Matches :
    (selector : ProbeFilter) (probe : DebugProbeInfo)
    → (selected selector probe ≡ true) ↔ Matches selector probe
unfolding selected
selected-Matches selector probe =
    let both = and_iff (same_ids selector.vid_pid probe) (same_serial selector.serial probe) in
    let ids = same_ids_iff selector.vid_pid probe in
    let serial = same_serial_iff selector.serial probe in
    (λ h. let (a, b) = both.0 h in (ids.0 a, serial.0 b), λ (a, b). both.1 (ids.1 a, serial.1 b))

pub unselected-Matches :
    (selector : ProbeFilter) (probe : DebugProbeInfo)
    → (selected selector probe ≡ false) ↔ (¬ Matches selector probe)
unselected-Matches selector probe = (
  λ h k. let hit = (selected-Matches selector probe).1 k in cc,
  λ h. elim (Bool-cases (selected selector probe)) [
    | inl hit ↦ absurd (h ((selected-Matches selector probe).0 hit))
    | inr miss ↦ miss
  ],
)
