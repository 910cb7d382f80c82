-- ===== src/Probe/Filter/Laws.antt =====
-- The parse of the probe filter of src/probe.rs against a printer.
use probe_run.Base.{
  ℕ, ◌+◌, ◌-◌, ◌*◌, ◌/◌, ◌%◌, ◌^◌, ◌<◌, ◌≡◌, ap, ◌∙◌, true, false, Option, none, some, [], ◌∷◌,
  ◌++◌, ltb, ◌==◌, if◌then◌else◌, arith,
}
use probe_run.Base.Text.{Str}
use probe_run.Base.Split.{HasNo, split-last, split-append}
use probe_run.Result.{ok}
use probe_run.Probe.Filter.{hex_digit, hex_digits, u16_from_hex, from_parts, from_str}

-- a digit below 16 in lower case
abbrev pub digit_char : ℕ → ℕ
digit_char d = if ltb d 10 then b'0' + d else b'a' + d - 10

-- a 16-bit number as four hexadecimal digits
abbrev pub hex4 : ℕ → Str
hex4 n =
    digit_char (n / 4096 % 16)
    ∷ digit_char (n / 256 % 16)
    ∷ digit_char (n / 16 % 16)
    ∷ digit_char (n % 16)
    ∷ []

hex_digit-char : (d : ℕ) → d < 16 → hex_digit (digit_char d) ≡ some d
unfolding hex_digit
hex_digit-char d h = ground arith

hex_digits-cons :
    (value d : ℕ) (rest : Str)
    → d < 16
    → value * 16 + d < 2 ^ 16
    → hex_digits value (digit_char d ∷ rest) ≡ hex_digits (value * 16 + d) rest
unfolding hex_digits
hex_digits-cons value d rest h fits =
    let small : ltb (value * 16 + d) (2 ^ 16) ≡ true = ground arith in
    rw (hex_digit-char d h) (rw small)

hex_digits-nil : (k n : ℕ) → k ≡ n → hex_digits k [] ≡ ok n
unfolding hex_digits
hex_digits-nil k n e = ap ok e

hex_digits-hex4 : (n : ℕ) → n < 2 ^ 16 → hex_digits 0 (hex4 n) ≡ ok n
hex_digits-hex4 n h =
    hex_digits-cons 0 (n / 4096 % 16) _ (omega arith) (omega arith)
    ∙ hex_digits-cons (0 * 16 + n / 4096 % 16) (n / 256 % 16) _ (omega arith) (omega arith)
    ∙ hex_digits-cons ((0 * 16 + n / 4096 % 16) * 16 + n / 256 % 16) (n / 16 % 16) _ (omega arith)
        (omega arith)
    ∙ hex_digits-cons (((0 * 16 + n / 4096 % 16) * 16 + n / 256 % 16) * 16 + n / 16 % 16) (n % 16)
        [] (omega arith) (omega arith)
    ∙ hex_digits-nil _ n (omega arith)

u16_from_hex-hex4 : (n : ℕ) → n < 2 ^ 16 → u16_from_hex (hex4 n) ≡ ok n
unfolding u16_from_hex
u16_from_hex-hex4 n h =
    let digit : (digit_char (n / 4096 % 16) == b'+') ≡ false = ground arith in
    rw digit (hex_digits-hex4 n h)

hex4-HasNo : (n : ℕ) → HasNo b':' (hex4 n)
hex4-HasNo n = (ground arith, (ground arith, (ground arith, (ground arith, tt))))

abbrev pub show_serial : Option Str → Str
show_serial none = []
show_serial (some serial) = b':' ∷ serial

-- the text of the ids, if any, and of the serial number
abbrev pub show : Option (ℕ × ℕ) → Option Str → Str
show none none = []
show none (some serial) = serial
show (some (vid, pid)) serial = hex4 vid ++ b':' ∷ (hex4 pid ++ show_serial serial)

-- ids of 16 bits, a serial number without a colon, and at least one of them
abbrev pub IsShown : Option (ℕ × ℕ) → Option Str → Type 0
IsShown none none = true ≡ false
IsShown none (some serial) = HasNo b':' serial
IsShown (some (vid, pid)) none = (vid < 2 ^ 16) × (pid < 2 ^ 16)
IsShown (some (vid, pid)) (some serial) = (vid < 2 ^ 16) × (pid < 2 ^ 16) × HasNo b':' serial

-- A filter of ids of 16 bits, of a serial number without a colon, or of both, is parsed back from
-- its text: `VID:PID` in hexadecimal digits, `Serial`, or `VID:PID:Serial`.
pub from_str-show :
    (ids : Option (ℕ × ℕ)) (serial : Option Str)
    → IsShown ids serial
    → from_str (show ids serial) ≡ ok (record { vid_pid = ids; serial = serial })
unfolding from_str from_parts
from_str-show none none h = cc
from_str-show none (some serial) h = rw (split-last b':' serial h)
from_str-show (some (vid, pid)) none (v, p) =
    rw (split-append b':' (hex4 vid) (hex4 pid ++ []) (hex4-HasNo vid)) (
      rw (split-last b':' (hex4 pid) (hex4-HasNo pid))
        (rw (u16_from_hex-hex4 vid v) (rw (u16_from_hex-hex4 pid p))))
from_str-show (some (vid, pid)) (some serial) (v, p, colonless) =
    rw (split-append b':' (hex4 vid) (hex4 pid ++ b':' ∷ serial) (hex4-HasNo vid)) (
      rw (split-append b':' (hex4 pid) serial (hex4-HasNo pid)) (
        rw (split-last b':' serial colonless)
          (rw (u16_from_hex-hex4 vid v) (rw (u16_from_hex-hex4 pid p)))))
