-- ===== src/Probe/Filter.antt =====
-- The probe filter of src/probe.rs, `VID:PID`, `VID:PID:Serial` or `Serial`.
pub mod Laws
use probe_run.Base.{
  ℕ, ◌+◌, ◌-◌, ◌*◌, ◌^◌, Option, none, some, List, [], ◌∷◌, ltb, ◌==◌, in_closed, if◌then◌else◌,
}
use probe_run.Base.Text.{Str}
use probe_run.Base.Split.{split}
use probe_run.Result.{
  Result, ok, err, invalid_filter, invalid_digit, empty_number, number_too_large, ok_or, ◌>>=◌,
}

pub record ProbeFilter : Type 0 where
  pub vid_pid : Option (ℕ × ℕ)
  pub serial : Option Str

-- `to_digit(16)`
unfoldable pub hex_digit : ℕ → Option ℕ
hex_digit c =
    if in_closed b'0' b'9' c
    then some (c - b'0')
    else if in_closed b'a' b'f' c
    then some (c - b'a' + 10)
    else if in_closed b'A' b'F' c
    then some (c - b'A' + 10)
    else none

-- the digits after a sign, on top of a number
unfoldable pub hex_digits : ℕ → Str → Result ℕ
unfolding hex_digit
hex_digits value [] = ok value
hex_digits value (c ∷ cs) = do
  digit ← ok_or (hex_digit c) invalid_digit
  let value' = value * 16 + digit
  if ltb value' (2 ^ 16) then hex_digits value' cs else err number_too_large

-- `u16::from_str_radix(s, 16)`: a plus sign may stand in front of a digit
unfoldable pub u16_from_hex : Str → Result ℕ
unfolding hex_digits
u16_from_hex [] = err empty_number
u16_from_hex (c ∷ []) = hex_digits 0 (c ∷ [])
u16_from_hex (c ∷ d ∷ cs) = if c == b'+' then hex_digits 0 (d ∷ cs) else hex_digits 0 (c ∷ d ∷ cs)

unfoldable pub from_parts : List Str → Result ProbeFilter
unfolding u16_from_hex
from_parts (serial ∷ []) = ok (record { vid_pid = none; serial = some serial })
from_parts (vid ∷ pid ∷ []) = do
  v ← u16_from_hex vid
  p ← u16_from_hex pid
  ok (record { vid_pid = some (v, p); serial = none })
from_parts (vid ∷ pid ∷ serial ∷ []) = do
  v ← u16_from_hex vid
  p ← u16_from_hex pid
  ok (record { vid_pid = some (v, p); serial = some serial })
from_parts _ = err invalid_filter

unfoldable pub from_str : Str → Result ProbeFilter
unfolding split from_parts
from_str s = from_parts (split b':' s)
