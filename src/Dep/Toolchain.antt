-- ===== src/Dep/Toolchain.antt =====
-- src/dep/rust_std/toolchain.rs: the name of a rustup toolchain.
pub mod Laws
use probe_run.Base.{
  ℕ, ◌+◌, Bool, ◌&&◌, Option, none, some, List, [], ◌∷◌, ◌++◌, ◌==◌, if◌then◌else◌,
}
use probe_run.Base.Text.{Str, str, str_eq, starts_with, contains, split_once}
use probe_run.Base.Opt.{◌>>=◌}

pub data Channel : Type 0 where
  beta stable : Channel
  nightly : Option Str → Channel
  version : Str → Channel

pub record One52 : Type 0 where
  pub channel : Channel
  pub host : Str

pub data Toolchain : Type 0 where
  one52 : One52 → Toolchain
  verbatim : Str → Toolchain

-- `rest.split('-').next()`: the text before the first dash
unfoldable pub before_dash : Str → Str
before_dash [] = []
before_dash (c ∷ cs) = let more = before_dash cs in if c == b'-' then [] else c ∷ more

abbrev pub prepend : ℕ → Option (Str × Str) → Option (Str × Str)
prepend c none = none
prepend c (some (before, behind)) = some (c ∷ before, behind)

-- `rest.split(at_third_dash)`: the closure counts the dashes, so only the third one separates.
unfoldable pub split_third_dash : (count : ℕ) → Str → Option (Str × Str)
split_third_dash count [] = none
split_third_dash count (c ∷ cs) =
    let count' = (if c == b'-' then count + 1 else count) in
    let more = split_third_dash count' cs in
    if c == b'-' && count' == 3 then some ([], cs) else prepend c more

abbrev pub make : Channel → Str → One52
make channel host = record { channel = channel; host = host }

unfoldable pub nightly_from : Str → Option One52
unfolding before_dash split_third_dash
nightly_from rest =
    if starts_with (str "20") (before_dash rest)
    then (do parts ← split_third_dash 0 rest; some (make (nightly (some parts.0)) parts.1))
    else some (make (nightly none) rest)

-- the branches on the text before the first dash
unfoldable pub by_channel : Str → Str → Option One52
unfolding nightly_from
by_channel maybe_channel rest =
    if str_eq maybe_channel (str "stable")
    then some (make stable rest)
    else if str_eq maybe_channel (str "beta")
    then some (make beta rest)
    else if str_eq maybe_channel (str "nightly")
    then nightly_from rest
    else if contains b'.' maybe_channel
    then some (make (version maybe_channel) rest)
    else none

unfoldable pub one52_from_str : Str → Option One52
unfolding by_channel split_once
one52_from_str input = do parts ← split_once b'-' input; by_channel parts.0 parts.1

unfoldable pub from_str : Str → Toolchain
unfolding one52_from_str
from_str input = elim (one52_from_str input) [
  | some toolchain ↦ one52 toolchain
  | none ↦ verbatim input
]

unfoldable pub channel_text : Channel → Str
channel_text beta = str "beta"
channel_text (nightly (some date)) = str "nightly-" ++ date
channel_text (nightly none) = str "nightly"
channel_text stable = str "stable"
channel_text (version text) = text

unfoldable pub format_short : Toolchain → Str
unfolding channel_text
format_short (one52 toolchain) = channel_text toolchain.channel
format_short (verbatim text) = text

-- `bold` and `dimmed` are those of the `colored` crate.
module _ (bold dimmed : Str → Str) where
  unfoldable pub format_highlight : Toolchain → Str
  unfolding channel_text
  format_highlight (one52 toolchain) =
      bold (channel_text toolchain.channel) ++ (dimmed (str "-") ++ dimmed toolchain.host)
  format_highlight (verbatim text) = text
