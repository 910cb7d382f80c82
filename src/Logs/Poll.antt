-- ===== src/Logs/Poll.antt =====
-- The loop of `print_logs` in src/main.rs: it forwards the logs and polls the core until a signal
-- comes, the channel fails or the core has been found halted twice in a row. It runs on fuel.
pub mod Laws
use probe_run.Base.{
  ℕ, zero, suc, Bool, true, false, ◌&&◌, Option, none, some, List, [], ◌∷◌, if◌then◌else◌,
}
use probe_run.Result.{Result, ok, err, panic}
use probe_run.Exec.{Exec, pure, continue, ◌>>=◌, ◌>>◌}
use probe_run.Core.{Core}
use probe_run.Logs.Host.{Host}
use probe_run.Logs.Decode.{StreamDecoder, decode_and_print_defmt_logs}

-- what the first part of a round comes to; `D` is the state of the decoder
pub data Read (D : Type 0) : Type 0 where
  forwarded : D → Read D
  -- the channel failed
  broken : Read D
  -- the fuel of the decoding loop ran out
  exhausted : Read D

-- whether the loop goes on, with the new value of `was_halted`
pub data Flow (D : Type 0) : Type 0 where
  again : (was_halted : Bool) → D → Flow D
  leave out_of_fuel : Flow D

module _ {core : Core} (host : Host core) where
  -- `decoder_and_encoding`: the decoder, and whether the encoding can recover
  abbrev pub Decoding : Type 0
  Decoding = Option (host.decoder.State × Bool)

-- `log` hands a frame to the logger with its location; `rounds` is the fuel that the decoding loop
-- gets for the state of the decoder.
module _ {core : Core} (host : Host core) (log : host.decoder.Frame → core.State → core.State)
    (rounds : host.decoder.State → ℕ) where
  abbrev decoded : Bool → Result (Option host.decoder.State) → Result (Read (Decoding host))
  decoded can_recover (ok (some d)) = ok (forwarded (some (d, can_recover)))
  decoded can_recover (ok none) = ok exhausted
  decoded can_recover (err e) = err e
  decoded can_recover (panic p) = panic p

  -- nothing is done with no bytes
  unfoldable pub forward_bytes : List ℕ → Decoding host → Exec core.State (Read (Decoding host))
  forward_bytes [] decoding s = (ok (forwarded decoding), s)
  forward_bytes (b ∷ bytes) none s =
      (host.write_all (b ∷ bytes) >> (host.flush >> pure (forwarded none))) s
  forward_bytes (b ∷ bytes) (some (d, can_recover)) s =
      let d' = host.decoder.received (b ∷ bytes) d in
      let (r, t) = decode_and_print_defmt_logs host.decoder log can_recover (rounds d') d' s in
      (decoded can_recover r, t)

  -- an error of the channel is printed, and ends the loop
  abbrev pub on_read : Result (List ℕ) → Decoding host → Exec core.State (Read (Decoding host))
  on_read (ok bytes) decoding s = forward_bytes bytes decoding s
  on_read (err e) decoding s = (ok broken, s)
  on_read (panic p) decoding s = (panic p, s)

  unfoldable pub read_logs :
      Option host.Channel → Decoding host → Exec core.State (Read (Decoding host))
  unfolding forward_bytes
  read_logs none decoding s = (ok (forwarded decoding), s)
  read_logs (some channel) decoding s = let (r, t) = host.read channel s in on_read r decoding t

  abbrev pub poll_core :
      (was_halted : Bool) → Read (Decoding host) → Exec core.State (Flow (Decoding host))
  poll_core was_halted (forwarded decoding) = do
    is_halted ← core.core_halted
    pure (if is_halted && was_halted then leave else again is_halted decoding)
  poll_core was_halted broken = pure leave
  poll_core was_halted exhausted = pure out_of_fuel

  unfoldable pub round :
      Option host.Channel → Bool → Decoding host → Exec core.State (Flow (Decoding host))
  unfolding read_logs
  round channel was_halted decoding = read_logs channel decoding >>= poll_core was_halted

  abbrev pub go_on :
      Flow (Decoding host)
      → (Bool → Decoding host → Exec core.State (Option (Unit {0})))
      → Exec core.State (Option (Unit {0}))
  go_on (again is_halted decoding) more = more is_halted decoding
  go_on leave more = pure (some tt)
  go_on out_of_fuel more = pure none

  -- `while !exit`
  abbrev pub unless_exit :
      Bool → Exec core.State (Option (Unit {0})) → Exec core.State (Option (Unit {0}))
  unless_exit true more s = (ok (some tt), s)
  unless_exit false more s = more s

  -- `none` means that the fuel ran out
  unfoldable pub poll :
      ℕ
      → Option host.Channel
      → (was_halted : Bool) → Decoding host
      → Exec core.State (Option (Unit {0}))
  unfolding round
  poll zero channel was_halted decoding s = (ok none, s)
  poll (suc fuel) channel was_halted decoding s =
      let (exit, t) = host.load_exit s in
      unless_exit exit
        (round channel was_halted decoding >>= λ flow. go_on flow (poll fuel channel)) t
