-- ===== src/Logs/Print/Laws.antt =====
-- How a wait that `print_logs` of src/main.rs reports came to its end.
use probe_run.Base.{ℕ, ◌≡◌, ◌⊎◌, inl, inr, Bool, true, false, Option, none, some, List}
use probe_run.Base.Text.{Str}
use probe_run.Result.{ok}
use probe_run.Exec.{Returns, >>=-Returns, Returns-elim}
use probe_run.Core.{Core}
use probe_run.TargetInfo.{MemoryRegion}
use probe_run.Dep.StdPath.{StdPath}
use probe_run.Cli.Options.{Opts}
use probe_run.Elf.Parse.{Elf, rtt_buffer_address}
use probe_run.Logs.Host.{Host}
use probe_run.Logs.Poll.{Decoding, poll, read_logs, broken}
use probe_run.Logs.Poll.Laws.{
  Poll, Polls, Ends, EndsWithin, by_signal, by_channel, by_halt, poll_iff,
}
use probe_run.Logs.Print.{
  open_channel, uses_defmt, check_table, decoder_and_encoding, stop_on_signal, forward_to_logger,
  wait, print_logs, reported, load,
}
use probe_run.Logs.Print.Signals.{Signals, Ended, stop_on_signal-Ended}

module _ {core : Core} (host : Host core) (signals : Signals host) where
  module _ (log : host.decoder.Frame → core.State → core.State) (rounds : host.decoder.State → ℕ)
      (channel : Option host.Channel) where
    -- the last round of a loop that no signal ended: the channel failed, or the core was found halted for
    -- the second time in a row
    abbrev pub Quiet : Bool → Decoding host → core.State → core.State → Type 0
    Quiet was d s s' =
        ((t : core.State) × (host.load_exit s ≡ (false, t))
          × (read_logs host log rounds channel d t ≡ (ok broken, s')))
        ⊎ ((was ≡ true) × (d' : Decoding host) × Poll host log rounds channel d s true d' s')

    -- the polls of the core from the start of the loop, and a last round without a signal
    abbrev pub EndsQuietly : Decoding host → core.State → core.State → Type 0
    EndsQuietly d s s' =
        (found : List Bool) × (was : Bool) × (d' : Decoding host) × (t : core.State) × Polls host
          log rounds channel false d s found was d' t
        × Quiet was d' t s'

    Ends-Quiet :
        (was : Bool) (d : Decoding host) (s s' : core.State)
        → Ends host log rounds channel was d s s'
        → signals.Off false (host.unregister s')
        → Quiet was d s s'
    Ends-Quiet was d s s' (by_signal load) off =
        absurd (let bad : false ≡ true = signals.sticks false s s' load off in cc)
    Ends-Quiet was d s s' (by_channel t load read) off = inl (t, load, read)
    Ends-Quiet was d s s' (by_halt d' halted one) off = inr (halted, d', one)

    left-EndsQuietly :
        (fuel : ℕ) (d : Decoding host) (s s' : core.State)
        → poll host log rounds fuel channel false d s ≡ (ok (some tt), s')
        → signals.Off false (host.unregister s')
        → EndsQuietly d s s'
    left-EndsQuietly fuel d s s' h off =
        let (found, was, d', t, few, polls, once, ends) =
          (poll_iff host log rounds channel fuel false d s s').0 h in
        (found, was, d', t, polls, Ends-Quiet was d' t s' ends off)

  module _ (bold dimmed : Str → Str) (strip_prefix : StdPath → Option StdPath)
      (rounds : host.decoder.State → ℕ) (elf : Elf) (memory_map : List MemoryRegion)
      (opts : Opts) where
    -- what the decoder starts with
    abbrev pub first_decoding : Option host.Channel → Decoding host
    first_decoding channel = decoder_and_encoding host (uses_defmt host channel) elf.defmt_table

    abbrev pub log : host.decoder.Frame → core.State → core.State
    log = forward_to_logger host bold dimmed strip_prefix elf.defmt_locations opts.shorten_paths

    -- how the loop ended, of a wait that a signal ended or not
    abbrev pub LeftBy : (signal : Bool) → Option host.Channel → (s s' : core.State) → Type 0
    LeftBy true channel s s' =
        (fuel : ℕ) × EndsWithin host log rounds channel fuel false (first_decoding channel) s s'
    LeftBy false channel s s' = EndsQuietly log rounds channel (first_decoding channel) s s'

    -- A wait from a state to another, that ended by a signal or not. Its loop ran from `begun` to `left`.
    pub record Reported (signal : Bool) (s s' : core.State) : Type 0 where
      pub channel : Option host.Channel
      pub handled : core.State
      pub registered : host.register s ≡ (ok tt, handled)
      pub attached : core.State
      pub opened :
          open_channel host memory_map (rtt_buffer_address elf) handled ≡ (ok channel, attached)
      pub begun : core.State
      pub checked :
          check_table host (uses_defmt host channel) opts.no_flash elf.defmt_table attached
          ≡ (ok tt, begun)
      pub left : core.State
      pub loop : LeftBy signal channel begun left
      pub ended : Ended host signals signal left s'

    abbrev MayReport : core.State → Option Bool → core.State → Type 0
    MayReport s none s' = Unit
    MayReport s (some signal) s' = Reported signal s s'

    left-LeftBy :
        (fuel : ℕ) (channel : Option host.Channel) (s t : core.State) (signal : Bool)
        → poll host log rounds fuel channel false (first_decoding channel) s ≡ (ok (some tt), t)
        → signals.Off signal (host.unregister t)
        → LeftBy signal channel s t
    left-LeftBy fuel channel s t true left off =
        (fuel, (poll_iff host log rounds channel fuel false (first_decoding channel) s t).0 left)
    left-LeftBy fuel channel s t false left off =
        left-EndsQuietly log rounds channel fuel (first_decoding channel) s t left off

    -- A wait that has a result began with the handler of the signal, the channel, and the check of the
    -- table; its loop ended; then the handler was taken off and the default of the signal set again. If
    -- the result is that a signal ended the wait, the core was halted last, and the state is the one
    -- that this left. If not, the loop ran through polls of the core without a signal, up to a round
    -- that found it halted for the second time in a row, or in which the channel failed, and nothing
    -- else was done behind it.
    pub print_logs-Reported :
        (fuel : ℕ) (s s' : core.State) (signal : Bool)
        → print_logs host bold dimmed strip_prefix rounds fuel elf memory_map opts s
          ≡ (ok (some signal), s')
        → Reported signal s s'
    unfolding print_logs wait
    print_logs-Reported fuel s s' signal h =
        Returns-elim (MayReport s)
          (print_logs host bold dimmed strip_prefix rounds fuel elf memory_map opts s) h
          (>>=-Returns (MayReport s) host.register _ s λ u s1 registered.
            >>=-Returns (MayReport s) (open_channel host memory_map (rtt_buffer_address elf)) _ s1
              λ channel s2 opened.
                >>=-Returns (MayReport s)
                  (check_table host (uses_defmt host channel) opts.no_flash elf.defmt_table) _ s2
                  λ v s3 checked.
                    >>=-Returns (MayReport s)
                      (poll host log rounds fuel channel false (first_decoding channel))
                      (reported host) s3
                      λ left t e4. behind channel s1 s2 s3 t left registered opened checked e4)
      where
        behind :
            (channel : Option host.Channel) (s1 s2 s3 t : core.State) (left : Option (Unit {0}))
            → host.register s ≡ (ok tt, s1)
            → open_channel host memory_map (rtt_buffer_address elf) s1 ≡ (ok channel, s2)
            → check_table host (uses_defmt host channel) opts.no_flash elf.defmt_table s2
              ≡ (ok tt, s3)
            → poll host log rounds fuel channel false (first_decoding channel) s3 ≡ (ok left, t)
            → Returns (MayReport s) (reported host left t)
        behind channel s1 s2 s3 t none registered opened checked run = tt
        behind channel s1 s2 s3 t (some tt) registered opened checked run =
            >>=-Returns (MayReport s) (stop_on_signal host) _ t λ signal s' stopped.
              let (off, ended) = stop_on_signal-Ended host signals t s' signal stopped in
              record {
                channel = channel;
                handled = s1;
                registered = registered;
                attached = s2;
                opened = opened;
                begun = s3;
                checked = checked;
                left = t;
                loop = left-LeftBy fuel channel s3 t signal run off;
                ended = ended;
              }
