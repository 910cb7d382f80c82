-- ===== src/Logs/Poll/Laws.antt =====
-- When the loop of src/main.rs that waits for the program ends.
use probe_run.Base.{
  ℕ, zero, suc, ◌≤◌, ◌<◌, ◌≡◌, ◌↔◌, ◌⊎◌, inl, inr, refl, ap, ◌∙◌, Bool, true, false, ◌&&◌, ◌||◌,
  Option, some, List, [], ◌∷◌, length, arith, Bool-cases, if◌then◌else◌, subst,
}
use probe_run.Result.{Result, ok, err, panic}
use probe_run.Exec.{Exec, pure, continue, ◌>>=◌}
use probe_run.Core.{Core}
use probe_run.Logs.Host.{Host}
use probe_run.Logs.Poll.{
  Read, forwarded, broken, exhausted, Flow, again, leave, Decoding, read_logs, poll_core, round,
  go_on, unless_exit, poll,
}

-- whether two polls in a row, the first of them `was_halted`, found the core halted
abbrev pub halted_twice : (was_halted : Bool) → List Bool → Bool
halted_twice was_halted [] = false
halted_twice was_halted (p ∷ rest) = (p && was_halted) || halted_twice p rest

and_true : (p q : Bool) → (p && q) ≡ true → (p ≡ true) × (q ≡ true)
and_true p q h = (ground arith, ground arith)

module _ {core : Core} (host : Host core) (log : host.decoder.Frame → core.State → core.State)
    (rounds : host.decoder.State → ℕ) (channel : Option host.Channel) where
  abbrev State : Type 0
  State = core.State

  -- a poll of the core that no signal and no failure comes before: what it found, and the states of the
  -- decoder and of the core
  abbrev pub Poll : Decoding host → State → Bool → Decoding host → State → Type 0
  Poll d s found d' s' =
      (t : State) × (u : State) × (host.load_exit s ≡ (false, t))
      × (read_logs host log rounds channel d t ≡ (ok (forwarded d'), u))
      × (core.core_halted u ≡ (ok found, s'))

  -- polls one after the other, with what they found; the last value is that of the last poll
  abbrev pub Polls :
      Bool → Decoding host → State → List Bool → Bool → Decoding host → State → Type 0
  Polls was d s [] was' d' s' = (was ≡ was') × (d ≡ d') × (s ≡ s')
  Polls was d s (p ∷ rest) was' d' s' =
      (e : Decoding host) × (t : State) × Poll d s p e t × Polls p e t rest was' d' s'

  -- The three ways in which a round is the last.
  pub data Ends (was : Bool) (d : Decoding host) (s s' : State) : Type 0 where
    by_signal : host.load_exit s ≡ (true, s') → Ends was d s s'
    by_channel :
        (t : State)
        → host.load_exit s ≡ (false, t)
        → read_logs host log rounds channel d t ≡ (ok broken, s')
        → Ends was d s s'
    by_halt : (d' : Decoding host) → was ≡ true → Poll d s true d' s' → Ends was d s s'

  -- the end of the loop: polls of which no two in a row found the core halted, then a last round
  abbrev pub EndsWithin : ℕ → Bool → Decoding host → State → State → Type 0
  EndsWithin fuel was d s s' =
      (found : List Bool) × (was' : Bool) × (d' : Decoding host) × (t : State) × (length found
        < fuel)
      × Polls was d s found was' d' t
      × (halted_twice was found ≡ false)
      × Ends was' d' t s'

  poll_again :
      (fuel : ℕ) (was found : Bool) (d d' : Decoding host) (s s' : State)
      → Poll d s found d' s'
      → (found && was) ≡ false
      → poll host log rounds (suc fuel) channel was d s
        ≡ poll host log rounds fuel channel found d' s'
  unfolding poll round
  poll_again fuel was found d d' s s' (t, u, load, read, halted) once =
      rw load (rw read (rw halted (rw once)))

  poll-Ends :
      (fuel : ℕ) (was : Bool) (d : Decoding host) (s s' : State)
      → Ends was d s s'
      → poll host log rounds (suc fuel) channel was d s ≡ (ok (some tt), s')
  unfolding poll round
  poll-Ends fuel was d s s' (by_signal load) = rw load
  poll-Ends fuel was d s s' (by_channel t load read) = rw load (rw read)
  poll-Ends fuel was d s s' (by_halt d' halted (t, u, load, read, found)) =
      rw load (rw read (rw found (rw halted)))

  poll_complete :
      (fuel : ℕ) (was : Bool) (d : Decoding host) (s s' : State)
      → EndsWithin fuel was d s s'
      → poll host log rounds fuel channel was d s ≡ (ok (some tt), s')
  poll_complete zero was d s s' (found, was', d', t, few, polls, once, ends) = absurd (omega arith)
  poll_complete (suc fuel) was d s s' ([], was', d', t, few, (a, b, c), once, ends) =
      poll-Ends fuel was d s s' (rw (a, b, c) ends)
  poll_complete (suc fuel) was d s s' (p ∷ rest, was', d', t, few, (e, u, one, polls), once, ends) =
      poll_again fuel was p d e s u one (ground arith)
      ∙ poll_complete fuel p e u s' (rest, was', d', t, omega arith, polls, ground arith, ends)

  -- what follows a round that is not the last
  abbrev GoesOn : ℕ → Bool → Decoding host → State → State → Type 0
  GoesOn fuel was d s s' =
      (found : Bool) × (d' : Decoding host) × (t : State) × Poll d s found d' t
      × ((found && was) ≡ false)
      × (poll host log rounds fuel channel found d' t ≡ (ok (some tt), s'))

  abbrev more : ℕ → Flow (Decoding host) → Exec State (Option (Unit {0}))
  more fuel flow = go_on host log rounds flow (poll host log rounds fuel channel)

  core_inv :
      (fuel : ℕ) (was : Bool) (d d' : Decoding host) (s t u s' : State) (r : Result Bool × State)
      → host.load_exit s ≡ (false, t)
      → read_logs host log rounds channel d t ≡ (ok (forwarded d'), u)
      → core.core_halted u ≡ r
      → (continue r.0 (λ is_halted. pure (if is_halted && was then leave else again is_halted d'))
            >>= more fuel)
          r.1
        ≡ (ok (some tt), s')
      → Ends was d s s' ⊎ GoesOn fuel was d s s'
  core_inv fuel true d d' s t u s' (ok true, v) load read at h =
      inl (by_halt d' refl (t, u, load, read, at ∙ ap (λ q. (ok true, q.1)) h))
  core_inv fuel false d d' s t u s' (ok true, v) load read at h =
      inr (true, d', v, (t, u, load, read, at), refl, h)
  core_inv fuel was d d' s t u s' (ok false, v) load read at h =
      inr (false, d', v, (t, u, load, read, at), refl, h)
  core_inv fuel was d d' s t u s' (err e, v) load read at h = cc
  core_inv fuel was d d' s t u s' (panic p, v) load read at h = cc

  read_inv :
      (fuel : ℕ) (was : Bool) (d : Decoding host) (s t s' : State)
      (r : Result (Read (Decoding host)) × State)
      → host.load_exit s ≡ (false, t)
      → read_logs host log rounds channel d t ≡ r
      → (continue r.0 (poll_core host log rounds was) >>= more fuel) r.1 ≡ (ok (some tt), s')
      → Ends was d s s' ⊎ GoesOn fuel was d s s'
  read_inv fuel was d s t s' (ok (forwarded d'), u) load read h =
      core_inv fuel was d d' s t u s' (core.core_halted u) load read refl h
  read_inv fuel was d s t s' (ok broken, u) load read h =
      inl (by_channel t load (read ∙ ap (λ q. (ok broken, q)) (ap (λ q. q.1) h)))
  read_inv fuel was d s t s' (ok exhausted, u) load read h = cc
  read_inv fuel was d s t s' (err e, u) load read h = cc
  read_inv fuel was d s t s' (panic p, u) load read h = cc

  exit_inv :
      (fuel : ℕ) (was : Bool) (d : Decoding host) (s s' : State) (r : Bool × State)
      → host.load_exit s ≡ r
      → unless_exit host log rounds r.0 (round host log rounds channel was d >>= more fuel) r.1
        ≡ (ok (some tt), s')
      → Ends was d s s' ⊎ GoesOn fuel was d s s'
  unfolding round
  exit_inv fuel was d s s' (true, t) load h = inl (by_signal (load ∙ ap (λ q. (true, q.1)) h))
  exit_inv fuel was d s s' (false, t) load h =
      read_inv fuel was d s t s' (read_logs host log rounds channel d t) load refl h

  poll_sound :
      (fuel : ℕ) (was : Bool) (d : Decoding host) (s s' : State)
      → poll host log rounds fuel channel was d s ≡ (ok (some tt), s')
      → EndsWithin fuel was d s s'
  unfolding poll
  poll_sound zero was d s s' h = cc
  poll_sound (suc fuel) was d s s' h =
      by_round (λ found d' t k. poll_sound fuel found d' t s' k)
        (exit_inv fuel was d s s' (host.load_exit s) refl h)
    where
      by_round :
          ((found : Bool) (d' : Decoding host) (t : State)
            → poll host log rounds fuel channel found d' t ≡ (ok (some tt), s')
            → EndsWithin fuel found d' t s')
          → Ends was d s s' ⊎ GoesOn fuel was d s s'
          → EndsWithin (suc fuel) was d s s'
      by_round ih (inl ends) = ([], was, d, s, omega arith, (refl, refl, refl), refl, ends)
      by_round ih (inr (found, e, u, one, once, k)) =
          let (rest, was', d', t, few, polls, never, ends) = ih found e u k in
          (found ∷ rest, was', d', t, omega (arith, few), (e, u, one, polls), rw once never, ends)

  -- The loop ends exactly if, within the rounds that the fuel allows, there come a number of polls of
  -- which no two in a row found the core halted, and then a round that a signal ends, or an error of
  -- the channel, or a second poll in a row that finds the core halted.
  pub poll_iff :
      (fuel : ℕ) (was : Bool) (d : Decoding host) (s s' : State)
      → (poll host log rounds fuel channel was d s ≡ (ok (some tt), s'))
        ↔ EndsWithin fuel was d s s'
  poll_iff fuel was d s s' = (poll_sound fuel was d s s', poll_complete fuel was d s s')

  -- While no signal comes and nothing fails, the loop ends as soon as two polls in a row have found
  -- the core halted, if the fuel is enough for these polls.
  pub poll_ends :
      (fuel : ℕ) (found : List Bool) (was was' : Bool) (d d' : Decoding host) (s s' : State)
      → Polls was d s found was' d' s'
      → halted_twice was found ≡ true
      → length found ≤ fuel
      → (t : State) × (poll host log rounds fuel channel was d s ≡ (ok (some tt), t))
  poll_ends fuel [] was was' d d' s s' polls twice enough = cc
  poll_ends zero (p ∷ rest) was was' d d' s s' polls twice enough = absurd (omega arith)
  poll_ends (suc fuel) (p ∷ rest) was was' d d' s s' (e, t, one, polls) twice enough =
      elim (Bool-cases (p && was)) [
        | inl both ↦
            let (found, halted) = and_true p was both in
            (t, poll-Ends fuel was d s t (by_halt e halted (subst (λ b. Poll d s b e t) found one)))
        | inr once ↦
            let (u, ended) =
              poll_ends fuel rest p was' e d' t s' polls (ground arith) (omega arith) in
            (u, poll_again fuel was p d e s t one once ∙ ended)
      ]
