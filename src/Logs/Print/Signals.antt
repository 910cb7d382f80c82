-- ===== src/Logs/Print/Signals.antt =====
-- What src/main.rs does behind the loop that waits for the program, where the flag of the signal is read.
use probe_run.Base.{◌≡◌, sym, ap, ◌∙◌, Bool, true, false, subst}
use probe_run.Result.{Result, ok, ok-injective}
use probe_run.Exec.{◌>>=◌, ◌>>◌, >>=-eq-ok}
use probe_run.Core.{Core}
use probe_run.Logs.Host.{Host}
use probe_run.Logs.Print.{timeout, stop_on_signal, halt_if, load}

-- What signal_hook documents of the flag `exit`: nothing clears it, and once the handler is
-- unregistered nothing sets it.
pub record Signals {core : Core} (host : Host core) : Type 1 where
  pub Off : Bool → core.State → Type 0
  pub off : (s : core.State) → (exit : Bool) × Off exit (host.unregister s)
  pub load_off : (exit : Bool) (s : core.State) → Off exit s → host.load_exit s ≡ (exit, s)
  pub keeps_default :
      (exit : Bool) (s t : core.State) (r : Result (Unit {0}))
      → host.register_conditional_default s ≡ (r, t)
      → Off exit s
      → Off exit t
  pub keeps_halt :
      (exit : Bool) (s t : core.State) (r : Result (Unit {0}))
      → core.halt timeout s ≡ (r, t)
      → Off exit s
      → Off exit t
  pub sticks :
      (exit : Bool) (s t : core.State)
      → host.load_exit s ≡ (true, t)
      → Off exit (host.unregister t)
      → exit ≡ true

module _ {core : Core} (host : Host core) (signals : Signals host) where
  -- a signal makes the core be halted
  abbrev pub Halts : (signal : Bool) → (s s' : core.State) → Type 0
  Halts true s s' = core.halt timeout s ≡ (ok tt, s')
  Halts false s s' = s ≡ s'

  -- what is done behind the loop
  abbrev pub Ended : (signal : Bool) → (s s' : core.State) → Type 0
  Ended signal s s' =
      (t : core.State) × (host.register_conditional_default (host.unregister s) ≡ (ok tt, t))
      × Halts signal t s'

  pub stop_on_signal-Ended :
      (s s' : core.State) (signal : Bool)
      → stop_on_signal host s ≡ (ok signal, s')
      → signals.Off signal (host.unregister s) × Ended signal s s'
  unfolding stop_on_signal
  stop_on_signal-Ended s s' signal h =
      let (exit, closed) = signals.off s in
      let (u, t, default, rest) =
        >>=-eq-ok host.register_conditional_default
          (λ _. load host >>= λ e. halt_if host e >> load host) (host.unregister s) s' signal h in
      let (off, halts) =
        after exit t closed (signals.keeps_default exit (host.unregister s) t (ok u) default closed)
          rest in
      (off, (t, default, halts))
    where
      last :
          (exit : Bool) (t : core.State)
          → signals.Off exit t
          → load host t ≡ (ok signal, s')
          → (exit ≡ signal) × (t ≡ s')
      last exit t off h =
          let same : (ok exit, t) ≡ (ok signal, s') =
            ap (λ q. (ok q.0, q.1)) (sym (signals.load_off exit t off)) ∙ h in
          (ok-injective (ap (λ q. q.0) same), ap (λ q. q.1) same)

      after :
          (exit : Bool) (t : core.State)
          → signals.Off exit (host.unregister s)
          → signals.Off exit t
          → (load host >>= λ e. halt_if host e >> load host) t ≡ (ok signal, s')
          → signals.Off signal (host.unregister s) × Halts signal t s'
      after true t closed off h =
          let halting : (core.halt timeout >> load host) t ≡ (ok signal, s') =
            rw (signals.load_off true t off) at h in
          let (u, v, halted, loaded) =
            >>=-eq-ok (core.halt timeout) (λ _. load host) t s' signal halting in
          let (same, at) = last true v (signals.keeps_halt true t v (ok u) halted off) loaded in
          subst (λ b. signals.Off b (host.unregister s) × Halts b t s') same
            (closed, halted ∙ ap (λ q. (ok tt, q)) at)
      after false t closed off h =
          let (same, at) = last false t off (rw (signals.load_off false t off) at h) in
          subst (λ b. signals.Off b (host.unregister s) × Halts b t s') same (closed, at)
