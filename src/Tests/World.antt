-- ===== src/Tests/World.antt =====
-- A host for the tests: what the core, the channel and the signals do is a script.
use probe_run.Base.{
  ℕ, ◌+◌, ◌≡◌, refl, ap, ◌∙◌, sym, subst, Bool, true, false, ◌||◌, some, List, [], ◌∷◌, ◌++◌,
  length, inl, inr, arith, ◌==◌, if◌then◌else◌,
}
use probe_run.Base.Text.{str}
use probe_run.Result.{Result, ok, err, external}
use probe_run.Exec.{Exec, pure}
use probe_run.Core.{Core}
use probe_run.Startup.{attached}
use probe_run.Logs.Decode.{Decoded, frame, unexpected_eof, malformed, StreamDecoder}
use probe_run.Logs.Decode.Laws.{Consumes}
use probe_run.Logs.Host.{Host}
use probe_run.Logs.Print.Signals.{Signals}

pub record World : Type 0 where
  -- what the polls find; the core stays halted at the end
  pub halted : List Bool
  -- the reads of the channel
  pub input : List (List ℕ)
  -- at which looks at the flag a signal has come
  pub signals : List Bool
  pub exit : Bool
  pub handler : Bool
  pub output : List ℕ
  pub halts : ℕ

abbrev done : Exec World (Unit {0})
done = pure tt

abbrev pop_halted : List Bool → World → Result Bool × World
pop_halted [] w = (ok true, w)
pop_halted (b ∷ rest) w = (ok b, record w { halted = rest })

abbrev pub world_core : Core
world_core = record {
  State = World;
  read_core_reg = λ r. pure 0;
  write_core_reg = λ r v. done;
  read_8 = λ addr n. pure [];
  write_8 = λ addr bytes. done;
  read_32 = λ addr n. pure [];
  read_word_32 = λ addr. pure 0;
  write_word_32 = λ addr v. done;
  run = done;
  halt = λ t w. (ok tt, record w { halts = w.halts + 1 });
  reset_and_halt = λ t. done;
  wait_for_core_halted = λ t. done;
  core_halted = λ w. pop_halted w.halted w;
  available_breakpoint_units = pure 4;
  set_hw_breakpoint = λ a. done;
  clear_hw_breakpoint = λ a. done;
}

-- a byte is a frame, and 0 is malformed
abbrev decode : List ℕ → Decoded ℕ × List ℕ
decode [] = (unexpected_eof, [])
decode (b ∷ rest) = (if b == 0 then malformed else frame b, rest)

abbrev pub bytes_decoder : StreamDecoder
bytes_decoder = record {
  State = List ℕ;
  Frame = ℕ;
  index = λ b. b;
  received = λ bytes d. d ++ bytes;
  decode = decode;
}

pub bytes_decoder-Consumes : Consumes bytes_decoder length
bytes_decoder-Consumes [] e answer h = inl (sym (ap (λ q. q.0) h))
bytes_decoder-Consumes (b ∷ rest) e answer h =
    inr (let at : rest ≡ e = ap (λ q. q.1) h in omega (arith, ap length at))

abbrev pop_input : List (List ℕ) → World → Result (List ℕ) × World
pop_input [] w = (err (external 0), w)
pop_input (bytes ∷ rest) w = (ok bytes, record w { input = rest })

abbrev pop_signal : List Bool → World → Bool × World
pop_signal [] w = (w.exit, w)
pop_signal (b ∷ rest) w = (w.exit || b, record w { exit = w.exit || b; signals = rest })

abbrev load_exit : Bool → World → Bool × World
load_exit true w = pop_signal w.signals w
load_exit false w = (w.exit, w)

abbrev pub world_host : Host world_core
world_host = record {
  decoder = bytes_decoder;
  new_stream_decoder = λ table. [];
  Channel = Unit;
  channel_name = λ c. some (str "defmt");
  attach_region = λ memory_map address w. (attached (some tt), w);
  read = λ c w. pop_input w.input w;
  log_defmt = λ b info w. record w { output = w.output ++ b ∷ [] };
  write_all = λ bytes w. (ok tt, record w { output = w.output ++ bytes });
  flush = done;
  register = λ w. (ok tt, record w { handler = true });
  unregister = λ w. record w { handler = false };
  register_conditional_default = done;
  load_exit = λ w. load_exit w.handler w;
}

abbrev IsOff : Bool → World → Type 0
IsOff exit w = (w.handler ≡ false) × (w.exit ≡ exit)

pop_signal-exit :
    (script : List Bool) (w t : World) (b : Bool) → pop_signal script w ≡ (b, t) → t.exit ≡ b
pop_signal-exit [] w t b h = sym (ap (λ q. q.1.exit) h) ∙ ap (λ q. q.0) h
pop_signal-exit (c ∷ rest) w t b h = sym (ap (λ q. q.1.exit) h) ∙ ap (λ q. q.0) h

load_exit-exit :
    (handler : Bool) (w t : World) (b : Bool) → load_exit handler w ≡ (b, t) → t.exit ≡ b
load_exit-exit true w t b h = pop_signal-exit w.signals w t b h
load_exit-exit false w t b h = sym (ap (λ q. q.1.exit) h) ∙ ap (λ q. q.0) h

IsOff-kept :
    (exit : Bool) (s t : World)
    → s.handler ≡ t.handler
    → s.exit ≡ t.exit
    → IsOff exit s
    → IsOff exit t
IsOff-kept exit s t a b (handler, same) = (sym a ∙ handler, sym b ∙ same)

load_exit_unset : (exit : Bool) (s : World) → IsOff exit s → load_exit s.handler s ≡ (exit, s)
load_exit_unset exit s (handler, same) =
    subst (λ h. load_exit h s ≡ (exit, s)) (sym handler) (ap (λ b. (b, s)) same)

pub world_signals : Signals world_host
world_signals = record {
  Off = IsOff;
  off = λ s. (s.exit, (refl, refl));
  load_off = load_exit_unset;
  keeps_default =
      λ exit s t r h off. IsOff-kept exit s t (ap (λ q. q.1.handler) h) (ap (λ q. q.1.exit) h) off;
  keeps_halt =
      λ exit s t r h off. IsOff-kept exit s t (ap (λ q. q.1.handler) h) (ap (λ q. q.1.exit) h) off;
  sticks = λ exit s t h off. sym off.1 ∙ load_exit-exit s.handler s t true h;
}
