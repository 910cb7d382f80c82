-- ===== src/Logs/Decode.antt =====
-- `decode_and_print_defmt_logs` of src/main.rs. The stream decoder is one of defmt_decoder, a
-- parameter; the loop runs on fuel.
pub mod Laws
use probe_run.Base.{ℕ, zero, suc, Bool, Option, none, some, List, if◌then◌else◌}
use probe_run.Result.{Result, ok, err, malformed_frame}

-- what `decode` answers
pub data Decoded (Frame : Type 0) : Type 0 where
  frame : Frame → Decoded Frame
  unexpected_eof malformed : Decoded Frame

-- `defmt_decoder::StreamDecoder`: `State` holds the bytes that are not decoded yet.
pub record StreamDecoder : Type 1 where
  pub State : Type 0
  pub Frame : Type 0
  -- the index of the frame's format string
  pub index : Frame → ℕ
  pub received : List ℕ → State → State
  pub decode : State → Decoded Frame × State

-- `forward` hands a frame to the logger.
module _ (decoder : StreamDecoder) {S : Type 0} (forward : decoder.Frame → S → S)
    (encoding_can_recover : Bool) where
  -- one round of the loop, where `more` is what the loop does next; the decoder is given back
  unfoldable pub handle :
      Decoded decoder.Frame
      → decoder.State
      → (more : S → Result (Option decoder.State) × S) → S
      → Result (Option decoder.State) × S
  handle (frame f) d more s = more (forward f s)
  handle unexpected_eof d more s = (ok (some d), s)
  handle malformed d more s = if encoding_can_recover then more s else (err malformed_frame, s)

  -- `none` means that the fuel ran out
  unfoldable pub decode_and_print_defmt_logs :
      ℕ → decoder.State → S → Result (Option decoder.State) × S
  unfolding handle
  decode_and_print_defmt_logs zero d s = (ok none, s)
  decode_and_print_defmt_logs (suc fuel) d s =
      let (answer, d') = decoder.decode d in
      handle answer d' (decode_and_print_defmt_logs fuel d') s
