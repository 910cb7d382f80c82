-- ===== src/Logs/Decode/Laws.antt =====
-- What the decoding loop of src/main.rs hands to the logger.
use probe_run.Base.{
  ℕ, zero, suc, ◌<◌, ◌≡◌, ◌≢◌, ◌⊎◌, inl, inr, refl, Bool, true, false, ◌||◌, Option, none, some,
  List, [], ◌∷◌, length, arith, if◌then◌else◌,
}
use probe_run.Result.{ok, err, malformed_frame}
use probe_run.Logs.Decode.{
  Decoded, frame, unexpected_eof, malformed, StreamDecoder, decode_and_print_defmt_logs,
}

module _ (decoder : StreamDecoder) where
  -- what the decoder makes of its bytes up to their end: frames, and `none` for a malformed one
  abbrev pub Yields : decoder.State → List (Option decoder.Frame) → decoder.State → Type 0
  Yields d [] d' = decoder.decode d ≡ (unexpected_eof, d')
  Yields d (some f ∷ rest) d' =
      (e : decoder.State) × (decoder.decode d ≡ (frame f, e)) × Yields e rest d'
  Yields d (none ∷ rest) d' =
      (e : decoder.State) × (decoder.decode d ≡ (malformed, e)) × Yields e rest d'

  -- the frames that are to be logged: those in front of the first malformed one, if it is fatal
  abbrev pub to_log : (can_recover : Bool) → List (Option decoder.Frame) → List decoder.Frame
  to_log r [] = []
  to_log r (some f ∷ rest) = f ∷ to_log r rest
  to_log true (none ∷ rest) = to_log true rest
  to_log false (none ∷ rest) = []

  abbrev pub is_intact : List (Option decoder.Frame) → Bool
  is_intact [] = true
  is_intact (some f ∷ rest) = is_intact rest
  is_intact (none ∷ rest) = false

  -- Each answer but the end uses up some of what `size` counts.
  abbrev pub Consumes : (size : decoder.State → ℕ) → Type 0
  Consumes size =
      (d e : decoder.State) (answer : Decoded decoder.Frame)
      → decoder.decode d ≡ (answer, e)
      → (answer ≡ unexpected_eof) ⊎ (size e < size d)

  -- the answers of a decoder up to the end, fewer than `n`
  abbrev pub Answers : decoder.State → ℕ → Type 0
  Answers d n =
      (answers : List (Option decoder.Frame)) × (d' : decoder.State) × Yields d answers d'
      × (length answers < n)

  shrinks :
      (size : decoder.State → ℕ) (d e : decoder.State) (answer : Decoded decoder.Frame)
      → Consumes size
      → decoder.decode d ≡ (answer, e)
      → answer ≢ unexpected_eof
      → size e < size d
  shrinks size d e answer consumes at going = elim (consumes d e answer at) [
    | inl stop ↦ absurd (going stop)
    | inr less ↦ less
  ]

  yields_all :
      (size : decoder.State → ℕ) (n : ℕ) (d : decoder.State)
      → Consumes size
      → size d < n
      → Answers d n
  yields_all size zero d consumes small = absurd (omega arith)
  yields_all size (suc n) d consumes small =
      by_answer (λ e less. yields_all size n e consumes less) (decoder.decode d) refl
    where
      by_answer :
          ((e : decoder.State) → size e < n → Answers e n)
          → (r : Decoded decoder.Frame × decoder.State) → decoder.decode d ≡ r
          → Answers d (suc n)
      by_answer ih (unexpected_eof, e) at = ([], e, at, omega arith)
      by_answer ih (frame f, e) at =
          let (answers, d', yields, few) =
            ih e (omega (arith, small, shrinks size d e (frame f) consumes at (λ h. cc))) in
          (some f ∷ answers, d', (e, at, yields), omega (arith, few))
      by_answer ih (malformed, e) at =
          let (answers, d', yields, few) =
            ih e (omega (arith, small, shrinks size d e malformed consumes at (λ h. cc))) in
          (none ∷ answers, d', (e, at, yields), omega (arith, few))

module _ (decoder : StreamDecoder) {S : Type 0} (forward : decoder.Frame → S → S) where
  abbrev pub log_all : List decoder.Frame → S → S
  log_all [] s = s
  log_all (f ∷ rest) s = log_all rest (forward f s)

  -- With more fuel than the decoder has answers left, the loop logs the frames in their order, and
  -- nothing else: all of them if malformed frames can be passed over, else those in front of the
  -- first malformed one, and then it returns the error.
  pub decode_and_print_defmt_logs_lem :
      (can_recover : Bool) (fuel : ℕ) (d d' : decoder.State) (answers : List (Option decoder.Frame))
      (s : S)
      → Yields decoder d answers d'
      → length answers < fuel
      → decode_and_print_defmt_logs decoder forward can_recover fuel d s ≡ (
        (if can_recover || is_intact decoder answers then ok (some d') else err malformed_frame),
        log_all (to_log decoder can_recover answers) s,
      )
  unfolding decode_and_print_defmt_logs
  decode_and_print_defmt_logs_lem r zero d d' answers s h enough = absurd (omega arith)
  decode_and_print_defmt_logs_lem true (suc fuel) d d' [] s h enough = rw h
  decode_and_print_defmt_logs_lem false (suc fuel) d d' [] s h enough = rw h
  decode_and_print_defmt_logs_lem true (suc fuel) d d' (some f ∷ rest) s (e, at, h) enough =
      rw at (decode_and_print_defmt_logs_lem true fuel e d' rest (forward f s) h (omega arith))
  decode_and_print_defmt_logs_lem false (suc fuel) d d' (some f ∷ rest) s (e, at, h) enough =
      rw at (decode_and_print_defmt_logs_lem false fuel e d' rest (forward f s) h (omega arith))
  decode_and_print_defmt_logs_lem true (suc fuel) d d' (none ∷ rest) s (e, at, h) enough =
      rw at (decode_and_print_defmt_logs_lem true fuel e d' rest s h (omega arith))
  decode_and_print_defmt_logs_lem false (suc fuel) d d' (none ∷ rest) s (e, at, h) enough = rw at

  -- If each answer of the decoder but the end uses up some of what `size` counts, then more fuel than
  -- that is enough: the loop ends, having logged the frames that the decoder yields up to the end, or
  -- those in front of a malformed one that cannot be passed over.
  pub decode_and_print_defmt_logs_total :
      (size : decoder.State → ℕ) (can_recover : Bool) (fuel : ℕ) (d : decoder.State) (s : S)
      → Consumes decoder size
      → size d < fuel
      → (answers : List (Option decoder.Frame)) × (d' : decoder.State) × Yields decoder d answers d'
        × (decode_and_print_defmt_logs decoder forward can_recover fuel d s ≡ (
          (if can_recover || is_intact decoder answers then ok (some d') else err malformed_frame),
          log_all (to_log decoder can_recover answers) s,
        ))
  decode_and_print_defmt_logs_total size r fuel d s consumes enough =
      let (answers, d', yields, few) = yields_all decoder size fuel d consumes enough in
      (answers, d', yields, decode_and_print_defmt_logs_lem r fuel d d' answers s yields few)
