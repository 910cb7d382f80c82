-- ===== src/Backtrace/Pp/Laws.antt =====
-- Which frames src/backtrace/pp.rs shows, and when it warns of the limit.
use Prim.Native.Nat.{min}
use mathlib.Core.List.{append_assoc, append-nil}
use probe_run.Base.{
  ℕ, suc, ◌+◌, ◌<◌, ◌≡◌, refl, sym, ap, ◌∙◌, Bool, true, List, [], ◌∷◌, ◌++◌, leb, if◌then◌else◌,
  arith, Bool-cases, inl, inr,
}
use probe_run.Base.Text.{Str}
use probe_run.Backtrace.Settings.{Settings}
use probe_run.Backtrace.Symbolicate.{Frame, exception, subroutine}
use probe_run.Backtrace.Pp.{
  Line, title, exception_entry, limit_reached, frame_lines, print_frames, backtrace,
}

-- the frames that are counted
abbrev pub subroutines : List Frame → ℕ
subroutines [] = 0
subroutines (exception ∷ rest) = subroutines rest
subroutines (subroutine sub ∷ rest) = suc (subroutines rest)

add_suc : (i n : ℕ) → i + 1 + n ≡ i + suc n
add_suc i n = omega arith

append_assoc_sym {ℓ} : {A : Type ℓ} (xs ys zs : List A) → xs ++ (ys ++ zs) ≡ (xs ++ ys) ++ zs
append_assoc_sym xs ys zs = sym (append_assoc xs ys zs)

module _ (bold dimmed : Str → Str) (settings : Settings) where
  -- every frame, numbered from an index on, with no limit
  abbrev pub all_lines : ℕ → List Frame → List Line
  all_lines i [] = []
  all_lines i (exception ∷ rest) = exception_entry ∷ all_lines i rest
  all_lines i (subroutine sub ∷ rest) =
      frame_lines bold dimmed settings i sub ++ all_lines (i + 1) rest

  abbrev pub warning : Bool → List Line
  warning reached = if reached then limit_reached settings.backtrace_limit ∷ [] else []

  -- What is shown of the frames: a first part of them, in order and numbered, as far as the limit
  -- goes; the warning exactly if the limit is reached, and all frames if it is not.
  abbrev pub IsShown : (i : ℕ) → List Frame → List Line → Type 0
  IsShown i frames lines =
      (shown : List Frame) × (hidden : List Frame) × (frames ≡ shown ++ hidden)
      × (lines
          ≡ all_lines i shown ++ warning (leb settings.backtrace_limit (i + subroutines frames)))
      × (i + subroutines shown ≡ min settings.backtrace_limit (i + subroutines frames))
      × (i + subroutines frames < settings.backtrace_limit → hidden ≡ [])

  print_frames-IsShown :
      (i : ℕ) (frames : List Frame)
      → i < settings.backtrace_limit
      → IsShown i frames (print_frames bold dimmed settings i frames)
  unfolding print_frames
  print_frames-IsShown i [] h = ([], [], refl, ground arith, omega arith, λ k. refl)
  print_frames-IsShown i (exception ∷ rest) h =
      let (shown, hidden, split, lines, count, all) = print_frames-IsShown i rest h in
      (exception ∷ shown, hidden, rw split, ap (λ l. exception_entry ∷ l) lines, count, all)
  print_frames-IsShown i (subroutine sub ∷ rest) h =
      elim (Bool-cases (leb settings.backtrace_limit (i + 1))) [
        | inl reached ↦
            let full : settings.backtrace_limit ≡ i + 1 = ground arith in
            let later : leb settings.backtrace_limit (i + suc (subroutines rest)) ≡ true =
              ground arith in
            (
              subroutine sub ∷ [],
              rest,
              refl,
              rw reached (rw later (rw append-nil)),
              omega (arith, full),
              λ k. absurd (omega (arith, full)),
            )
        | inr more ↦
            let (shown, hidden, split, lines, count, all) =
              print_frames-IsShown (i + 1) rest (ground arith) in
            (
              subroutine sub ∷ shown,
              hidden,
              rw split,
              rw more (
                  ap (λ l. frame_lines bold dimmed settings i sub ++ l) lines
                  ∙ append_assoc_sym (frame_lines bold dimmed settings i sub)
                      (all_lines (i + 1) shown) _
                  ∙ ap
                      (λ n.
                        (frame_lines bold dimmed settings i sub ++ all_lines (i + 1) shown)
                        ++ warning (leb settings.backtrace_limit n))
                      (add_suc i (subroutines rest))),
              omega (arith, count),
              λ k. all (omega arith),
            )
      ]

  -- With a limit above zero, the printed backtrace shows a first part of the frames in order,
  -- numbered from 0; as many subroutines as there are, up to the limit; every frame if there are
  -- fewer subroutines than the limit; and the warning exactly if there are not fewer.
  pub backtrace-IsShown :
      (frames : List Frame)
      → 0 < settings.backtrace_limit
      → (lines : List Line) × (backtrace bold dimmed settings frames ≡ title ∷ lines)
        × IsShown 0 frames lines
  unfolding backtrace
  backtrace-IsShown frames h =
      (print_frames bold dimmed settings 0 frames, refl, print_frames-IsShown 0 frames h)
