-- ===== src/Stress/Report.antt =====
-- stress.py: `_temp`, `render` and `_live_line`. `time.strftime` of a local time is a parameter.
use Prim.Native.Char.{Char, code}
use Prim.Native.Nat.{max}
use thelio_fans.Prelude.{
  ℕ, eq_ℤ, String, concat, join, not, ◌&&◌, ◌==◌, Option, none, some, List, [], ◌∷◌, ◌++◌, map,
  if◌then◌else◌, default,
}
use thelio_fans.Float.{Float}
use thelio_fans.Show.{str_ℤ}
use thelio_fans.Text.{chars, of_chars}
use thelio_fans.Format.{text_length, left_field, right_field}
use thelio_fans.Stress.Sampling.{Sample, FanSample}
use thelio_fans.Stress.Guard.{text}
use thelio_fans.Stress.Summary.{
  FanVerdict, responded, flat, stopped, unknown, FanSummary, PhaseSummary,
}
use thelio_fans.Stress.Exec.{Aborted, guarded, load_failed, interrupted}

-- The values of `FanVerdict`.
abbrev pub verdict_text : FanVerdict → String
verdict_text responded = "responded"
verdict_text flat = "flat"
verdict_text stopped = "stopped"
verdict_text unknown = "unknown"

-- `f"{a}→{b}{unit}"` of two numbers shown, or a dash where one is None
abbrev pub arrow : Option String → Option String → String → String
arrow none b unit = "—"
arrow (some a) none unit = "—"
arrow (some a) (some b) unit = concat (a ∷ "→" ∷ b ∷ unit ∷ [])

abbrev pub shown? : {A : Type 0} → (A → String) → Option A → Option String
shown? show none = none
shown? show (some a) = some (show a)

-- The default of `max` over the labels is 10.
unfoldable pub longest : List ℕ → Option ℕ
longest [] = none
longest (n ∷ ns) = elim (longest ns) [ none ↦ some n | some m ↦ some (max n m) ]

-- The labels before `" ("`: `label.split(" (")[0]`
unfoldable pub before_paren : List Char → List Char
before_paren [] = []
before_paren (c ∷ []) = c ∷ []
before_paren (c ∷ d ∷ rest) =
    let kept = before_paren (d ∷ rest) in if (code c == 32) && (code d == 40) then [] else c ∷ kept

module _ {F : Type 0} where
  abbrev pub labels : List (PhaseSummary F) → List ℕ
  labels [] = []
  labels (p ∷ ps) = map (λ e. text_length e.1.label) p.fans ++ labels ps

  -- `width`
  abbrev pub label_width : List (PhaseSummary F) → ℕ
  label_width ps = default 10 (longest (labels ps))

abbrev pub gpu_line : Option String → String
gpu_line none = "GPU load: not used"
gpu_line (some d) =
    if text_length d == 0 then "GPU load: not used" else concat ("GPU load: " ∷ d ∷ [])

abbrev pub or_question : Option String → String
or_question none = "?"
or_question (some s) = s

module _ {F : Type 0} ⦃f : Float F⦄ where
  -- The text of `aborted`.
  abbrev pub abort_text : Aborted F → String
  abort_text (guarded r) = text r
  abort_text (load_failed s) = s
  abort_text interrupted = "interrupted"

  -- Whether a phase ended cooler or hotter than its peak, as whole degrees.
  abbrev pub ending : F → Option F → String
  ending peak none = ""
  ending peak (some end) =
      if not (eq_ℤ (f.round end) (f.round peak)) then concat (", ends " ∷ f.show 0 end ∷ []) else ""

  -- `_temp`
  unfoldable pub temp : Option F → Option F → Option F → String
  temp none peak end = "—"
  temp (some start) none end = "—"
  temp (some start) (some peak) end =
      concat (f.show 0 start ∷ "→" ∷ f.show 0 peak ∷ " °C" ∷ ending peak end ∷ [])

  abbrev pub peak_watts : Option F → String
  peak_watts none = ""
  peak_watts (some w) = concat (" (peak " ∷ f.show 0 w ∷ " W)" ∷ [])

  -- The line of a phase.
  unfoldable pub phase_line : PhaseSummary F → String
  unfolding temp left_field right_field
  phase_line p = concat (
      left_field 9 p.phase
      ∷ right_field 5 (f.show 0 p.seconds)
      ∷ " s   CPU "
      ∷ temp p.cpu_start_c p.cpu_peak_c p.cpu_end_c
      ∷ "   GPU "
      ∷ temp p.gpu_start_c p.gpu_peak_c p.gpu_end_c
      ∷ peak_watts p.gpu_peak_w
      ∷ [])

  abbrev pub delay : FanVerdict → Option F → String
  delay responded (some s) = concat (" after " ∷ f.show 0 s ∷ " s" ∷ [])
  delay v o = ""

  -- The line of a fan.
  unfoldable pub fan_line : ℕ → FanSummary F → String
  unfolding left_field right_field
  fan_line width fan =
      let rpm = arrow (shown? str_ℤ fan.rpm_start) (shown? str_ℤ fan.rpm_peak) " rpm" in
      let duty = arrow (shown? (f.show 0) fan.duty_start) (shown? (f.show 0) fan.duty_peak) " %" in
      concat (
        "  "
        ∷ left_field width fan.label
        ∷ "  "
        ∷ right_field 16 rpm
        ∷ "  "
        ∷ right_field 10 duty
        ∷ "  "
        ∷ verdict_text fan.verdict
        ∷ delay fan.verdict fan.responded_after_s
        ∷ [])

  unfoldable pub phase_lines : ℕ → List (PhaseSummary F) → List String
  unfolding phase_line fan_line
  phase_lines width [] = []
  phase_lines width (p ∷ ps) =
      "" ∷ phase_line p ∷ map (λ e. fan_line width e.1) p.fans ++ phase_lines width ps

  abbrev pub stop_lines : Option (Aborted F) → List String
  stop_lines none = []
  stop_lines (some a) =
      if text_length (abort_text a) == 0
      then []
      else "" ∷ concat ("stopped early: " ∷ abort_text a ∷ []) ∷ []

  -- The list `lines` of `render`.
  unfoldable pub report_lines :
      List (PhaseSummary F) → Option (Aborted F) → Option String → List String
  unfolding phase_lines longest
  report_lines summaries aborted gpu_load =
      "FAN STRESS REPORT" ∷ gpu_line gpu_load ∷ phase_lines (label_width summaries) summaries
      ++ stop_lines aborted

  -- `render`
  unfoldable pub render : List (PhaseSummary F) → Option (Aborted F) → Option String → String
  unfolding report_lines
  render summaries aborted gpu_load = join "\n" (report_lines summaries aborted gpu_load)

  abbrev pub live_duty : Option F → String
  live_duty none = ""
  live_duty (some d) = concat ("/" ∷ f.show 0 d ∷ "%" ∷ [])

  -- What a live line says of a fan.
  unfoldable pub live_fan : FanSample F → String
  unfolding before_paren
  live_fan fan = concat (
      of_chars (before_paren (chars fan.label))
      ∷ " "
      ∷ or_question (shown? str_ℤ fan.rpm)
      ∷ "rpm"
      ∷ live_duty fan.duty
      ∷ [])

  -- `_live_line`, where `stamp` is `time.strftime("%H:%M:%S", time.localtime(t))`
  unfoldable pub live_text : (F → String) → Sample F → String
  unfolding live_fan left_field
  live_text stamp s = concat (
      stamp s.time
      ∷ " "
      ∷ left_field 9 s.phase
      ∷ "cpu "
      ∷ or_question (shown? (f.show 0) s.cpu_c)
      ∷ "°C  gpu "
      ∷ or_question (shown? (f.show 0) s.gpu_c)
      ∷ "°C  "
      ∷ join "  " (map (λ e. live_fan e.1) s.fans)
      ∷ [])
