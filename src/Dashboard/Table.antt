-- ===== src/Dashboard/Table.antt =====
-- dashboard.py: `build_lines`. `textwrap.wrap` is a parameter.
use Prim.Native.Char.{Char}
use Prim.Native.Nat.{max}
use thelio_fans.Prelude.{
  ℕ, ◌-◌, ◌≤◌, ℤ, pos_part, String, concat, Bool, List, [], ◌∷◌, ◌++◌, map, All, arith,
}
use thelio_fans.Float.{Float}
use thelio_fans.Format.{cut, left_field, right_field, text_length, length-cut}
use thelio_fans.Snapshot.{Snapshot, Value}
use thelio_fans.Dashboard.Histories.{Histories}
use thelio_fans.Dashboard.Alerts.{alerts_for}
use thelio_fans.Dashboard.Colors.{normal, cyan, yellow, throttling_now}
use thelio_fans.Dashboard.FanRows.{Line, name_w, source_w, rpm_w, duty_w}
use thelio_fans.Dashboard.FanTable.{fan_lines}
use thelio_fans.Dashboard.TempRows.{temperature_lines}
use thelio_fans.Dashboard.MachineRows.{throttle_row, throttle_rows, gpu_rows, rows_of_gpu}

-- `add`, with the width in scope
unfoldable pub added : ℕ → Line → Line
unfolding cut
added width (text, color) = (cut width text, color)

abbrev pub fan_header : String
fan_header = concat (
    "  "
    ∷ left_field name_w "FAN"
    ∷ " "
    ∷ left_field source_w "SOURCE"
    ∷ " "
    ∷ right_field rpm_w "RPM"
    ∷ " "
    ∷ right_field duty_w "DUTY"
    ∷ [])

abbrev pub temperature_header : String
temperature_header = concat (
    "  "
    ∷ left_field name_w "TEMPERATURE"
    ∷ " "
    ∷ right_field 6 "NOW"
    ∷ " "
    ∷ right_field 6 "MAX"
    ∷ " "
    ∷ right_field 6 "CRIT"
    ∷ [])

-- The lines of the alerts, where `wrap width text` is `textwrap.wrap(text, width)`
unfoldable pub alert_lines : (ℕ → String → List String) → ℕ → List String → List Line
alert_lines wrap width [] = []
alert_lines wrap width (alert ∷ alerts) =
    map (λ part. (concat ("  " ∷ part ∷ []), yellow)) (wrap (max 1 (width - 4)) alert)
    ++ alert_lines wrap width alerts

abbrev pub diagnostics : (ℕ → String → List String) → ℕ → List String → List Line
diagnostics wrap width [] = []
diagnostics wrap width (a ∷ alerts) =
    ("", normal) ∷ ("  DIAGNOSTICS", cyan) ∷ alert_lines wrap width (a ∷ alerts)

module _ {F : Type 0} ⦃f : Float F⦄ (is_printable : Char → Bool) (show_value : Value F → String)
    (wrap : ℕ → String → List String) (now : F) where
  -- The calls of `add`, for a width that is at least 1.
  unfoldable pub table_lines : Snapshot F → Histories → ℕ → List Line
  unfolding fan_lines temperature_lines throttle_row gpu_rows alert_lines alerts_for throttling_now
      left_field right_field
  table_lines snapshot histories width =
      (fan_header, cyan) ∷ fan_lines is_printable show_value now snapshot histories
      ++ (("", normal) ∷ (temperature_header, cyan) ∷ temperature_lines snapshot
          ++ throttle_rows F snapshot.throttle (throttling_now snapshot histories)
          ++ rows_of_gpu snapshot.gpu
          ++ diagnostics wrap width (alerts_for snapshot histories))

  -- `build_lines`
  unfoldable pub build_lines : Snapshot F → Histories → ℤ → List Line
  unfolding table_lines added
  build_lines snapshot histories width =
      let w = max 1 (pos_part width) in map (added w) (table_lines snapshot histories w)

  all_cut : (w : ℕ) (lines : List Line) → All (λ l. text_length l.0 ≤ w) (map (added w) lines)
  unfolding added
  all_cut w [] = tt
  all_cut w ((text, color) ∷ lines) = (omega (arith, length-cut w text), all_cut w lines)

  -- No line of the table is wider than the width given, or than one character.
  pub build_lines-IsFitting :
      (snapshot : Snapshot F) (histories : Histories) (width : ℤ)
      → All (λ l. text_length l.0 ≤ max 1 (pos_part width)) (build_lines snapshot histories width)
  unfolding build_lines
  build_lines-IsFitting snapshot histories width =
      let w = max 1 (pos_part width) in all_cut w (table_lines snapshot histories w)
