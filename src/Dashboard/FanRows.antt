-- ===== src/Dashboard/FanRows.antt =====
-- dashboard.py: `_source`, `_fan_row`, `_controller_row` and `_fan_lines`. `time.time()` and the text
-- of a JSON value, `str(value)`, are parameters.
use Prim.Native.Char.{Char}
use thelio_fans.Prelude.{
  ℕ, suc, ◌%◌, ◌==◌, ℤ, pos, negsuc, pos_part, ◌-ℤ◌, String, str_eq, concat, Bool, true, false, not,
  ◌&&◌, Option, none, some, is_some, List, [], ◌∷◌, length, if◌then◌else◌,
}
use thelio_fans.Float.{Float, whole}
use thelio_fans.Show.{str_ℤ}
use thelio_fans.Text.{chars, of_chars}
use thelio_fans.Format.{cut, repeated, left_field, right_field}
use thelio_fans.Snapshot.{rotating, idle, stopped, unknown, Fan, is_empty}
use thelio_fans.Probe.Reading.{idle_stop_chip}
use thelio_fans.Log.{status_text}
use thelio_fans.Dashboard.Histories.{History}
use thelio_fans.Dashboard.Alerts.{stalled, tag_of}
use thelio_fans.Dashboard.Colors.{Color, green, yellow, red, muted, status_color}

-- A text and its colour.
abbrev pub Line : Type 0
Line = String × Color

abbrev pub name_w : ℕ
name_w = 28

abbrev pub source_w : ℕ
source_w = 14

abbrev pub rpm_w : ℕ
rpm_w = 7

abbrev pub duty_w : ℕ
duty_w = 5

abbrev pub bar_w : ℕ
bar_w = 12

-- `f"{n:,}"`, of the digits
unfoldable pub commas : List Char → List Char
commas [] = []
commas (c ∷ cs) =
    let rest = commas cs in
    if (length cs % 3 == 0) && not (length cs == 0) then c ∷ "," ∷ rest else c ∷ rest

unfoldable pub thousands : ℤ → String
unfolding commas
thousands (pos n) = of_chars (commas (chars (str_ℤ (pos n))))
thousands (negsuc n) = concat ("-" ∷ of_chars (commas (chars (str_ℤ (pos (suc n))))) ∷ [])

abbrev pub rpm_text : Option ℤ → String
rpm_text none = "?"
rpm_text (some n) = thousands n

-- `f" · {note}" if note else ""`
abbrev pub note_text : Option String → String
note_text none = ""
note_text (some note) = if str_eq note "" then "" else concat (" · " ∷ note ∷ [])

module _ {F : Type 0} where
  -- `_source`
  unfoldable pub source : Fan F → String
  source fan = concat (
      (if str_eq fan.chip "system76_io" then "Io" else fan.chip)
      ∷ " "
      ∷ tag_of fan.label fan.channel
      ∷ [])

  -- The first two columns of a fan.
  unfoldable pub fan_name : Fan F → String
  unfolding source cut left_field
  fan_name fan = concat (
      left_field name_w (cut name_w fan.name)
      ∷ " "
      ∷ left_field source_w (cut source_w (source fan))
      ∷ [])

  abbrev pub is_stopped_idle : Fan F → Bool
  is_stopped_idle fan = elim fan.status [
    | idle ↦ true
    | stopped ↦ idle_stop_chip fan.chip
    | _ ↦ false
  ]

  abbrev pub is_duty_only : Fan F → Bool
  is_duty_only fan = elim fan.status [
    | unknown ↦ idle_stop_chip fan.chip && is_some fan.duty
    | _ ↦ false
  ]

  -- The tag and the colour, from the status.
  abbrev pub status_tag : Fan F → History → Line
  status_tag fan history = elim fan.status [
    | stopped ↦ if stalled fan history then ("  STALLED", red) else ("  starting", yellow)
    | rotating ↦ ("", green)
    | s ↦ (concat ("  " ∷ status_text s ∷ []), status_color s)
  ]

  unfoldable pub fan_tag : Fan F → History → Line
  unfolding stalled status_color
  fan_tag fan history =
      if is_stopped_idle fan
      then ("  idle", muted)
      else if is_duty_only fan
      then ("  duty only", muted)
      else status_tag fan history

module _ {F : Type 0} ⦃f : Float F⦄ where
  -- The bar of a duty.
  unfoldable pub bar : Option F → String
  unfolding repeated
  bar none = ""
  bar (some duty) =
      let filled = f.round (f.mul (f.div duty (whole 100)) (whole bar_w)) in
      concat
        (" " ∷ repeated "━" (pos_part filled) ∷ repeated "┄" (pos_part (pos bar_w -ℤ filled)) ∷ [])

  abbrev pub percent_text : Option F → String
  percent_text none = "?"
  percent_text (some d) = concat (f.show 0 d ∷ "%" ∷ [])

  -- `_fan_row`
  unfoldable pub fan_row : Fan F → History → Line
  unfolding fan_name fan_tag bar thousands right_field
  fan_row fan history =
      if is_empty fan.status
      then (
        concat ("  " ∷ fan_name fan ∷ " " ∷ right_field rpm_w "empty" ∷ note_text fan.note ∷ []),
        muted,
      )
      else let (tag, color) = fan_tag fan history in
        (
          concat (
              "  "
              ∷ fan_name fan
              ∷ " "
              ∷ right_field rpm_w (rpm_text fan.rpm)
              ∷ " "
              ∷ right_field duty_w (percent_text fan.duty)
              ∷ bar fan.duty
              ∷ tag
              ∷ []),
          color,
        )
