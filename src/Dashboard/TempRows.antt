-- ===== src/Dashboard/TempRows.antt =====
-- dashboard.py: `_temp_name`, `_fmt` and `_temperature_lines`.
use Prim.Native.Nat.{Ordering}
use Prim.Native.String.{then as by_next, compare}
use text.Mathlib.Text.{starts_with, find?}
use thelio_fans.Prelude.{
  ℕ, ltb, pos, String, str_eq, concat, Bool, not, ◌&&◌, Option, none, some, is_some, default, List,
  [], ◌∷◌, map, filter, any, length, present, if◌then◌else◌, compare_bool, sort_by,
}
use thelio_fans.Float.{Float, max?}
use thelio_fans.Show.{str_ℤ}
use thelio_fans.Format.{cut, left_field, right_field}
use thelio_fans.Snapshot.{Snapshot, Temperature}
use thelio_fans.Dashboard.Colors.{
  Color, normal, yellow, red, cyan, green, muted, blue, magenta, temp_color,
}
use thelio_fans.Dashboard.FanRows.{Line, name_w}

abbrev pub gpu_chip : String
gpu_chip = "gpu"

abbrev pub cpu_key : String
cpu_key = "coretemp:Package id 0"

-- The values of `Color`.
abbrev pub color_value : Color → ℕ
color_value normal = 0
color_value cyan = 1
color_value green = 2
color_value yellow = 3
color_value red = 4
color_value muted = 5
color_value blue = 6
color_value magenta = 7

abbrev pub color_lt : Color → Color → Bool
color_lt a b = ltb (color_value a) (color_value b)

module _ {F : Type 0} where
  -- `_temp_name`
  unfoldable pub temp_name : Temperature F → String
  temp_name t =
      if str_eq t.key cpu_key
      then "CPU package"
      else if str_eq t.chip gpu_chip
      then concat ("GPU " ∷ t.label ∷ [])
      else concat (t.chip ∷ " " ∷ t.label ∷ [])

  -- The comparison of two sort keys: the CPU's package first, then the CPU, the GPU, and the
  -- rest by chip and label.
  unfoldable pub compare_rows : Temperature F → Temperature F → Ordering
  compare_rows a b =
      by_next (compare_bool (not (str_eq a.chip "coretemp")) (not (str_eq b.chip "coretemp"))) (
        by_next
          (compare_bool (not (is_some (find? a.label "Package")))
            (not (is_some (find? b.label "Package"))))
          (by_next (compare_bool (not (str_eq a.chip gpu_chip)) (not (str_eq b.chip gpu_chip)))
            (by_next (compare a.chip b.chip) (compare a.label b.label))))

  -- The chip mirrors another that is present: `DUPLICATE_TEMP_CHIPS`.
  abbrev pub is_hidden : List (Temperature F) → Temperature F → Bool
  is_hidden ts t =
      str_eq t.chip "gigabyte_wmi" && any (λ (u : Temperature F). str_eq u.chip "it8689") ts

  -- `temps`
  unfoldable pub visible_temps : List (Temperature F) → List (Temperature F)
  unfolding compare_rows sort_by
  visible_temps ts = sort_by compare_rows (filter (λ t. not (is_hidden ts t)) ts)

  abbrev pub is_core : Temperature F → Bool
  is_core t = str_eq t.chip "coretemp" && starts_with t.label "Core"

-- `lines.insert(1 if lines else 0, row)`
abbrev pub insert_second : Line → List Line → List Line
insert_second row [] = row ∷ []
insert_second row (l ∷ lines) = l ∷ row ∷ lines

module _ {F : Type 0} ⦃f : Float F⦄ where
  -- `_fmt`
  unfoldable pub fmt : Option F → String
  fmt none = "—"
  fmt (some v) = f.show 1 v

  -- The line of a temperature.
  unfoldable pub temp_row : Temperature F → Line
  unfolding temp_name temp_color fmt cut left_field right_field
  temp_row t = (
    concat (
        "  "
        ∷ left_field name_w (cut name_w (temp_name t))
        ∷ " "
        ∷ right_field 6 (fmt t.celsius)
        ∷ " "
        ∷ right_field 6 (fmt t.maximum)
        ∷ " "
        ∷ right_field 6 (fmt t.critical)
        ∷ []),
    temp_color t,
  )

  -- The lines of the temperatures that are no cores.
  unfoldable pub temp_rows : List (Temperature F) → List Line
  unfolding temp_row
  temp_rows ts = map temp_row (filter (λ t. not (is_core t)) ts)

  -- The range of some readings: `min` and `max` keep the first of equal items.
  unfoldable pub range_text : List F → String
  unfolding max?
  range_text readings = elim (max? (λ a b. f.lt b a) readings) [
    | none ↦ "—"
    | some low ↦ concat (f.show 0 low ∷ "-" ∷ f.show 0 (default low (max? f.lt readings)) ∷ [])
  ]

  -- The line of the cores.
  unfoldable pub cores_row : List (Temperature F) → Line
  unfolding range_text max? temp_color left_field right_field
  cores_row cores =
      let readings = present (map (λ t. t.celsius) cores) in
      let name = concat ("CPU cores (" ∷ str_ℤ (pos (length cores)) ∷ ")" ∷ []) in
      (
        concat ("  " ∷ left_field name_w name ∷ " " ∷ right_field 6 (range_text readings) ∷ []),
        default normal (max? color_lt (map temp_color cores)),
      )

  unfoldable pub with_cores : List (Temperature F) → List Line → List Line
  unfolding cores_row
  with_cores [] lines = lines
  with_cores (c ∷ cs) lines = insert_second (cores_row (c ∷ cs)) lines

  unfoldable pub lines_of : List (Temperature F) → List Line
  unfolding temp_rows with_cores
  lines_of [] = ("  No temperature sensors available.", yellow) ∷ []
  lines_of (t ∷ ts) = with_cores (filter is_core (t ∷ ts)) (temp_rows (t ∷ ts))

  -- `_temperature_lines`
  unfoldable pub temperature_lines : Snapshot F → List Line
  unfolding visible_temps lines_of
  temperature_lines snapshot = lines_of (visible_temps snapshot.temperatures)
