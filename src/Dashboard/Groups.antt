-- ===== src/Dashboard/Groups.antt =====
-- dashboard.py: `_paint`, `temperature_group`, `fan_group` and `chart_groups`.
use Prim.Native.Nat.{Ordering}
use Prim.Native.String.{then as by_next, compare}
use mathlib.Core.Option
use thelio_fans.Prelude.{
  ℕ, suc, ◌%◌, ℤ, pos, eq_ℤ, ltb_ℤ, String, str_eq, Bool, false, not, ◌&&◌, ◌||◌, Option, none,
  some, is_some, default, List, [], ◌∷◌, map, any, present, get_elem?, if◌then◌else◌, compare_bool,
  sort_by,
}
use thelio_fans.Float.{Float, max?, larger, whole}
use thelio_fans.Snapshot.{Snapshot, Temperature, Fan}
use thelio_fans.Chart.{Series}
use thelio_fans.Dashboard.Histories.{History, Histories}
use thelio_fans.Dashboard.Alerts.{history_of}
use thelio_fans.Dashboard.Colors.{Color, yellow, cyan, green, magenta, blue, red, normal}
use thelio_fans.Dashboard.TempRows.{gpu_chip, cpu_key, color_value, temp_name}

pub record ChartGroup (F : Type 0) : Type 0 where
  pub title : String
  pub series : List (Series F)
  pub y_min : F
  pub y_max : F
  pub limit : Option F

-- `PALETTE`
abbrev pub palette : List Color
palette = yellow ∷ cyan ∷ green ∷ magenta ∷ blue ∷ red ∷ []

-- `PALETTE[i % len(PALETTE)]`
abbrev pub palette_color : ℕ → ℤ
palette_color i = pos (color_value (default normal (get_elem? palette (i % 6))))

abbrev pub in_duplicates : String → Bool
in_duplicates chip = str_eq chip "gigabyte_wmi"

abbrev pub in_noise : String → Bool
in_noise chip = str_eq chip "acpitz" || str_eq chip "iwlwifi_1"

module _ {F : Type 0} where
  -- `_paint`, from an index
  unfoldable pub paint_from : ℕ → List (Series F) → List (Series F)
  paint_from i [] = []
  paint_from i (s ∷ series) = record s { color = palette_color i } ∷ paint_from (suc i) series

  unfoldable pub paint : List (Series F) → List (Series F)
  unfolding paint_from
  paint = paint_from 0

  -- The comparison of two sort keys.
  unfoldable pub compare_lines : Temperature F → Temperature F → Ordering
  compare_lines a b =
      by_next (compare_bool (not (str_eq a.key cpu_key)) (not (str_eq b.key cpu_key))) (
        by_next (compare_bool (not (str_eq a.chip gpu_chip)) (not (str_eq b.chip gpu_chip))) (
          by_next (compare_bool (not (str_eq a.chip "nvme")) (not (str_eq b.chip "nvme")))
            (by_next (compare a.chip b.chip) (compare a.label b.label))))

  -- The tests that skip a temperature, on the chips that have a line already.
  unfoldable pub is_skipped : List String → Histories → Temperature F → Bool
  is_skipped seen histories t =
      (str_eq t.chip "coretemp" && not (str_eq t.key cpu_key))
      || (in_duplicates t.chip || in_noise t.chip || any (str_eq t.chip) seen)
      || not (any is_some (history_of t.key histories))

-- The largest reading of a history, unless there is none or it is 0.
abbrev pub top_of : History → Option ℤ
top_of history = elim (max? ltb_ℤ (present history)) [
  | none ↦ none
  | some n ↦ if eq_ℤ n (pos 0) then none else some n
]

module _ {F : Type 0} ⦃f : Float F⦄ where
  -- A history as the values of a series.
  abbrev pub values_of : History → List (Option F)
  values_of = map (Option.map f.of_int)

  -- The series of a temperature.
  unfoldable pub temp_series : Histories → Temperature F → Series F
  unfolding temp_name
  temp_series histories t =
      let is_cpu = str_eq t.key cpu_key in
      record {
        name = if is_cpu then "CPU" else temp_name t;
        values = values_of (history_of t.key histories);
        color = pos 0;
        unit = "°C";
        heat = is_cpu;
      }

  -- The loop over the sorted temperatures: the series chosen, and the limit.
  unfoldable pub choose :
      Histories → List String → Option F → List (Temperature F) → List (Series F) × Option F
  unfolding is_skipped temp_series
  choose histories seen limit [] = ([], limit)
  choose histories seen limit (t ∷ ts) =
      let skipped = choose histories seen limit ts in
      let next_limit = if str_eq t.key cpu_key then t.maximum else limit in
      let (chosen, last) = choose histories (t.chip ∷ seen) next_limit ts in
      if is_skipped seen histories t then skipped else (temp_series histories t ∷ chosen, last)

  -- `temperature_group`
  unfoldable pub temperature_group : Snapshot F → Histories → ChartGroup F
  unfolding choose paint sort_by compare_lines
  temperature_group snapshot histories =
      let (chosen, limit) =
        choose histories [] none (sort_by compare_lines snapshot.temperatures) in
      record {
        title = "TEMPERATURES";
        series = paint chosen;
        y_min = whole 0;
        y_max = whole 100;
        limit = limit;
      }

  abbrev pub fan_series : Fan F → History → Series F
  fan_series fan history = record {
    name = fan.name;
    values = values_of history;
    color = pos 0;
    unit = " rpm";
    heat = false;
  }

  -- The loop over the fans: the series chosen, and the largest reading.
  unfoldable pub choose_fans : Histories → F → List (Fan F) → List (Series F) × F
  unfolding max?
  choose_fans histories top [] = ([], top)
  choose_fans histories top (fan ∷ fans) =
      let history = history_of fan.key histories in
      elim (top_of history) [
        | none ↦ choose_fans histories top fans
        | some n ↦
            let (chosen, last) = choose_fans histories (larger top (f.of_int n)) fans in
            (fan_series fan history ∷ chosen, last)
      ]

  -- `max(500.0, math.ceil(top / 500) * 500)`, with the product of integers as a product of floats
  abbrev pub fan_top : F → F
  fan_top top =
      larger (f.decimal 5000 1) (f.mul (f.of_int (f.ceil (f.div top (whole 500)))) (whole 500))

  -- `fan_group`
  unfoldable pub fan_group : Snapshot F → Histories → ChartGroup F
  unfolding choose_fans paint
  fan_group snapshot histories =
      let (chosen, top) = choose_fans histories (f.decimal 0 1) snapshot.fans in
      record {
        title = "FANS";
        series = paint chosen;
        y_min = whole 0;
        y_max = fan_top top;
        limit = none;
      }

  -- `chart_groups`
  unfoldable pub chart_groups : Snapshot F → Histories → List (ChartGroup F)
  unfolding temperature_group fan_group
  chart_groups snapshot histories =
      temperature_group snapshot histories ∷ fan_group snapshot histories ∷ []
