-- ===== src/Dashboard/Layout.antt =====
-- dashboard.py, `_run`: the charts of a frame, and the rows that they leave to the table.
use Prim.Native.Char.{Char}
use Prim.Native.Nat.{min, max}
use thelio_fans.Prelude.{
  ℕ, ◌+◌, ◌-◌, ◌*◌, ◌/◌, leb, pos, ◌-ℤ◌, String, str_eq, Bool, true, false, ◌&&◌, Option, some,
  List, [], ◌∷◌, ◌++◌, filter, take, length, ◌>>=◌, if◌then◌else◌,
}
use thelio_fans.Float.{Float}
use thelio_fans.Snapshot.{Snapshot}
use thelio_fans.Chart.{core_strip}
use thelio_fans.Dashboard.Colors.{muted}
use thelio_fans.Dashboard.Histories.{Histories}
use thelio_fans.Dashboard.Groups.{ChartGroup, chart_groups}
use thelio_fans.Dashboard.Cores.{core_readings}
use thelio_fans.Dashboard.Screen.{Written, color_pair, heat_base, put_spans, draw_chart}

abbrev pub header_rows : ℕ
header_rows = 3

abbrev pub chart_min_height : ℕ
chart_min_height = 24

abbrev pub chart_min_width : ℕ
chart_min_width = 60

-- `min(10, max(5, (height - 18) // max(1, 2 * len(shown))))`, for a height of 24 at least
unfoldable pub chart_rows_of : ℕ → ℕ → ℕ
chart_rows_of height shown = min 10 (max 5 ((height - 18) / max 1 (2 * shown)))

module _ {F : Type 0} where
  abbrev pub has_series : ChartGroup F → Bool
  has_series group = elim group.series [ [] ↦ false | s ∷ series ↦ true ]

  -- `shown`
  unfoldable pub shown_groups : ℕ → List (ChartGroup F) → List (ChartGroup F)
  shown_groups height groups =
      let drawn = filter has_series groups in
      if leb (2 * chart_min_height) height then drawn else take 1 drawn

module _ {F : Type 0} ⦃f : Float F⦄ (is_space is_printable : Char → Bool) (height width : ℕ)
    (interval : F) where
  -- The strip of the cores, below the temperatures: what it writes, and the next row.
  unfoldable pub strip_below : Snapshot F → String → ℕ → Option (List Written × ℕ)
  unfolding core_readings core_strip put_spans
  strip_below snapshot title top =
      if str_eq title "TEMPERATURES"
      then (core_readings is_space snapshot >>= λ cores. core_strip cores heat_base >>= λ strip.
          some (
            put_spans is_printable height width top (("cores  ", color_pair muted) ∷ strip),
            top + 1,
          ))
      else some ([], top)

  -- The loop over the groups shown.
  unfoldable pub charts_from : Snapshot F → ℕ → ℕ → List (ChartGroup F) → Option (List Written × ℕ)
  unfolding strip_below draw_chart
  charts_from snapshot rows top [] = some ([], top)
  charts_from snapshot rows top (group ∷ groups) =
      draw_chart is_printable height width top group (pos width -ℤ pos 5) rows interval >>= λ chart.
      strip_below snapshot group.title chart.1 >>= λ strip.
      charts_from snapshot rows (strip.1 + 1) groups >>= λ rest.
      some (chart.0 ++ strip.0 ++ rest.0, rest.1)

  -- The charts, if the terminal has room for them; the row after them is `top`.
  unfoldable pub charts : Snapshot F → Histories → Option (List Written × ℕ)
  unfolding charts_from chart_groups shown_groups chart_rows_of
  charts snapshot histories =
      let shown = shown_groups height (chart_groups snapshot histories) in
      if leb chart_min_height height && leb chart_min_width width
      then charts_from snapshot (chart_rows_of height (length shown)) header_rows shown
      else some ([], header_rows)
