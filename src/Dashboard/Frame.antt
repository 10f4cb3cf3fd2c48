-- ===== src/Dashboard/Frame.antt =====
-- dashboard.py, `_run`: what an iteration draws. The time of the snapshot as a text, `stamp`, and the
-- interval as a text are parameters.
use Prim.Native.Char.{Char}
use thelio_fans.Prelude.{
  ℕ, ◌+◌, ◌-◌, ltb, ℤ, pos, ◌-ℤ◌, ◌+ℤ◌, eq_ℤ, String, concat, Bool, true, false, ◌||◌, Option, some,
  List, [], ◌∷◌, ◌++◌, length, ◌>>=◌, if◌then◌else◌,
}
use thelio_fans.Float.{Float}
use thelio_fans.Show.{str_ℤ}
use thelio_fans.Snapshot.{Snapshot, Value}
use thelio_fans.Chart.Grid.{lower_of}
use thelio_fans.Dashboard.Histories.{Histories}
use thelio_fans.Dashboard.Alerts.{alerts_for}
use thelio_fans.Dashboard.Colors.{Color, cyan, red, yellow, muted, throttling_now, status_line}
use thelio_fans.Dashboard.FanRows.{Line}
use thelio_fans.Dashboard.Table.{build_lines}
use thelio_fans.Dashboard.View.{View, drawn, page_of, min_height, min_width}
use thelio_fans.Dashboard.Screen.{Written, color_pair, put}
use thelio_fans.Dashboard.Layout.{charts}

-- What the package takes from outside to draw a frame.
pub record Terminal (F : Type 0) : Type 0 where
  pub height : ℕ
  pub width : ℕ
  pub is_space : Char → Bool
  pub is_printable : Char → Bool
  pub show_value : Value F → String
  pub wrap : ℕ → String → List String
  pub now : F
  pub stamp : F → String
  pub interval_text : F → String

abbrev pub is_small : ℕ → ℕ → Bool
is_small height width = ltb height min_height || ltb width min_width

-- `more`
unfoldable pub more_text : ℤ → ℕ → ℕ → String
more_text offset page total =
    if eq_ℤ offset (pos 0)
    then ""
    else concat (
        "  "
        ∷ str_ℤ (offset +ℤ pos 1)
        ∷ "-"
        ∷ str_ℤ (lower_of (pos total) (offset +ℤ pos page))
        ∷ "/"
        ∷ str_ℤ (pos total)
        ∷ [])

-- `bool(alerts) or live_throttle or color == Color.RED`
abbrev pub is_bold : List String → Bool → Color → Bool
is_bold [] live color = live || eq_ℤ (color_pair color) (color_pair red)
is_bold (a ∷ alerts) live color = true

module _ {F : Type 0} ⦃f : Float F⦄ (t : Terminal F) (interval : F) where
  -- The loop over the lines of the table shown.
  unfoldable pub put_lines : ℕ → List Line → List Written
  unfolding put
  put_lines row [] = []
  put_lines row ((text, color) ∷ lines) =
      put t.is_printable t.height t.width row text (color_pair color) false
      ++ put_lines (row + 1) lines

  unfoldable pub put_title : Snapshot F → Bool → List Written
  unfolding put
  put_title snapshot paused =
      put t.is_printable t.height t.width 0
        (concat (
          "  ◉ FAN WATCH  /  "
          ∷ snapshot.machine
          ∷ "    "
          ∷ (if paused then "PAUSED" else "LIVE")
          ∷ " · "
          ∷ t.stamp snapshot.timestamp
          ∷ " · "
          ∷ t.interval_text interval
          ∷ "s · READ ONLY"
          ∷ []))
        (color_pair cyan) true

  unfoldable pub put_status : Snapshot F → Histories → List Written
  unfolding put throttling_now alerts_for status_line
  put_status snapshot histories =
      let live = throttling_now snapshot histories in
      let alerts = alerts_for snapshot histories in
      let (text, color) = status_line snapshot live alerts in
      put t.is_printable t.height t.width 1 text (color_pair color) (is_bold alerts live color)

  -- The table, or the request to enlarge the terminal.
  unfoldable pub put_table : ℕ → List Line → List Written
  unfolding put put_lines
  put_table top shown =
      if is_small t.height t.width
      then put t.is_printable t.height t.width 3 "  Enlarge terminal to at least 38 x 8."
          (color_pair yellow) false
      else put_lines top shown

  unfoldable pub put_footer : ℤ → ℕ → ℕ → List Written
  unfolding put more_text
  put_footer offset page total =
      put t.is_printable t.height t.width (t.height - 1)
        (concat
          ("  q quit · space pause · r refresh · ↑↓ scroll" ∷ more_text offset page total ∷ []))
        (color_pair muted) false

  -- The lines of the table, which a terminal that is too small leaves as they were.
  abbrev pub lines_now : Snapshot F → Histories → List Line → List Line
  lines_now snapshot histories before =
      if is_small t.height t.width
      then before
      else build_lines t.is_printable t.show_value t.wrap t.now snapshot histories
          (pos t.width -ℤ pos 1)

  -- What follows the charts, given what they wrote and the row after them.
  unfoldable pub with_charts :
      Snapshot F
      → Histories
      → View F
      → List Line
      → List Written × ℕ
      → List Written × View F × List Line
  unfolding put_title put_status put_table put_footer build_lines drawn page_of
  with_charts snapshot histories v before (charted, top) =
      let lines = lines_now snapshot histories before in
      let (view, shown) = drawn t.height t.width top lines v in
      (
        put_title snapshot v.paused
            ++ put_status snapshot histories
            ++ charted
            ++ put_table top shown
            ++ put_footer view.offset (page_of t.height top) (length lines),
        view,
        lines,
      )

  -- From the size of the screen to its refresh: what is written, the view and the lines.
  unfoldable pub frame :
      Snapshot F → Histories → View F → List Line → Option (List Written × View F × List Line)
  unfolding charts with_charts
  frame snapshot histories v before =
      charts t.is_space t.is_printable t.height t.width interval snapshot histories >>= λ charted.
      some (with_charts snapshot histories v before charted)
