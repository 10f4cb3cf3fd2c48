-- ===== src/Dashboard/Screen.antt =====
-- dashboard.py: `put` and `put_spans` of `_run`, and `draw_chart`. The size of the screen is given, and
-- what curses is told to write is a list; `str.isprintable` is a parameter.
use Prim.Native.Char.{Char}
use Prim.Native.Nat.{min}
use thelio_fans.Prelude.{
  ℕ, ◌+◌, ◌-◌, ◌<◌, ltb, ℤ, pos, String, concat, Bool, false, ◌&&◌, Option, some, List, [], ◌∷◌,
  ◌++◌, map, All, All-append, ◌>>=◌, if◌then◌else◌, if_elim, arith,
}
use thelio_fans.Float.{Float}
use thelio_fans.Text.{chars, of_chars, safe_char}
use thelio_fans.Format.{text_length, cut, length-cut}
use thelio_fans.Chart.{Span, legend}
use thelio_fans.Chart.Grid.{render_chart}
use thelio_fans.Chart.Axis.{x_labels}
use thelio_fans.Dashboard.Colors.{Color, cyan, red, muted}
use thelio_fans.Dashboard.Histories.{max_history}
use thelio_fans.Dashboard.TempRows.{color_value}
use thelio_fans.Dashboard.Groups.{ChartGroup}

-- A call of `addnstr`: a row, a column, the text that it writes, a colour pair and whether it is bold.
pub record Written : Type 0 where
  pub row : ℕ
  pub column : ℕ
  pub text : String
  pub color : ℤ
  pub bold : Bool

abbrev pub color_pair : Color → ℤ
color_pair c = pos (color_value c)

abbrev pub heat_base : ℤ
heat_base = pos 20

module _ (is_printable : Char → Bool) where
  -- The text with "?" for what is not printable.
  unfoldable pub printable : String → String
  unfolding safe_char
  printable text = of_chars (map (safe_char is_printable) (chars text))

  module _ (height width : ℕ) where
    -- `put`
    unfoldable pub put : ℕ → String → ℤ → Bool → List Written
    unfolding printable cut
    put row text color bold =
        if ltb row height && ltb 1 width
        then (record {
          row = row;
          column = 0;
          text = cut (width - 1) (printable text);
          color = color;
          bold = bold;
        })
          ∷ []
        else []

    -- The loop of `put_spans`, from a column on.
    unfoldable pub spans_from : ℕ → ℕ → List Span → List Written
    unfolding printable cut
    spans_from row col [] = []
    spans_from row col ((text, color) ∷ spans) =
        let shown = printable text in
        let room = width - 1 - col in
        let rest = spans_from row (col + min (text_length shown) room) spans in
        if ltb 0 room
        then (record {
          row = row;
          column = col;
          text = cut room shown;
          color = color;
          bold = false;
        })
          ∷ rest
        else []

    -- `put_spans`, with an indent of 2
    unfoldable pub put_spans : ℕ → List Span → List Written
    unfolding spans_from
    put_spans row spans = if ltb row height && ltb 3 width then spans_from row 2 spans else []

    -- The loop of `draw_chart` over the rows of a chart.
    unfoldable pub put_rows : ℕ → List (List Span) → List Written
    unfolding put_spans
    put_rows top [] = []
    put_rows top (spans ∷ rows) = put_spans top spans ++ put_rows (top + 1) rows

    -- Within the screen, and left of its last column.
    abbrev pub IsInside : Written → Type 0
    IsInside w = (w.row < height) × (w.column + text_length w.text < width)

    pub put-IsInside :
        (row : ℕ) (text : String) (color : ℤ) (bold : Bool) → All IsInside (put row text color bold)
    unfolding put
    put-IsInside row text color bold =
        if_elim (All IsInside) (ltb row height && ltb 1 width) _ _
          (λ e.
            ((ground (arith, e), ground (arith, e, length-cut (width - 1) (printable text))), tt))
          (λ _. tt)

    spans_from-IsInside :
        (row col : ℕ) (spans : List Span) → row < height → All IsInside (spans_from row col spans)
    unfolding spans_from
    spans_from-IsInside row col [] lt = tt
    spans_from-IsInside row col ((text, color) ∷ spans) lt =
        let shown = printable text in
        let room = width - 1 - col in
        if_elim (All IsInside) (ltb 0 room) _ _
          (λ e. (
            (lt, ground (arith, e, length-cut room shown)),
            spans_from-IsInside row (col + min (text_length shown) room) spans lt,
          ))
          (λ _. tt)

    pub put_spans-IsInside : (row : ℕ) (spans : List Span) → All IsInside (put_spans row spans)
    unfolding put_spans
    put_spans-IsInside row spans =
        if_elim (All IsInside) (ltb row height && ltb 3 width) _ _
          (λ e. spans_from-IsInside row 2 spans (ground (arith, e))) (λ _. tt)

    pub put_rows-IsInside : (top : ℕ) (rows : List (List Span)) → All IsInside (put_rows top rows)
    unfolding put_rows
    put_rows-IsInside top [] = tt
    put_rows-IsInside top (spans ∷ rows) =
        All-append IsInside (put_spans top spans) (put_rows (top + 1) rows)
          (put_spans-IsInside top spans) (put_rows-IsInside (top + 1) rows)

    module _ {F : Type 0} ⦃f : Float F⦄ where
      -- `draw_chart`, of a chart of `chart_width` by `chart_height`: what it writes, and the next row
      unfoldable pub draw_chart : ℕ → ChartGroup F → ℤ → ℕ → F → Option (List Written × ℕ)
      unfolding put put_spans put_rows render_chart legend x_labels
      draw_chart top group chart_width chart_height interval =
          let keys = legend group.series group.limit (color_pair red) heat_base in
          render_chart group.y_min group.y_max group.series chart_width (pos chart_height)
            group.limit (color_pair red) heat_base
          >>= λ rows. some (
            put_spans top ((concat (group.title ∷ "  " ∷ []), color_pair cyan) ∷ keys)
                ++ put_rows (top + 1) rows
                ++ put (top + 1 + chart_height)
                    (concat ("  " ∷ x_labels chart_width max_history interval ∷ []))
                    (color_pair muted) false,
            top + 2 + chart_height,
          )
