-- ===== src/Chart/Grid.antt =====
-- chart.py: the two grids of `render_chart`, and its rows of spans. An exception is none: an index
-- out of range, a division by zero, or a number that is no character.
use Prim.Native.Char.{Char, char, IsScalar}
use Prim.Native.Nat.{max, bit_or}
use thelio_fans.Prelude.{
  ℕ, zero, suc, ◌+◌, ◌-◌, ◌*◌, ◌<◌, arith, ◌/◌, ◌%◌, ℤ, pos, negsuc, ◌+ℤ◌, ◌-ℤ◌, eq_ℤ, leb_ℤ,
  pos_part, Bool, false, ◌&&◌, Option, none, some, List, [], ◌∷◌, ltb, ◌==◌, length, get_elem?,
  replicate, take_last, change, ◌>>=◌, if◌then◌else◌,
}
use mathlib.Core.Logic.{dite}
use native.Mathlib.Decide.{dec_lt}
use thelio_fans.Text.{of_chars}
use thelio_fans.Float.{Float}
use thelio_fans.Chart.{Span, Series, scale, series_color, merge}

-- `bits` and `owner`
pub record Canvas : Type 0 where
  pub bits : List (List ℕ)
  pub owner : List (List ℤ)

-- `_DOT`
abbrev pub dots : List (List ℕ)
dots = (1 ∷ 2 ∷ 4 ∷ 64 ∷ []) ∷ (8 ∷ 16 ∷ 32 ∷ 128 ∷ []) ∷ []

-- Python's `//` and `%` by a positive number.
abbrev pub floor_div : ℤ → ℕ → ℤ
floor_div (pos n) d = pos (n / d)
floor_div (negsuc n) d = negsuc (n / d)

abbrev pub floor_mod : ℤ → ℕ → ℕ
floor_mod (pos n) d = n % d
floor_mod (negsuc n) d = d - 1 - n % d

-- The place of an index in a list of `n` items: a negative one counts from its end.
abbrev pub position : ℕ → ℤ → Option ℕ
position n (pos i) = if ltb i n then some i else none
position n (negsuc i) = if ltb i n then some (n - i - 1) else none

-- `grid[r][c] = g(grid[r][c])`
unfoldable pub change_cell : {A : Type 0} → ℤ → ℕ → (A → A) → List (List A) → Option (List (List A))
change_cell r c g grid =
    position (length grid) r >>= λ i. change i (change c (λ x. some (g x))) grid

-- `_DOT[x % 2][yy % 4]`
abbrev pub dot_of : ℕ → ℤ → Option ℕ
dot_of x yy = get_elem? dots (x % 2) >>= λ column. get_elem? column (floor_mod yy 4)

-- The body of the loop over `yy`.
unfoldable pub mark : ℕ → ℤ → ℤ → Canvas → Option Canvas
unfolding change_cell
mark x color yy canvas = dot_of x yy >>= λ dot.
    change_cell (floor_div yy 4) (x / 2) (λ b. bit_or b dot) canvas.bits >>= λ bits.
    change_cell (floor_div yy 4) (x / 2) (λ _. color) canvas.owner >>= λ owner.
    some (record { bits = bits; owner = owner })

-- The loop over `yy`, of `n` values from `yy` on.
unfoldable pub mark_column : ℕ → ℕ → ℤ → ℤ → Canvas → Option Canvas
unfolding mark
mark_column zero x color yy canvas = some canvas
mark_column (suc n) x color yy canvas =
    mark x color yy canvas >>= mark_column n x color (yy +ℤ pos 1)

abbrev pub lower_of : ℤ → ℤ → ℤ
lower_of a b = if leb_ℤ a b then a else b

abbrev pub upper_of : ℤ → ℤ → ℤ
upper_of a b = if leb_ℤ a b then b else a

-- `(lo, hi)`
abbrev pub stroke : Option ℤ → ℤ → ℤ × ℤ
stroke none y = (y, y)
stroke (some prev) y = (lower_of prev y, upper_of prev y)

-- `len(range(lo, hi + 1))`
abbrev pub span_of : ℤ × ℤ → ℕ
span_of (lo, hi) = pos_part (hi +ℤ pos 1 -ℤ lo)

pub low_scalar : (n : ℕ) → n < 55_296 → IsScalar n
low_scalar n h = ground (arith, h)

high_scalar : (n : ℕ) → 57_343 < n → n < 1_114_112 → IsScalar n
high_scalar n h k = ground (arith, h, k)

-- `chr`, less the surrogates, which are no characters.
unfoldable pub chr : ℕ → Option Char
unfolding dec_lt high_scalar
chr n =
    dite (dec_lt n 55_296) (λ h. some (char n (low_scalar n h)))
      (λ _.
        dite (dec_lt 57_343 n)
          (λ h. dite (dec_lt n 1_114_112) (λ k. some (char n (high_scalar n h k))) (λ _. none))
          (λ _. none))

-- `grid[r][c]`
abbrev pub cell_at : {A : Type 0} → List (List A) → ℕ → ℕ → Option A
cell_at grid r c = get_elem? grid r >>= λ row. get_elem? row c

abbrev pub is_rule : Option ℤ → ℕ → ℕ → Bool
is_rule none r c = false
is_rule (some rule_row) r c = eq_ℤ (pos r) rule_row && c % 2 == 0

-- The span of one cell.
unfoldable pub cell_span : Canvas → Option ℤ → ℤ → ℕ → ℕ → Option Span
unfolding chr
cell_span canvas rule_row limit_color r c = cell_at canvas.bits r c >>= λ bits.
    if bits == 0
    then some (if is_rule rule_row r c then ("╌", limit_color) else (" ", pos 0))
    else (chr (10_240 + bits) >>= λ braille.
        cell_at canvas.owner r c >>= λ color. some (of_chars (braille ∷ []), color))

-- The loop over `c`, of the `n` columns from `c` on.
unfoldable pub row_spans : Canvas → Option ℤ → ℤ → ℕ → ℕ → ℕ → Option (List Span)
unfolding cell_span
row_spans canvas rule_row limit_color r zero c = some []
row_spans canvas rule_row limit_color r (suc n) c =
    cell_span canvas rule_row limit_color r c >>= λ span.
    row_spans canvas rule_row limit_color r n (c + 1) >>= λ spans. some (span ∷ spans)

-- The loop over `r`.
unfoldable pub chart_rows : Canvas → Option ℤ → ℤ → ℕ → ℕ → ℕ → Option (List (List Span))
unfolding row_spans merge
chart_rows canvas rule_row limit_color width zero r = some []
chart_rows canvas rule_row limit_color width (suc n) r =
    row_spans canvas rule_row limit_color r width 0 >>= λ spans.
    chart_rows canvas rule_row limit_color width n (r + 1) >>= λ rows. some (merge spans ∷ rows)

abbrev pub blank_canvas : ℕ → ℕ → Canvas
blank_canvas width height = record {
  bits = replicate height (replicate width 0);
  owner = replicate height (replicate width (pos 0));
}

-- `max(1, n)`
abbrev pub at_least_one : ℤ → ℕ
at_least_one n = max 1 (pos_part n)

module _ {F : Type 0} ⦃f : Float F⦄ (y_min y_max : F) where
  -- `_scale`, with its division by zero
  unfoldable pub scaled_value : F → ℕ → Option ℤ
  unfolding scale
  scaled_value value dots_high =
      if f.eq (f.sub y_max y_min) (f.of_int (pos 0))
      then none
      else some (scale value y_min y_max dots_high)

  unfoldable pub rule_of : Option F → ℕ → Option (Option ℤ)
  unfolding scaled_value
  rule_of none dots_high = some none
  rule_of (some limit) dots_high = scaled_value limit dots_high >>= λ y. some (some (floor_div y 4))

  -- The loop over `samples`, from the dot column `x` on, with `prev`.
  unfoldable pub plot : ℤ → Series F → ℕ → ℕ → Option ℤ → List (Option F) → Canvas → Option Canvas
  unfolding scaled_value mark_column series_color
  plot heat_base s dots_high x prev [] canvas = some canvas
  plot heat_base s dots_high x prev (none ∷ samples) canvas =
      plot heat_base s dots_high (x + 1) none samples canvas
  plot heat_base s dots_high x prev (some value ∷ samples) canvas =
      scaled_value value dots_high >>= λ y.
      mark_column (span_of (stroke prev y)) x (series_color s (some value) heat_base)
        (stroke prev y).0 canvas
      >>= plot heat_base s dots_high (x + 1) (some y) samples

  -- The loop over `series`.
  unfoldable pub plot_all : ℤ → ℕ → ℕ → List (Series F) → Canvas → Option Canvas
  unfolding plot
  plot_all heat_base dots_wide dots_high [] canvas = some canvas
  plot_all heat_base dots_wide dots_high (s ∷ series) canvas =
      let samples = take_last dots_wide s.values in
      plot heat_base s dots_high (dots_wide - length samples) none samples canvas
      >>= plot_all heat_base dots_wide dots_high series

  -- `render_chart`
  unfoldable pub render_chart :
      List (Series F) → ℤ → ℤ → Option F → ℤ → ℤ → Option (List (List Span))
  unfolding plot_all rule_of chart_rows
  render_chart series width height limit limit_color heat_base =
      let wide = at_least_one width in
      let high = at_least_one height in
      plot_all heat_base (wide * 2) (high * 4) series (blank_canvas wide high) >>= λ canvas.
      rule_of limit (high * 4) >>= λ rule_row. chart_rows canvas rule_row limit_color wide high 0
