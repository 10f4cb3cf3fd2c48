-- ===== src/Chart/Framed.antt =====
-- chart.py: `render_chart` fills its frame.
use Prim.Native.Char.{Char, char, code}
use thelio_fans.Prelude.{
  ℕ, zero, suc, ◌+◌, ◌-◌, ◌*◌, ◌≤◌, ◌<◌, ℤ, pos, negsuc, leb_ℤ, true, false, ◌≡◌, refl, sym, ap,
  ◌⊎◌, inl, inr, Option, none, some, List, [], ◌∷◌, length, take_last, length-take_last, get_elem?,
  All, Succeeds, bind-Succeeds, Succeeds-result, ◌==◌, Bool-cases, get_elem-Succeeds, arith,
  if_elim,
}
use mathlib.Core.Path.{subst}
use mathlib.Core.Logic.{dite}
use native.Mathlib.Decide.{dec_lt}
use thelio_fans.Float.{Float}
use thelio_fans.Text.{chars}
use thelio_fans.Chart.{Span, Series, scale, series_color, merge}
use thelio_fans.Chart.Scales.{IsScalable, exact, scale_in_range}
use thelio_fans.Chart.Merge.{painted, IsMerged, merge_lem}
use thelio_fans.Chart.Grid.{
  Canvas, cell_at, cell_span, chr, low_scalar, is_rule, row_spans, chart_rows, at_least_one,
  blank_canvas, scaled_value, rule_of, plot, plot_all, render_chart,
}
use thelio_fans.Chart.Canvas.{
  IsRow, IsGrid, IsDots, Anything, IsCanvas, blank-IsGrid, stroke-Succeeds, IsDotRow, IsPrevious,
}

-- A blank, the rule's dash, or a braille pattern that is not empty.
abbrev pub IsMark : Char → Type 0
IsMark c = (code c ≡ 32) ⊎ ((code c ≡ 9548) ⊎ ((10_240 < code c) × (code c < 10_496)))

abbrev IsCell : Span → Type 0
IsCell (text, color) = (c : Char) × (chars text ≡ c ∷ []) × IsMark c

cell_at-Succeeds :
    {A : Type 0} (P : A → Type 0) (width height r c : ℕ) (grid : List (List A))
    → IsGrid P width height grid
    → r < height
    → c < width
    → Succeeds P (cell_at grid r c)
cell_at-Succeeds P width height r c grid (size, rows) lr lc =
    bind-Succeeds (IsRow P width) P (get_elem? grid r) (λ row. get_elem? row c)
      (get_elem-Succeeds (IsRow P width) grid r rows (omega (arith, size, lr)))
      (λ row (n, all). get_elem-Succeeds P row c all (omega (arith, n, lc)))

decided :
    {P : Type 0} {A : Type 0} (d : Dec P) (x : P → A) (y : ¬ P → A)
    → P
    → (p : P) × (dite d x y ≡ x p)
decided (yes p) x y q = (p, refl)
decided (no n) x y q = absurd (n q)

chr_braille :
    (bits : ℕ)
    → IsDots bits
    → (bits == 0) ≡ false
    → (c : Char) × (chr (10_240 + bits) ≡ some c) × IsMark c
unfolding chr
chr_braille bits d e =
    let lit : 10_240 < 10_240 + bits = ground (arith, e) in
    let small : 10_240 + bits < 10_496 = omega (arith, d) in
    let (h, same) = decided (dec_lt (10_240 + bits) 55_296) _ _ (omega (arith, d)) in
    (char (10_240 + bits) (low_scalar (10_240 + bits) h), same, inr (inr (lit, small)))

cell_span-Succeeds :
    (width height r c : ℕ) (canvas : Canvas) (rule_row : Option ℤ) (limit_color : ℤ)
    → IsCanvas width height canvas
    → r < height
    → c < width
    → Succeeds IsCell (cell_span canvas rule_row limit_color r c)
unfolding cell_span
cell_span-Succeeds width height r c canvas rule_row limit_color (b, o) lr lc =
    let (bits, eb, d) =
      Succeeds-result IsDots _ (cell_at-Succeeds IsDots width height r c canvas.bits b lr lc) in
    let (owner, eo, _) =
      Succeeds-result Anything _
        (cell_at-Succeeds Anything width height r c canvas.owner o lr lc) in
    elim (Bool-cases (bits == 0)) [
      | inl blank ↦
          rw (eb, blank)
            (if_elim IsCell (is_rule rule_row r c) ("╌", limit_color) (" ", pos 0)
              (λ _. ("╌", refl, inr (inl refl))) (λ _. (" ", refl, inl refl)))
      | inr lit ↦
          let (braille, ec, m) = chr_braille bits d lit in rw (eb, lit, ec, eo) (braille, refl, m)
    ]

-- A row of the chart, as the terminal shows it.
abbrev pub IsFramed : ℕ → List Span → Type 0
IsFramed width row = (length (painted row) ≡ width) × All (λ mark. IsMark mark.0) (painted row)

cons-IsFramed :
    (span : Span) (spans : List Span) (n : ℕ)
    → IsCell span
    → IsFramed n spans
    → IsFramed (suc n) (span ∷ spans)
cons-IsFramed (text, color) spans n (c, e, m) (size, marks) = rw e (ap suc size, (m, marks))

row_spans-Succeeds :
    (width height r n c : ℕ) (canvas : Canvas) (rule_row : Option ℤ) (limit_color : ℤ)
    → IsCanvas width height canvas
    → r < height
    → c + n ≤ width
    → Succeeds (IsFramed n) (row_spans canvas rule_row limit_color r n c)
unfolding row_spans
row_spans-Succeeds width height r zero c canvas rule_row limit_color i lr lc = (refl, tt)
row_spans-Succeeds width height r (suc n) c canvas rule_row limit_color i lr lc =
    let (span, e, cell) =
      Succeeds-result IsCell _ (
        cell_span-Succeeds width height r c canvas rule_row limit_color i lr (omega (arith, lc))) in
    let (spans, e', row) = Succeeds-result (IsFramed n) _ (
      row_spans-Succeeds width height r n (c + 1) canvas rule_row limit_color i lr
        (omega (arith, lc))) in
    rw (e, e') (cons-IsFramed span spans n cell row)

chart_rows-Succeeds :
    (width height n r : ℕ) (canvas : Canvas) (rule_row : Option ℤ) (limit_color : ℤ)
    → IsCanvas width height canvas
    → r + n ≤ height
    → Succeeds
        (IsRow (λ row. IsFramed width row × IsMerged row) n)
        (chart_rows canvas rule_row limit_color width n r)
unfolding chart_rows
chart_rows-Succeeds width height zero r canvas rule_row limit_color i lr = (refl, tt)
chart_rows-Succeeds width height (suc n) r canvas rule_row limit_color i lr =
    let (spans, e, framed) = Succeeds-result (IsFramed width) _ (
      row_spans-Succeeds width height r width 0 canvas rule_row limit_color i (omega (arith, lr))
        (omega arith)) in
    let (rows, e', (size, all)) =
      Succeeds-result (IsRow (λ row. IsFramed width row × IsMerged row) n) _ (
        chart_rows-Succeeds width height n (r + 1) canvas rule_row limit_color i
          (omega (arith, lr))) in
    let (same, merged) = merge_lem spans in
    let shown : IsFramed width (merge spans) =
      subst (λ p. (length p ≡ width) × All (λ (m : Char × ℤ). IsMark m.0) p) (sym same) framed in
    rw (e, e') (ap suc size, ((shown, merged), all))

module _ {F : Type 0} ⦃f : Float F⦄ (laws : IsScalable f) (y_min y_max : F) where
  scaled_value-Succeeds :
      (value : F) (high : ℕ)
      → f.eq (f.sub y_max y_min) (f.of_int (pos 0)) ≡ false
      → 0 < high
      → high ≤ exact
      → Succeeds (IsDotRow high) (scaled_value y_min y_max value high)
  unfolding scaled_value
  scaled_value-Succeeds value high e lt small =
      let (ge, le, _, _) = scale_in_range F laws value y_min y_max high small in
      rw e (on_rows (scale value y_min y_max high) ge le)
    where
      on_rows : (y : ℤ) → leb_ℤ (pos 0) y ≡ true → leb_ℤ y (pos (high - 1)) ≡ true → IsDotRow high y
      on_rows (pos n) ge le = ground (arith, le, lt)
      on_rows (negsuc n) ge le = absurd (ground (arith, ge))

  plot-Succeeds :
      (width height : ℕ) (heat_base : ℤ) (s : Series F) (x : ℕ) (prev : Option ℤ)
      (samples : List (Option F)) (canvas : Canvas)
      → f.eq (f.sub y_max y_min) (f.of_int (pos 0)) ≡ false
      → 0 < height
      → height * 4 ≤ exact
      → IsPrevious (height * 4) prev
      → x + length samples ≤ width * 2
      → IsCanvas width height canvas
      → Succeeds
          (IsCanvas width height)
          (plot y_min y_max heat_base s (height * 4) x prev samples canvas)
  unfolding plot
  plot-Succeeds width height heat_base s x prev [] canvas e h b p lx i = i
  plot-Succeeds width height heat_base s x prev (none ∷ samples) canvas e h b p lx i =
      plot-Succeeds width height heat_base s (x + 1) none samples canvas e h b tt
        (omega (arith, lx)) i
  plot-Succeeds width height heat_base s x prev (some value ∷ samples) canvas e h b p lx i =
      let (y, ey, row) =
        Succeeds-result (IsDotRow (height * 4)) _
          (scaled_value-Succeeds value (height * 4) e (omega (arith, h)) b) in
      let (next, en, i') = Succeeds-result (IsCanvas width height) _ (
        stroke-Succeeds width height x prev y (series_color s (some value) heat_base) canvas i
          (omega (arith, lx)) p row) in
      rw (ey, en)
        (plot-Succeeds width height heat_base s (x + 1) (some y) samples next e h b row
          (omega (arith, lx)) i')

  plot_all-Succeeds :
      (width height : ℕ) (heat_base : ℤ) (series : List (Series F)) (canvas : Canvas)
      → f.eq (f.sub y_max y_min) (f.of_int (pos 0)) ≡ false
      → 0 < height
      → height * 4 ≤ exact
      → IsCanvas width height canvas
      → Succeeds
          (IsCanvas width height)
          (plot_all y_min y_max heat_base (width * 2) (height * 4) series canvas)
  unfolding plot_all
  plot_all-Succeeds width height heat_base [] canvas e h b i = i
  plot_all-Succeeds width height heat_base (s ∷ series) canvas e h b i =
      let samples = take_last (width * 2) s.values in
      bind-Succeeds (IsCanvas width height) (IsCanvas width height) _
        (plot_all y_min y_max heat_base (width * 2) (height * 4) series)
        (plot-Succeeds width height heat_base s (width * 2 - length samples) none samples canvas e h
          b tt (omega (arith, length-take_last (width * 2) s.values)) i)
        (λ next i'. plot_all-Succeeds width height heat_base series next e h b i')

  rule_of-Succeeds :
      (limit : Option F) (high : ℕ)
      → f.eq (f.sub y_max y_min) (f.of_int (pos 0)) ≡ false
      → 0 < high
      → high ≤ exact
      → Succeeds Anything (rule_of y_min y_max limit high)
  unfolding rule_of
  rule_of-Succeeds none high e h small = tt
  rule_of-Succeeds (some limit) high e h small =
      bind-Succeeds (IsDotRow high) Anything (scaled_value y_min y_max limit high) _
        (scaled_value-Succeeds limit high e h small) (λ _ _. tt)

  -- Under the laws of floats that the scales need, on an axis whose ends differ and with at most
  -- 2 ^ 53 rows of dots, a chart is always drawn, whatever the samples, NaN too: it has as many rows as asked for and at least one,
  -- each of as many cells as asked for and at least one; every cell shows a blank, the rule's dash
  -- or a braille pattern that is not empty, and no two neighbouring spans have one colour.
  pub render_chart-IsFramed :
      (series : List (Series F)) (width height : ℤ) (limit : Option F) (limit_color heat_base : ℤ)
      → f.eq (f.sub y_max y_min) (f.of_int (pos 0)) ≡ false
      → at_least_one height * 4 ≤ exact
      → Succeeds
          (λ rows.
            (length rows ≡ at_least_one height)
            × All (λ row. IsFramed (at_least_one width) row × IsMerged row) rows)
          (render_chart y_min y_max series width height limit limit_color heat_base)
  unfolding render_chart
  render_chart-IsFramed series width height limit limit_color heat_base e small =
      let wide = at_least_one width in
      let high = at_least_one height in
      let some_row : 0 < high = omega arith in
      let blank : IsCanvas wide high (blank_canvas wide high) = (
        blank-IsGrid IsDots wide high 0 (omega arith),
        blank-IsGrid Anything wide high (pos 0) tt,
      ) in
      let (canvas, ec, i) = Succeeds-result (IsCanvas wide high) _ (
        plot_all-Succeeds wide high heat_base series (blank_canvas wide high) e some_row small
          blank) in
      let (rule_row, er, _) =
        Succeeds-result Anything _
          (rule_of-Succeeds limit (high * 4) e (omega (arith, some_row)) small) in
      rw (ec, er) (chart_rows-Succeeds wide high high 0 canvas rule_row limit_color i (omega arith))
