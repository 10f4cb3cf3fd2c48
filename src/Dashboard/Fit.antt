-- ===== src/Dashboard/Fit.antt =====
-- dashboard.py, `_run`: a frame stays on the screen, and its charts leave room for the table.
use Prim.Native.Char.{Char}
use thelio_fans.Prelude.{
  ℕ, zero, suc, ◌+◌, ◌*◌, ◌≤◌, ◌<◌, leb, ℤ, pos, ◌-ℤ◌, String, str_eq, concat, Bool, false, ◌&&◌,
  ◌≡◌, refl, Option, none, some, List, [], ◌∷◌, ◌++◌, filter, take, length, length-take, All,
  All-append, ◌>>=◌, if_elim, arith,
}
use thelio_fans.Float.{Float}
use thelio_fans.Snapshot.{Snapshot}
use thelio_fans.Chart.{core_strip, legend}
use thelio_fans.Chart.Axis.{x_labels}
use thelio_fans.Chart.Grid.{render_chart}
use thelio_fans.Dashboard.Colors.{muted, red, cyan}
use thelio_fans.Dashboard.Histories.{Histories, max_history}
use thelio_fans.Dashboard.Groups.{ChartGroup, chart_groups}
use thelio_fans.Dashboard.Cores.{core_readings}
use thelio_fans.Dashboard.View.{page_of}
use thelio_fans.Dashboard.Screen.{
  Written, color_pair, heat_base, draw_chart, IsInside, put-IsInside, put_spans-IsInside,
  put_rows-IsInside,
}
use thelio_fans.Dashboard.Layout.{
  chart_rows_of, has_series, shown_groups, strip_below, charts_from, charts,
}

module _ (is_printable : Char → Bool) (height width : ℕ) where
  -- What is written, and the row after it, if nothing raises.
  abbrev pub Drawn : (ℕ → Type 0) → Option (List Written × ℕ) → Type 0
  Drawn P none = Unit
  Drawn P (some (written, top)) = All (IsInside is_printable height width) written × P top

  Drawn-bind :
      (P Q : ℕ → Type 0) (o : Option (List Written × ℕ))
      (k : List Written × ℕ → Option (List Written × ℕ))
      → Drawn P o
      → ((w : List Written) (top : ℕ)
          → All (IsInside is_printable height width) w
          → P top
          → Drawn Q (k (w, top)))
      → Drawn Q (o >>= k)
  Drawn-bind P Q none k h next = tt
  Drawn-bind P Q (some (w, top)) k (all, p) next = next w top all p

  pub Drawn-impl :
      (P Q : ℕ → Type 0) (o : Option (List Written × ℕ))
      → ((top : ℕ) → P top → Q top)
      → Drawn P o
      → Drawn Q o
  Drawn-impl P Q none h d = tt
  Drawn-impl P Q (some (w, top)) h (all, p) = (all, h top p)

  -- Code that only computes what is written.
  Drawn-after :
      {A : Type 0} (Q : ℕ → Type 0) (o : Option A) (k : A → Option (List Written × ℕ))
      → ((a : A) → Drawn Q (k a))
      → Drawn Q (o >>= k)
  Drawn-after Q none k h = tt
  Drawn-after Q (some a) k h = h a

  abbrev join-IsInside :
      (v w : List Written)
      → All (IsInside is_printable height width) v
      → All (IsInside is_printable height width) w
      → All (IsInside is_printable height width) (v ++ w)
  join-IsInside = All-append (IsInside is_printable height width)

  module _ {F : Type 0} ⦃f : Float F⦄ (is_space : Char → Bool) (interval : F) where
    draw_chart-Drawn :
        (top : ℕ) (group : ChartGroup F) (w : ℤ) (rows : ℕ)
        → Drawn
            (λ t. t ≡ top + 2 + rows)
            (draw_chart is_printable height width top group w rows interval)
    unfolding draw_chart
    draw_chart-Drawn top group w rows =
        Drawn-after (λ t. t ≡ top + 2 + rows)
          (render_chart group.y_min group.y_max group.series w (pos rows) group.limit
            (color_pair red) heat_base)
          _
          (λ lines. (
            join-IsInside _ _
                (join-IsInside _ _
                  (put_spans-IsInside is_printable height width top (
                    (concat (group.title ∷ "  " ∷ []), color_pair cyan)
                    ∷ legend group.series group.limit (color_pair red) heat_base))
                  (put_rows-IsInside is_printable height width (top + 1) lines))
                (put-IsInside is_printable height width (top + 1 + rows)
                  (concat ("  " ∷ x_labels w max_history interval ∷ [])) (color_pair muted) false),
            refl,
          ))

    strip_below-Drawn :
        (snapshot : Snapshot F) (title : String) (top : ℕ)
        → Drawn
            (λ t. t ≤ top + 1)
            (strip_below is_space is_printable height width interval snapshot title top)
    unfolding strip_below
    strip_below-Drawn snapshot title top =
        if_elim (Drawn (λ t. t ≤ top + 1)) (str_eq title "TEMPERATURES") _ _
          (λ _.
            Drawn-after (λ t. t ≤ top + 1) (core_readings is_space snapshot) _
              (λ cores.
                Drawn-after (λ t. t ≤ top + 1) (core_strip cores heat_base) _
                  (λ strip. (
                    put_spans-IsInside is_printable height width top
                        (("cores  ", color_pair muted) ∷ strip),
                    omega arith,
                  ))))
          (λ _. (tt, omega arith))

    charts_from-Drawn :
        (snapshot : Snapshot F) (rows top : ℕ) (groups : List (ChartGroup F))
        → Drawn
            (λ t. t ≤ top + length groups * (rows + 4))
            (charts_from is_space is_printable height width interval snapshot rows top groups)
    unfolding charts_from
    charts_from-Drawn snapshot rows top [] = (tt, omega arith)
    charts_from-Drawn snapshot rows top (group ∷ groups) =
        let Below = λ (t : ℕ). t ≤ top + suc (length groups) * (rows + 4) in
        Drawn-bind (λ t. t ≡ top + 2 + rows) Below
          (draw_chart is_printable height width top group (pos width -ℤ pos 5) rows interval) _
          (draw_chart-Drawn top group (pos width -ℤ pos 5) rows)
          (λ v t v_in e.
            Drawn-bind (λ u. u ≤ t + 1) Below
              (strip_below is_space is_printable height width interval snapshot group.title t) _
              (strip_below-Drawn snapshot group.title t)
              (λ x u x_in le.
                Drawn-bind (λ s. s ≤ u + 1 + length groups * (rows + 4)) Below
                  (charts_from is_space is_printable height width interval snapshot rows (u + 1)
                    groups)
                  _ (charts_from-Drawn snapshot rows (u + 1) groups)
                  (λ y s y_in le'. (
                    join-IsInside (v ++ x) y (join-IsInside v x v_in x_in) y_in,
                    omega (arith, e, le, le'),
                  ))))

module _ {F : Type 0} where
  length-has_series :
      (groups : List (ChartGroup F)) → length (filter has_series groups) ≤ length groups
  length-has_series [] = omega arith
  length-has_series (g ∷ groups) =
      if_elim (λ l. length l ≤ suc (length groups)) (has_series g) (g ∷ filter has_series groups)
        (filter has_series groups) (λ _. omega (arith, length-has_series groups))
        (λ _. omega (arith, length-has_series groups))

  -- At most as many charts as groups, and one only on a terminal of less than 48 rows.
  length-shown_groups :
      (height : ℕ) (groups : List (ChartGroup F))
      → (length (shown_groups height groups) ≤ length groups)
        × (height < 48 → length (shown_groups height groups) ≤ 1)
  unfolding shown_groups
  length-shown_groups height groups =
      let drawn = filter has_series groups in
      if_elim (λ l. (length l ≤ length groups) × (height < 48 → length l ≤ 1)) (leb 48 height) drawn
        (take 1 drawn) (λ e. (length-has_series groups, λ lt. absurd (ground (arith, e, lt))))
        (λ e. (
          omega (arith, length-take 1 drawn, length-has_series groups),
          λ lt. omega (arith, length-take 1 drawn),
        ))

two_groups :
    {F : Type 0} ⦃f : Float F⦄ (snapshot : Snapshot F) (histories : Histories)
    → length (chart_groups snapshot histories) ≡ 2
unfolding chart_groups
two_groups snapshot histories = refl

-- A chart is not so high that the table has less than 11 rows.
page_left :
    (height shown top : ℕ)
    → 24 ≤ height
    → shown ≤ 2
    → (height < 48 → shown ≤ 1)
    → top ≤ 3 + shown * (chart_rows_of height shown + 4)
    → 11 ≤ page_of height top
unfolding chart_rows_of page_of
page_left height zero top tall few single le = ground (arith, tall, le)
page_left height (suc zero) top tall few single le = ground (arith, tall, le)
page_left height (suc (suc zero)) top tall few single le = ground (arith, tall, le, single)
page_left height (suc (suc (suc n))) top tall few single le = absurd (omega (arith, few))

module _ {F : Type 0} ⦃f : Float F⦄ (is_space is_printable : Char → Bool) (height width : ℕ)
    (interval : F) where
  -- The row after the charts is bounded by their number.
  pub charts_below :
      (snapshot : Snapshot F) (histories : Histories)
      → let shown = shown_groups height (chart_groups snapshot histories) in
        Drawn is_printable height width
          (λ top. top ≤ 3 + length shown * (chart_rows_of height (length shown) + 4))
          (charts is_space is_printable height width interval snapshot histories)
  unfolding charts
  charts_below snapshot histories =
      let shown = shown_groups height (chart_groups snapshot histories) in
      let rows = chart_rows_of height (length shown) in
      if_elim (Drawn is_printable height width (λ top. top ≤ 3 + length shown * (rows + 4)))
        (leb 24 height && leb 60 width) _ _
        (λ _. charts_from-Drawn is_printable height width is_space interval snapshot rows 3 shown)
        (λ _. (tt, omega arith))

  -- On a terminal of at least 24 rows, whatever the charts, everything that they write is inside the
  -- screen, and the table below them has at least 11 rows.
  pub charts-Drawn :
      (snapshot : Snapshot F) (histories : Histories)
      → 24 ≤ height
      → Drawn is_printable height width
          (λ top. 11 ≤ page_of height top)
          (charts is_space is_printable height width interval snapshot histories)
  charts-Drawn snapshot histories tall =
      let groups = chart_groups snapshot histories in
      let shown = shown_groups height groups in
      let (few, single) = length-shown_groups height groups in
      Drawn-impl is_printable height width
        (λ top. top ≤ 3 + length shown * (chart_rows_of height (length shown) + 4))
        (λ top. 11 ≤ page_of height top)
        (charts is_space is_printable height width interval snapshot histories)
        (λ top le.
          page_left height (length shown) top tall
            (omega (arith, few, two_groups snapshot histories)) single le)
        (charts_below snapshot histories)
