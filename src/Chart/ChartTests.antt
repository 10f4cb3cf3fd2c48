-- ===== src/Chart/ChartTests.antt =====
-- Runs and witnesses for chart.py.
use thelio_fans.Prelude.{
  ℕ, leb, ◌≤◌, ◌*◌, ◌/◌, pos, true, ◌≡◌, refl, some, none, [], ◌∷◌, List, arith, ◌+ℤ◌, ◌-ℤ◌, false,
  length, All, Succeeds,
}
use thelio_fans.Float.Millis.{Millis, millis_float, on_both, test_both}
use native.Mathlib.Nat.{mul-le-mul_right}
use thelio_fans.Chart.Grid.{render_chart}
use thelio_fans.Chart.Framed.{IsFramed, render_chart-IsFramed}
use thelio_fans.Chart.{Span, Series, merge, strip_spans}
use thelio_fans.Chart.Scales.{IsScalable, exact}
use thelio_fans.Chart.Canonical.{HasText, merge_canonical}
use thelio_fans.Chart.Merge.{painted, IsMerged, merge_lem}

abbrev spans : List Span
spans = ("a", pos 2) ∷ ("b", pos 2) ∷ (" ", pos 0) ∷ ("c", pos 2) ∷ []

merged_spans : merge spans ≡ ("ab", pos 2) ∷ (" ", pos 0) ∷ ("c", pos 2) ∷ []
unfolding merge
merged_spans = refl

hottest_core :
    strip_spans {F = Millis} (("Core 0", some (some 100_000)) ∷ ("Core 1", none) ∷ []) (pos 20)
    ≡ some (("█", pos 35) ∷ ("?", pos 0) ∷ [])
unfolding strip_spans ◌+ℤ◌
hottest_core = refl

merge_lem_example : (painted (merge spans) ≡ painted spans) × IsMerged (merge spans)
merge_lem_example = merge_lem spans

-- Two characters of a colour, in one span and in two.
abbrev together : List Span
together = ("ab", pos 1) ∷ ("c", pos 2) ∷ []

abbrev apart : List Span
apart = ("a", pos 1) ∷ ("b", pos 1) ∷ ("c", pos 2) ∷ []

together-HasText : All HasText together
together-HasText = ((λ e. cc), ((λ e. cc), tt))

apart-HasText : All HasText apart
apart-HasText = ((λ e. cc), ((λ e. cc), ((λ e. cc), tt)))

merge_canonical_example : (merge together ≡ merge apart) × (merge (merge together) ≡ merge together)
merge_canonical_example = merge_canonical together apart together-HasText apart-HasText refl

millis_product :
    (x : Millis) (n : ℕ)
    → n ≤ exact
    → test_both leb (some 0) x ≡ true
    → test_both leb x (some 1000) ≡ true
    → (test_both leb (some 0) (on_both (λ a b. a * b / 1000) x (some (n * 1000))) ≡ true)
      × (test_both leb (on_both (λ a b. a * b / 1000) x (some (n * 1000))) (some (n * 1000)) ≡ true)
millis_product none n small_n h k = absurd (ground (arith, h))
millis_product (some a) n small_n h k =
    let small : a ≤ 1000 = ground (arith, k) in
    let product_le : a * (n * 1000) ≤ 1000 * (n * 1000) = mul-le-mul_right (n * 1000) small in
    let le : a * (n * 1000) / 1000 ≤ n * 1000 = omega (arith, product_le) in
    (ground arith, ground (arith, le))

millis-IsScalable : IsScalable millis_float
millis-IsScalable = record {
  zero_one = refl;
  zero_zero = refl;
  one_one = refl;
  le_of_lt = λ x y h. ground arith;
  complement = λ x h k. ground arith;
  product = millis_product;
  round_in = λ x n small h k. ground arith;
}

abbrev fan_series : Series Millis
fan_series = record {
  name = "Fan";
  values = some (some 20_000) ∷ none ∷ some (some 90_000) ∷ some (some 10_000) ∷ [];
  color = pos 3;
  unit = " rpm";
  heat = false;
}

-- A lone dot, then a stroke over both rows of cells.
drawn_chart :
    render_chart {F = Millis}
      (some 0)
      (some 100_000)
      (fan_series ∷ [])
      (pos 3)
      (pos 2)
      none
      (pos 4)
      (pos 20)
    ≡ some ((("  ", pos 0) ∷ ("⢲", pos 3) ∷ []) ∷ ((" ", pos 0) ∷ ("⠄⠸", pos 3) ∷ []) ∷ [])
unfolding render_chart ◌-ℤ◌ ◌+ℤ◌
drawn_chart = refl

render_chart-IsFramed_example :
    Succeeds
      (λ rows. (length rows ≡ 2) × All (λ row. IsFramed 3 row × IsMerged row) rows)
      (render_chart {F = Millis}
        (some 0)
        (some 100_000)
        (fan_series ∷ [])
        (pos 3)
        (pos 2)
        none
        (pos 4)
        (pos 20))
render_chart-IsFramed_example =
    render_chart-IsFramed millis-IsScalable (some 0) (some 100_000) (fan_series ∷ []) (pos 3)
      (pos 2) none (pos 4) (pos 20) refl (omega arith)
