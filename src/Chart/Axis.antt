-- ===== src/Chart/Axis.antt =====
-- chart.py: `x_labels`.
use Prim.Native.Nat.{max}
use thelio_fans.Prelude.{
  ℕ, ◌+◌, ◌-◌, ◌/◌, ℤ, pos, negsuc, ◌-ℤ◌, String, concat, ◌≡◌, [], ◌∷◌, ltb, pos_part,
  if◌then◌else◌, arith,
}
use thelio_fans.Float.{Float, whole}
use thelio_fans.Show.{str_ℤ}
use thelio_fans.Format.{text_length, repeated, space, length-concat, length-repeated}
use thelio_fans.Chart.Grid.{floor_div, floor_mod, at_least_one}

-- `f"{s:02d}"`, of a number that is not negative
abbrev pub two_digits : ℕ → String
two_digits s = if ltb s 10 then concat ("0" ∷ str_ℤ (pos s) ∷ []) else str_ℤ (pos s)

-- `ago`, on the seconds rounded
unfoldable pub ago : ℤ → String
ago seconds =
    concat ("-" ∷ str_ℤ (floor_div seconds 60) ∷ ":" ∷ two_digits (floor_mod seconds 60) ∷ [])

unfoldable pub axis : ℤ → String → String → String
unfolding repeated
axis width left mid =
    let right : String = "now" in
    let gap =
      at_least_one
        (width -ℤ pos (text_length left) -ℤ pos (text_length mid) -ℤ pos (text_length right)) in
    concat (left ∷ repeated space (gap / 2) ∷ mid ∷ repeated space (gap - gap / 2) ∷ right ∷ [])

module _ {F : Type 0} ⦃f : Float F⦄ where
  -- `x_labels`
  unfoldable pub x_labels : ℤ → ℕ → F → String
  unfolding axis ago
  x_labels width samples interval_s =
      let span_s = f.mul (whole samples) interval_s in
      axis width (ago (f.round span_s)) (ago (f.round (f.div span_s (whole 2))))

-- The blanks between three labels of lengths `a`, `b` and `c`.
gap_of : ℤ → ℕ → ℕ → ℕ → ℕ
gap_of width a b c = at_least_one (width -ℤ pos a -ℤ pos b -ℤ pos c)

gap_lem :
    (width : ℤ) (a b c : ℕ)
    → a + (gap_of width a b c + (b + c)) ≡ max (pos_part width) (a + b + c + 1)
unfolding ◌-ℤ◌ gap_of
gap_lem (pos n) a b c = ground arith
gap_lem (negsuc n) a b c = ground arith

-- The time axis is as wide as asked for, or just wide enough for its labels and one blank.
pub length-axis :
    (width : ℤ) (left mid : String)
    → text_length (axis width left mid)
      ≡ max (pos_part width) (text_length left + text_length mid + 4)
unfolding axis gap_of
length-axis width left mid =
    let gap = gap_of width (text_length left) (text_length mid) 3 in
    omega (
      arith,
      length-concat
          (left ∷ repeated space (gap / 2) ∷ mid ∷ repeated space (gap - gap / 2) ∷ "now" ∷ []),
      length-repeated space (gap / 2),
      length-repeated space (gap - gap / 2),
      gap_lem width (text_length left) (text_length mid) 3,
    )

module _ {F : Type 0} ⦃f : Float F⦄ where
  -- The time axis is as wide as asked for or, if its labels do not fit, just wide enough for them
  -- and one blank.
  pub length-x_labels :
      (width : ℤ) (samples : ℕ) (interval_s : F)
      → let span_s = f.mul (whole samples) interval_s in
        text_length (x_labels width samples interval_s)
        ≡ max (pos_part width) (
            text_length (ago (f.round span_s))
            + text_length (ago (f.round (f.div span_s (whole 2))))
            + 4)
  unfolding x_labels
  length-x_labels width samples interval_s =
      let span_s = f.mul (whole samples) interval_s in
      length-axis width (ago (f.round span_s)) (ago (f.round (f.div span_s (whole 2))))
