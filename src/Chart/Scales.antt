-- ===== src/Chart/Scales.antt =====
-- chart.py: the bounds of `_scale` and `heat_level`.
use thelio_fans.Prelude.{ℕ, ◌-◌, ◌≤◌, arith, pos, leb_ℤ, true, ◌≡◌, if_elim}
use thelio_fans.Float.{Float, whole, larger}
use thelio_fans.Chart.{unit_clamp, scale, heat_level}

-- Whole numbers up to this one, 2 ^ 53, are floats.
abbrev pub exact : ℕ
exact = 9_007_199_254_740_992

-- What the scales need of the floats from 0.0 to 1.0 and of `round`, for whole numbers up to 2 ^ 53:
-- a subtraction from 1.0 and a product with a whole number stay in range, and rounding keeps a value
-- between 0 and a whole number there. Doubles satisfy it, since their operations are monotone and
-- exact on these bounds; a NaN or an infinity is in none of the ranges.
pub record IsScalable {F : Type 0} (f : Float F) : Type 0 where
  pub zero_one : f.le (f.decimal 0 1) (f.decimal 10 1) ≡ true
  pub zero_zero : f.le (f.decimal 0 1) (f.decimal 0 1) ≡ true
  pub one_one : f.le (f.decimal 10 1) (f.decimal 10 1) ≡ true
  pub le_of_lt : (x y : F) → f.lt x y ≡ true → f.le x y ≡ true
  pub complement :
      (x : F)
      → f.le (f.decimal 0 1) x ≡ true
      → f.le x (f.decimal 10 1) ≡ true
      → (f.le (f.decimal 0 1) (f.sub (f.decimal 10 1) x) ≡ true)
        × (f.le (f.sub (f.decimal 10 1) x) (f.decimal 10 1) ≡ true)
  pub product :
      (x : F) (n : ℕ)
      → n ≤ exact
      → f.le (f.decimal 0 1) x ≡ true
      → f.le x (f.decimal 10 1) ≡ true
      → (f.le (f.of_int (pos 0)) (f.mul x (f.of_int (pos n))) ≡ true)
        × (f.le (f.mul x (f.of_int (pos n))) (f.of_int (pos n)) ≡ true)
  pub round_in :
      (x : F) (n : ℕ)
      → n ≤ exact
      → f.le (f.of_int (pos 0)) x ≡ true
      → f.le x (f.of_int (pos n)) ≡ true
      → (leb_ℤ (pos 0) (f.round x) ≡ true) × (leb_ℤ (f.round x) (pos n) ≡ true)

module _ (F : Type 0) ⦃f : Float F⦄ (laws : IsScalable f) where
  open laws use {zero_one, zero_zero, one_one, le_of_lt, complement, product, round_in}

  IsUnit : F → Type 0
  IsUnit x = (f.le (f.decimal 0 1) x ≡ true) × (f.le x (f.decimal 10 1) ≡ true)

  unit_clamp-IsUnit : (x : F) → IsUnit (unit_clamp x)
  unfolding IsUnit
  unit_clamp-IsUnit x =
      let low = larger (f.decimal 0 1) x in
      let low_ge : f.le (f.decimal 0 1) low ≡ true =
        if_elim (λ y. f.le (f.decimal 0 1) y ≡ true) (f.lt (f.decimal 0 1) x) x (f.decimal 0 1)
          (le_of_lt (f.decimal 0 1) x) (λ _. zero_zero) in
      if_elim (λ y. (f.le (f.decimal 0 1) y ≡ true) × (f.le y (f.decimal 10 1) ≡ true))
        (f.lt low (f.decimal 10 1)) low (f.decimal 10 1)
        (λ e. (low_ge, le_of_lt low (f.decimal 10 1) e)) (λ _. (zero_one, one_one))

  rounded-product :
      (x : F) (n : ℕ)
      → n ≤ exact
      → IsUnit x
      → (leb_ℤ (pos 0) (f.round (f.mul x (whole n))) ≡ true)
        × (leb_ℤ (f.round (f.mul x (whole n))) (pos n) ≡ true)
  unfolding IsUnit
  rounded-product x n small (ge, le) =
      let (low, high) = product x n small ge le in round_in (f.mul x (whole n)) n small low high

  -- Under the laws of floats above, whatever the value, NaN too, with at most 2 ^ 53 rows, the dot row of `_scale` is one of
  -- the rows from 0 to the last, and the level of `heat_level` is one of the 16.
  pub scale_in_range :
      (value y_min y_max : F) (dots_high : ℕ)
      → dots_high ≤ exact
      → (leb_ℤ (pos 0) (scale value y_min y_max dots_high) ≡ true)
        × (leb_ℤ (scale value y_min y_max dots_high) (pos (dots_high - 1)) ≡ true)
        × (leb_ℤ (pos 0) (heat_level value) ≡ true)
        × (leb_ℤ (heat_level value) (pos 15) ≡ true)
  unfolding scale heat_level IsUnit
  scale_in_range value y_min y_max dots_high small =
      let frac = f.div (f.sub value y_min) (f.sub y_max y_min) in
      let (ge, le) = unit_clamp-IsUnit frac in
      let (row_ge, row_le) =
        rounded-product (f.sub (f.decimal 10 1) (unit_clamp frac)) (dots_high - 1)
          (omega (arith, small)) (complement (unit_clamp frac) ge le) in
      let heat =
        f.div (f.sub value (f.decimal 300 1)) (f.sub (f.decimal 1000 1) (f.decimal 300 1)) in
      let (level_ge, level_le) =
        rounded-product (unit_clamp heat) 15 (omega arith) (unit_clamp-IsUnit heat) in
      (row_ge, row_le, level_ge, level_le)
