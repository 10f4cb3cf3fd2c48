-- ===== src/Float.antt =====
-- What the package does with Python's `float`: an interface, since the program implements none of
-- it. `round`, `ceil` and `show` are only applied to finite values there.
pub mod Order
pub mod Millis
use thelio_fans.Prelude.{ℕ, ℤ, pos, Bool, String, Option, none, some, List, [], ◌∷◌, if◌then◌else◌}

pub record Float (F : Type 0) : Type 0 where
  -- an `int` met where a `float` is wanted
  pub of_int : ℤ → F
  -- the literal m / 10 ^ k
  pub decimal : ℕ → ℕ → F
  pub add : F → F → F
  pub sub : F → F → F
  pub mul : F → F → F
  pub div : F → F → F
  -- `<=`, `<` and `==`, all false at NaN
  pub le : F → F → Bool
  pub lt : F → F → Bool
  pub eq : F → F → Bool
  -- `math.isfinite`
  pub is_finite : F → Bool
  -- `float(n)`: `none` is an OverflowError
  pub float_of : ℤ → Option F
  -- `round(x)`, to the nearest integer
  pub round : F → ℤ
  -- `math.ceil(x)`
  pub ceil : F → ℤ
  -- `f"{x:.kf}"`
  pub show : ℕ → F → String

module _ {F : Type 0} ⦃f : Float F⦄ where
  abbrev pub whole : ℕ → F
  whole n = f.of_int (pos n)

  -- The fold of `max` over what is left, from the largest so far: a later equal item does not win.
  abbrev pub larger : F → F → F
  larger best x = if f.lt best x then x else best

  abbrev pub smaller : F → F → F
  smaller best x = if f.lt x best then x else best

-- `max(x, *xs)` by a strict comparison of the items.
module _ {ℓ} {A : Type ℓ} (lt : A → A → Bool) where
  pub max_from : A → List A → A
  max_from best [] = best
  max_from best (x ∷ xs) = max_from (if lt best x then x else best) xs

  unfoldable pub max? : List A → Option A
  unfolding max_from
  max? [] = none
  max? (x ∷ xs) = some (max_from x xs)
