-- ===== src/Float/Order.antt =====
-- The order of the finite floats, as IEEE 754 has it, and the maximum of a list of such floats.
use thelio_fans.Prelude.{
  ◌≡◌, inl, refl, true, not, some, List, [], ◌∷◌, All, IsIn, arith, if◌then◌else◌,
}
use mathlib.Core.Path.{subst}
use mathlib.Core.Option.{some-injective}
use thelio_fans.Float.{Float, max_from, max?}

-- `lt` is the negation of the reversed `le`, and `le` is reflexive and transitive, on finite values.
pub record IsOrdered {F : Type 0} (f : Float F) : Type 0 where
  pub le_refl : (x : F) → f.is_finite x ≡ true → f.le x x ≡ true
  pub le_trans : (x y z : F) → f.le x y ≡ true → f.le y z ≡ true → f.le x z ≡ true
  pub lt-eq-not-le :
      (x y : F) → f.is_finite x ≡ true → f.is_finite y ≡ true → f.lt x y ≡ not (f.le y x)
  pub le_of_lt : (x y : F) → f.lt x y ≡ true → f.le x y ≡ true

module _ {F : Type 0} (f : Float F) (laws : IsOrdered f) where
  open laws use {le_refl, le_trans, lt-eq-not-le, le_of_lt}

  abbrev pub IsUpperBound : F → List F → Type 0
  IsUpperBound top = All λ x. f.le x top ≡ true

  le-larger :
      (best x : F)
      → f.is_finite best ≡ true
      → f.is_finite x ≡ true
      → let top = if f.lt best x then x else best in
        (f.le best top ≡ true) × (f.le x top ≡ true) × (f.is_finite top ≡ true)
  le-larger best x hb hx =
      ground (arith, le_of_lt best x, le_refl best hb, le_refl x hx, lt-eq-not-le best x hb hx)

  -- The maximum of finite values bounds them all, is finite, and is one of them.
  max_from_lem :
      (best : F) (xs : List F)
      → f.is_finite best ≡ true
      → All (λ x. f.is_finite x ≡ true) xs
      → let top = max_from f.lt best xs in
        IsUpperBound top (best ∷ xs) × (f.is_finite top ≡ true) × IsIn top (best ∷ xs)
  unfolding max_from
  max_from_lem best [] hb h = ((le_refl best hb, tt), hb, inl refl)
  max_from_lem best (x ∷ xs) hb (hx, hs) =
      let (up, over, fin) = le-larger best x hb hx in
      let next = if f.lt best x then x else best in
      let (bounds, finite, among) = max_from_lem next xs fin hs in
      (
        (le_trans _ _ _ up bounds.0, (le_trans _ _ _ over bounds.0, bounds.1)),
        finite,
        ground (arith, among),
      )

  pub max?_lem :
      (xs : List F) {top : F}
      → All (λ x. f.is_finite x ≡ true) xs
      → max? f.lt xs ≡ some top
      → IsUpperBound top xs × IsIn top xs
  unfolding max?
  max?_lem [] h e = cc
  max?_lem (x ∷ xs) {top} (hx, hs) e =
      let (bounds, finite, among) = max_from_lem x xs hx hs in
      subst (λ t. IsUpperBound t (x ∷ xs) × IsIn t (x ∷ xs)) (some-injective _ _ e) (bounds, among)
