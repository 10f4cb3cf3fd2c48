-- ===== src/Prelude/Sorting.antt =====
-- Python's `sorted` with a key: a stable sort by a three-way comparison.
use Prim.Native.Nat.{ℕ, zero, suc, compare as compare_ℕ, Ordering}
use Prim.Native.Char.{code}
use Prim.Native.String.{String, then as by_next, compare}
use Prim.Native.String.compare as compare
use mathlib.Core.Path.{◌≡◌, refl, sym, ap, ◌∙◌}
use mathlib.Core.Bool.{Bool, true, false, false≢true}
use mathlib.Core.List.{List, [], ◌∷◌, Permᴰ}
use mathlib.Core.List.Permᴰ
use native.Mathlib.Omega.{arith}
use text.Mathlib.Text.{is_lt}
use thelio_fans.Prelude.Tests.{if◌then◌else◌, if_elim}

abbrev pub opposite : Ordering → Ordering
opposite Ordering.lt = Ordering.gt
opposite Ordering.eq = Ordering.eq
opposite Ordering.gt = Ordering.lt

-- Python's order of the truth values: False comes first.
abbrev pub compare_bool : Bool → Bool → Ordering
compare_bool true true = Ordering.eq
compare_bool true false = Ordering.gt
compare_bool false true = Ordering.lt
compare_bool false false = Ordering.eq

compare_ℕ-opposite : (m n : ℕ) → compare_ℕ n m ≡ opposite (compare_ℕ m n)
compare_ℕ-opposite zero zero = ground arith
compare_ℕ-opposite zero (suc n) = ground arith
compare_ℕ-opposite (suc m) zero = ground arith
compare_ℕ-opposite (suc m) (suc n) = ground arith

opposite-by_next : (a b : Ordering) → opposite (by_next a b) ≡ by_next (opposite a) (opposite b)
opposite-by_next Ordering.lt b = refl
opposite-by_next Ordering.eq b = refl
opposite-by_next Ordering.gt b = refl

-- A comparison by two keys turns round when both do.
pub both_opposite :
    (a b c d : Ordering) → a ≡ opposite b → c ≡ opposite d → by_next a c ≡ opposite (by_next b d)
both_opposite a b c d e h =
    ap (λ o. by_next o c) e ∙ ap (by_next (opposite b)) h ∙ sym (opposite-by_next b d)

pub compare_bool-opposite : (a b : Bool) → compare_bool b a ≡ opposite (compare_bool a b)
compare_bool-opposite true true = refl
compare_bool-opposite true false = refl
compare_bool-opposite false true = refl
compare_bool-opposite false false = refl

pub compare-opposite : (s t : String) → compare t s ≡ opposite (compare s t)
compare-opposite String.[] String.[] = refl
compare-opposite String.[] (String.◌∷◌ d t) =
    (λ i. compare.cons-nil d t i) ∙ ap opposite (sym (λ i. compare.nil-cons d t i))
compare-opposite (String.◌∷◌ c s) String.[] =
    (λ i. compare.nil-cons c s i) ∙ ap opposite (sym (λ i. compare.cons-nil c s i))
compare-opposite (String.◌∷◌ c s) (String.◌∷◌ d t) =
    (λ i. compare.cons-cons d c t s i)
    ∙ both_opposite (compare_ℕ (code d) (code c)) (compare_ℕ (code c) (code d)) (compare t s)
        (compare s t) (compare_ℕ-opposite (code c) (code d)) (compare-opposite s t)
    ∙ ap opposite (sym (λ i. compare.cons-cons c d s t i))

not_lt : (o : Ordering) → is_lt o ≡ true → is_lt (opposite o) ≡ false
not_lt Ordering.lt h = refl
not_lt Ordering.eq h = refl
not_lt Ordering.gt h = absurd (false≢true h)

module _ {A : Type 0} (cmp : A → A → Ordering) where
  unfoldable pub insert_by : A → List A → List A
  insert_by x [] = x ∷ []
  insert_by x (y ∷ ys) =
      let rest = insert_by x ys in if is_lt (cmp y x) then y ∷ rest else x ∷ y ∷ ys

  -- `sorted(xs, key=key)`
  unfoldable pub sort_by : List A → List A
  unfolding insert_by
  sort_by [] = []
  sort_by (x ∷ xs) = insert_by x (sort_by xs)

  -- No item comes before the one ahead of it.
  abbrev pub IsSorted : List A → Type 0
  IsSorted [] = Unit
  IsSorted (x ∷ []) = Unit
  IsSorted (x ∷ y ∷ ys) = (is_lt (cmp y x) ≡ false) × IsSorted (y ∷ ys)

  insert_by-Permᴰ : (x : A) (ys : List A) → Permᴰ (x ∷ ys) (insert_by x ys)
  unfolding insert_by
  insert_by-Permᴰ x [] = Permᴰ.refl (x ∷ [])
  insert_by-Permᴰ x (y ∷ ys) =
      if_elim (Permᴰ (x ∷ y ∷ ys)) (is_lt (cmp y x)) (y ∷ insert_by x ys) (x ∷ y ∷ ys)
        (λ _. Permᴰ.trans (Permᴰ.swap refl refl) (Permᴰ.cons refl (insert_by-Permᴰ x ys)))
        (λ _. Permᴰ.refl (x ∷ y ∷ ys))

  pub sort_by-Permᴰ : (xs : List A) → Permᴰ xs (sort_by xs)
  unfolding sort_by
  sort_by-Permᴰ [] = Permᴰ.nil
  sort_by-Permᴰ (x ∷ xs) =
      Permᴰ.trans (Permᴰ.cons refl (sort_by-Permᴰ xs)) (insert_by-Permᴰ x (sort_by xs))

  module _ (flips : (a b : A) → cmp b a ≡ opposite (cmp a b)) where
    later : (x y : A) → is_lt (cmp y x) ≡ true → is_lt (cmp x y) ≡ false
    later x y h = ap is_lt (flips y x) ∙ not_lt (cmp y x) h

    insert_by-IsSorted : (x : A) (ys : List A) → IsSorted ys → IsSorted (insert_by x ys)
    unfolding insert_by
    insert_by-IsSorted x [] s = tt
    insert_by-IsSorted x (y ∷ []) s =
        if_elim IsSorted (is_lt (cmp y x)) (y ∷ x ∷ []) (x ∷ y ∷ []) (λ e. (later x y e, tt))
          (λ e. (e, tt))
    insert_by-IsSorted x (y ∷ z ∷ ys) s =
        if_elim IsSorted (is_lt (cmp y x)) (y ∷ insert_by x (z ∷ ys)) (x ∷ y ∷ z ∷ ys)
          (λ e.
            if_elim (λ l. IsSorted l → IsSorted (y ∷ l)) (is_lt (cmp z x)) (z ∷ insert_by x ys)
              (x ∷ z ∷ ys) (λ _ r. (s.0, r)) (λ _ r. (later x y e, r))
              (insert_by-IsSorted x (z ∷ ys) s.1))
          (λ e. (e, s))

    pub sort_by-IsSorted : (xs : List A) → IsSorted (sort_by xs)
    unfolding sort_by
    sort_by-IsSorted [] = tt
    sort_by-IsSorted (x ∷ xs) = insert_by-IsSorted x (sort_by xs) (sort_by-IsSorted xs)
