-- ===== src/Prelude/Partial.antt =====
-- Code that may raise, where the exception itself does not matter: none is an exception.
use Prim.Native.Nat.{ℕ, zero, suc, ◌<◌}
use mathlib.Core.Path.{◌≡◌, refl, ap}
use mathlib.Core.Option.{Option, none, some}
use mathlib.Core.List.{List, [], ◌∷◌}
use native.Mathlib.Omega.{arith}
use thelio_fans.Prelude.Lists.{length, get_elem?, All}

infixl 5 ◌>>=◌
abbrev pub ◌>>=◌ : {A B : Type 0} → Option A → (A → Option B) → Option B
none >>= k = none
some a >>= k = k a

-- The code does not raise, and what it returns has the property.
abbrev pub Succeeds : {A : Type 0} → (A → Type 0) → Option A → Type 0
Succeeds P none = ⊥
Succeeds P (some a) = P a

module _ {A B : Type 0} where
  pub bind-Succeeds :
      (P : A → Type 0) (Q : B → Type 0) (o : Option A) (k : A → Option B)
      → Succeeds P o
      → ((a : A) → P a → Succeeds Q (k a))
      → Succeeds Q (o >>= k)
  bind-Succeeds P Q none k h next = absurd h
  bind-Succeeds P Q (some a) k h next = next a h

module _ {A : Type 0} where
  pub Succeeds-impl :
      (P Q : A → Type 0) (o : Option A) → ((a : A) → P a → Q a) → Succeeds P o → Succeeds Q o
  Succeeds-impl P Q none h p = p
  Succeeds-impl P Q (some a) h p = h a p

  -- What code that succeeds returns.
  pub Succeeds-result :
      (P : A → Type 0) (o : Option A) → Succeeds P o → (a : A) × (o ≡ some a) × P a
  Succeeds-result P none h = absurd h
  Succeeds-result P (some a) h = (a, refl, h)

  -- `xs[i] = g(xs[i])`
  abbrev pub change : ℕ → (A → Option A) → List A → Option (List A)
  change i g [] = none
  change zero g (x ∷ xs) = g x >>= λ y. some (y ∷ xs)
  change (suc i) g (x ∷ xs) = change i g xs >>= λ ys. some (x ∷ ys)

  pub get_elem-Succeeds :
      (P : A → Type 0) (xs : List A) (i : ℕ)
      → All P xs
      → i < length xs
      → Succeeds P (get_elem? xs i)
  get_elem-Succeeds P [] i h lt = absurd (omega (arith, lt))
  get_elem-Succeeds P (x ∷ xs) zero h lt = h.0
  get_elem-Succeeds P (x ∷ xs) (suc i) h lt = get_elem-Succeeds P xs i h.1 (omega (arith, lt))

  -- What a list keeps under a change at an index in range.
  pub change-Succeeds :
      (P : A → Type 0) (g : A → Option A) (i : ℕ) (xs : List A)
      → ((x : A) → P x → Succeeds P (g x))
      → All P xs
      → i < length xs
      → Succeeds (λ ys. (length ys ≡ length xs) × All P ys) (change i g xs)
  change-Succeeds P g i [] keep h lt = absurd (omega (arith, lt))
  change-Succeeds P g zero (x ∷ xs) keep h lt =
      bind-Succeeds P _ (g x) _ (keep x h.0) (λ y p. (refl, (p, h.1)))
  change-Succeeds P g (suc i) (x ∷ xs) keep h lt =
      bind-Succeeds _ _ (change i g xs) _ (change-Succeeds P g i xs keep h.1 (omega (arith, lt)))
        (λ ys q. (ap suc q.0, (h.0, q.1)))
