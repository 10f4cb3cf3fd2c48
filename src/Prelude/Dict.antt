-- ===== src/Prelude/Dict.antt =====
-- Dictionaries, as association lists in order of first insertion.
use mathlib.Core.Path.{◌≡◌, refl, ap, sym, subst}
use mathlib.Core.Bool.{Bool, true, false}
use mathlib.Core.Option.{Option, none, some, none-ne-some}
use mathlib.Core.List.{List, [], ◌∷◌}
use mathlib.Core.Logic.{inl, inr}
use native.Mathlib.Omega.{arith}
use Prim.Native.String.{String}
use thelio_fans.Prelude.Tests.{if◌then◌else◌, Bool-cases, if_elim}
use thelio_fans.Prelude.Lists.{All}
use thelio_fans.Prelude.Texts.{str_eq, str_eq_iff, ne_of_str_eq, str_eq_refl}

-- A dictionary in order of first insertion: a key that is there keeps its place.
module _ {V : Type 0} where
  unfoldable pub lookup : String → List (String × V) → Option V
  lookup k [] = none
  lookup k ((j, v) ∷ m) = if str_eq j k then some v else lookup k m

  unfoldable pub insert : String → V → List (String × V) → List (String × V)
  insert k v [] = (k, v) ∷ []
  insert k v ((j, w) ∷ m) = if str_eq j k then (j, v) ∷ m else (j, w) ∷ insert k v m

  -- `{k: v for k, v in pairs}`
  unfoldable pub insert_all : List (String × V) → List (String × V) → List (String × V)
  unfolding insert
  insert_all m [] = m
  insert_all m ((k, v) ∷ rest) = insert_all (insert k v m) rest

  unfoldable pub dict : List (String × V) → List (String × V)
  unfolding insert_all
  dict = insert_all []

if_absorb :
    {A : Type 0} (b : Bool) (x y z : A)
    → (if b then x else y) ≡ (if b then x else if b then z else y)
if_absorb true x y z = refl
if_absorb false x y z = refl

str_eq_sym : (s t : String) → str_eq s t ≡ false → str_eq t s ≡ false
str_eq_sym s t h = elim (Bool-cases (str_eq t s)) [
  | inl e ↦ absurd (ne_of_str_eq s t h (sym ((str_eq_iff t s).0 e)))
  | inr e ↦ e
]

module _ {V : Type 0} where
  -- The key does not stand in the dictionary.
  abbrev pub IsNew : String → List (String × V) → Type 0
  IsNew k m = lookup k m ≡ none

  -- Every key stands once.
  abbrev pub IsDict : List (String × V) → Type 0
  IsDict [] = Unit
  IsDict ((k, v) ∷ m) = IsNew k m × IsDict m

  IsNew-cases :
      (k j : String) (v : V) (m : List (String × V))
      → IsNew k ((j, v) ∷ m)
      → (str_eq j k ≡ false) × IsNew k m
  unfolding lookup
  IsNew-cases k j v m n = ground (arith, n)

  IsNew-cons :
      (k j : String) (v : V) (m : List (String × V))
      → str_eq j k ≡ false
      → IsNew k m
      → IsNew k ((j, v) ∷ m)
  unfolding lookup
  IsNew-cons k j v m d n = rw d n

  insert-IsNew :
      (j k : String) (v : V) (m : List (String × V))
      → str_eq k j ≡ false
      → IsNew j m
      → IsNew j (insert k v m)
  unfolding insert
  insert-IsNew j k v [] d n = IsNew-cons j k v [] d n
  insert-IsNew j k v ((i, w) ∷ m) d n =
      let (e, n') = IsNew-cases j i w m n in
      if_elim (IsNew j) (str_eq i k) ((i, v) ∷ m) ((i, w) ∷ insert k v m)
        (λ _. IsNew-cons j i v m e n')
        (λ _. IsNew-cons j i w (insert k v m) e (insert-IsNew j k v m d n'))

  pub insert-IsDict :
      (k : String) (v : V) (m : List (String × V)) → IsDict m → IsDict (insert k v m)
  unfolding insert lookup
  insert-IsDict k v [] d = (refl, tt)
  insert-IsDict k v ((j, w) ∷ m) d =
      if_elim IsDict (str_eq j k) ((j, v) ∷ m) ((j, w) ∷ insert k v m) (λ _. d)
        (λ e. (insert-IsNew j k v m (str_eq_sym j k e) d.0, insert-IsDict k v m d.1))

  insert_all-IsDict : (m l : List (String × V)) → IsDict m → IsDict (insert_all m l)
  unfolding insert_all
  insert_all-IsDict m [] d = d
  insert_all-IsDict m ((k, v) ∷ l) d = insert_all-IsDict (insert k v m) l (insert-IsDict k v m d)

  pub dict-IsDict : (l : List (String × V)) → IsDict (dict l)
  unfolding dict
  dict-IsDict l = insert_all-IsDict [] l tt

  IsFound-cons :
      (k : String) (v : V) (m l : List (String × V))
      → IsNew k l
      → All (λ e. lookup e.0 m ≡ some e.1) l
      → All (λ e. lookup e.0 ((k, v) ∷ m) ≡ some e.1) l
  unfolding lookup
  IsFound-cons k v m [] n h = tt
  IsFound-cons k v m ((j, u) ∷ l) n h =
      let (e, n') = IsNew-cases k j u l n in
      (rw (str_eq_sym j k e) h.0, IsFound-cons k v m l n' h.1)

  -- Every entry of a dictionary is found under its key.
  pub lookup-entries : (m : List (String × V)) → IsDict m → All (λ e. lookup e.0 m ≡ some e.1) m
  unfolding lookup
  lookup-entries [] d = tt
  lookup-entries ((k, v) ∷ m) d =
      (rw (str_eq_refl k) refl, IsFound-cons k v m m d.0 (lookup-entries m d.1))

  -- What holds of every entry holds of what a key finds.
  pub All-lookup {κ} :
      (P : String → V → Type κ) (m : List (String × V)) (k : String) (v : V)
      → All (λ e. P e.0 e.1) m
      → lookup k m ≡ some v
      → P k v
  unfolding lookup
  All-lookup P [] k v h e = absurd (none-ne-some v e)
  All-lookup P ((j, w) ∷ m) k v h e = elim (Bool-cases (str_eq j k)) [
    | inl t ↦
        let same : w ≡ v = ground (arith, e, t) in
        subst (λ i. P i v) ((str_eq_iff j k).0 t) (subst (P j) same h.0)
    | inr t ↦ All-lookup P m k v h.1 (ground (arith, e, t))
  ]

  pub lookup-insert :
      (j k : String) (v : V) (m : List (String × V))
      → lookup k (insert j v m) ≡ (if str_eq j k then some v else lookup k m)
  unfolding lookup insert
  lookup-insert j k v [] = refl
  lookup-insert j k v ((i, w) ∷ m) = elim (Bool-cases (str_eq i j)) [
    | inl e ↦
        let same : str_eq i k ≡ str_eq j k = ap (λ s. str_eq s k) ((str_eq_iff i j).0 e) in
        rw (e, same) (if_absorb (str_eq j k) (some v) (lookup k m) (some w))
    | inr e ↦ elim (Bool-cases (str_eq i k)) [
      | inl t ↦
          let apart : str_eq j k ≡ false =
            subst (λ s. str_eq j s ≡ false) ((str_eq_iff i k).0 t) (str_eq_sym i j e) in
          rw (e, t, apart) refl
      | inr t ↦ rw (e, t) (lookup-insert j k v m)
    ]
  ]
