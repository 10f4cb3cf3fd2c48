-- ===== src/Dashboard/Cores.antt =====
-- dashboard.py: `core_readings`. What `str.isspace` says of a character is a parameter; a ValueError
-- of `int` is none.
use Prim.Native.Char.{Char, code}
use Prim.Native.Nat.{Ordering, compare as compare_ℕ}
use thelio_fans.Prelude.{
  ℕ, ℤ, pos, negsuc, String, concat, Bool, true, false, ◌&&◌, ◌≡◌, ◌≢◌, refl, sym, ap, ◌∙◌, Option,
  some, List, [], ◌∷◌, ◌++◌, map, filter, All, leb, if◌then◌else◌, sort_by, arith, ◌>>=◌,
}
use mathlib.Core.Option.{none-ne-some}
use mathlib.Core.List.{append-nil, append_assoc}
use thelio_fans.Text.{chars, chars-concat}
use thelio_fans.Show.{str_ℤ, int_of, int_of-str_ℤ, str_ℤ-digits, is_digit}
use thelio_fans.Snapshot.{Snapshot, Temperature}
use thelio_fans.Dashboard.TempRows.{is_core}

abbrev pub compare_ℤ : ℤ → ℤ → Ordering
compare_ℤ (pos a) (pos b) = compare_ℕ a b
compare_ℤ (pos a) (negsuc b) = Ordering.gt
compare_ℤ (negsuc a) (pos b) = Ordering.lt
compare_ℤ (negsuc a) (negsuc b) = compare_ℕ b a

module _ (is_space : Char → Bool) where
  -- The loop of `text.split()`, from the last word so far and the word being read.
  unfoldable pub last_word_from : List Char → List Char → List Char → List Char
  last_word_from last [] [] = last
  last_word_from last (d ∷ ds) [] = d ∷ ds
  last_word_from last [] (c ∷ cs) =
      let inside = last_word_from last (c ∷ []) cs in
      let outside = last_word_from last [] cs in if is_space c then outside else inside
  last_word_from last (d ∷ ds) (c ∷ cs) =
      let inside = last_word_from last (d ∷ ds ++ (c ∷ [])) cs in
      let outside = last_word_from (d ∷ ds) [] cs in if is_space c then outside else inside

  -- `int(label.split()[-1])`
  unfoldable pub core_number : String → Option ℤ
  unfolding last_word_from int_of
  core_number label = int_of (last_word_from [] [] (chars label))

  module _ {F : Type 0} where
    -- The sort keys of the cores.
    unfoldable pub numbered : List (Temperature F) → Option (List (ℤ × Temperature F))
    unfolding core_number
    numbered [] = some []
    numbered (t ∷ ts) =
        let rest = numbered ts in
        core_number t.label >>= λ n. rest >>= λ cores. some ((n, t) ∷ cores)

    abbrev pub compare_cores : ℤ × Temperature F → ℤ × Temperature F → Ordering
    compare_cores a b = compare_ℤ a.0 b.0

    -- `core_readings`
    unfoldable pub core_readings : Snapshot F → Option (List (String × Option F))
    unfolding numbered sort_by
    core_readings snapshot = numbered (filter is_core snapshot.temperatures) >>= λ cores.
        some (map (λ c. (c.1.label, c.1.celsius)) (sort_by compare_cores cores))

module _ (is_space : Char → Bool) where
  -- A word that has begun goes on to the end of what is no space.
  whole_word :
      (last : List Char) (d : Char) (ds cs : List Char)
      → All (λ c. is_space c ≡ false) cs
      → last_word_from is_space last (d ∷ ds) cs ≡ d ∷ ds ++ cs
  unfolding last_word_from
  whole_word last d ds [] h = ap (◌∷◌ d) (sym (append-nil ds))
  whole_word last d ds (c ∷ cs) (v, h) =
      rw v (whole_word last d (ds ++ (c ∷ [])) cs h ∙ ap (◌∷◌ d) (append_assoc ds (c ∷ []) cs))

  first_word :
      (last cs : List Char)
      → All (λ c. is_space c ≡ false) cs
      → cs ≢ []
      → last_word_from is_space last [] cs ≡ cs
  unfolding last_word_from
  first_word last [] h ne = absurd (ne refl)
  first_word last (c ∷ cs) (v, h) ne = rw v (whole_word last c [] cs h)

  -- The visible characters of ASCII are no spaces, and the blank is one.
  pub record IsSpacing : Type 0 where
    pub visible : (c : Char) → leb 33 (code c) && leb (code c) 126 ≡ true → is_space c ≡ false
    pub blank : is_space " " ≡ true

  digits_visible :
      IsSpacing
      → (cs : List Char) → All (λ c. is_digit c ≡ true) cs
      → All (λ c. is_space c ≡ false) cs
  digits_visible spacing [] h = tt
  digits_visible spacing (c ∷ cs) (d, h) =
      (spacing.visible c (ground (arith, d)), digits_visible spacing cs h)

  some_digit : (n : ℕ) → chars (str_ℤ (pos n)) ≢ []
  unfolding int_of
  some_digit n e = none-ne-some (pos n) (sym (ap int_of e) ∙ int_of-str_ℤ n)

  -- If the visible characters of ASCII are no spaces and the blank is one, the sort key of a core is
  -- the number that its label shows.
  pub core_number_lem :
      IsSpacing
      → (n : ℕ) → core_number is_space (concat ("Core " ∷ str_ℤ (pos n) ∷ [])) ≡ some (pos n)
  unfolding core_number last_word_from
  core_number_lem spacing n =
      let digits = chars (str_ℤ (pos n)) in
      ap (λ cs. int_of (last_word_from is_space [] [] cs)) (chars-concat "Core " (str_ℤ (pos n)))
      ∙ rw
          (
            spacing.visible "C" refl,
            spacing.visible "o" refl,
            spacing.visible "r" refl,
            spacing.visible "e" refl,
            spacing.blank,
          )
          (ap int_of (
              first_word ("C" ∷ "o" ∷ "r" ∷ "e" ∷ []) digits
                (digits_visible spacing digits (str_ℤ-digits n)) (some_digit n))
            ∙ int_of-str_ℤ n)
