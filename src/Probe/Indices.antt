-- ===== src/Probe/Indices.antt =====
-- probe.py: `_fan_indices`, the numbers of the fan channels of a hwmon directory. The digits of
-- `\d` are taken to be the ASCII digits, which is what the kernel writes.
use Prim.Native.Char.{Char, code}
use mathlib.Core.Path.{subst, ap}
use mathlib.Core.Option.{some-injective}
use thelio_fans.Prelude.{
  ℕ, ◌+◌, ◌-◌, ◌*◌, ◌≤◌, leb, String, str_eq, str_eq_iff, Bool, true, false, ◌&&◌, ◌||◌, ◌≡◌, ◌⊎◌,
  inl, inr, ◌↔◌, sym, refl, ◌∙◌, ◌≢◌, ◌++◌, concat, All, Option, none, some, List, [], ◌∷◌, any,
  IsIn, arith, if◌then◌else◌, Bool-cases,
}
use thelio_fans.Text.{chars, of_chars, chars-of_chars, of_chars-chars, chars-concat, chars-append}

is_digit : Char → Bool
is_digit c = leb 48 (code c) && leb (code c) 57

-- The longest prefix of digits, and the rest.
span_digits : List Char → List Char × List Char
unfolding is_digit
span_digits [] = ([], [])
span_digits (c ∷ cs) =
    let (digits, rest) = span_digits cs in if is_digit c then (c ∷ digits, rest) else ([], c ∷ cs)

match_number : List Char × List Char → Option String
match_number ([], rest) = none
match_number (d ∷ digits, rest) =
    if str_eq (of_chars rest) "_input" || str_eq (of_chars rest) "_label"
    then some (of_chars (d ∷ digits))
    else none

match_fan : List Char → Option String
unfolding span_digits match_number
match_fan (c₁ ∷ c₂ ∷ c₃ ∷ rest) =
    if str_eq (of_chars (c₁ ∷ c₂ ∷ c₃ ∷ [])) "fan" then match_number (span_digits rest) else none
match_fan _ = none

-- `re.fullmatch(r"fan(\d+)_(input|label)", n)` and its first group
unfoldable pub fan_index : String → Option String
unfolding match_fan
fan_index name = match_fan (chars name)

decimal_from : ℕ → List Char → ℕ
decimal_from n [] = n
decimal_from n (c ∷ cs) = decimal_from (n * 10 + (code c - 48)) cs

-- `int(i)`
unfoldable pub decimal : String → ℕ
unfolding decimal_from
decimal i = decimal_from 0 (chars i)

-- The set comprehension: an index is added once.
add_found : Option String → List String → List String
add_found none rest = rest
add_found (some i) rest = if any (λ j. str_eq i j) rest then rest else i ∷ rest

unfoldable pub found : List String → List String
unfolding add_found
found [] = []
found (name ∷ names) = add_found (fan_index name) (found names)

insert_sorted : String → List String → List String
unfolding decimal
insert_sorted i [] = i ∷ []
insert_sorted i (j ∷ js) =
    if leb (decimal i) (decimal j) then i ∷ j ∷ js else j ∷ insert_sorted i js

-- `sorted(found, key=int)`
unfoldable pub sorted : List String → List String
unfolding insert_sorted
sorted [] = []
sorted (i ∷ is) = insert_sorted i (sorted is)

-- `_fan_indices`, from the names in the directory, `none` being an OSError
unfoldable pub fan_indices : Option (List String) → List String
unfolding found sorted
fan_indices none = []
fan_indices (some names) = sorted (found names)

-- Each number is at most the next.
abbrev pub IsSorted : List String → Type 0
IsSorted [] = Unit
IsSorted (i ∷ []) = Unit
IsSorted (i ∷ j ∷ js) = (decimal i ≤ decimal j) × IsSorted (j ∷ js)

-- The name is `fan`, a number in ASCII digits, and `_input` or `_label`.
abbrev pub IsNumber : List Char → Type 0
IsNumber cs = (cs ≢ []) × All (λ c. (48 ≤ code c) × (code c ≤ 57)) cs

abbrev pub IsNamed : String → String → Type 0
IsNamed i name =
    IsNumber (chars i)
    × ((name ≡ concat ("fan" ∷ i ∷ "_input" ∷ [])) ⊎ (name ≡ concat ("fan" ∷ i ∷ "_label" ∷ [])))

-- Some name has the index.
abbrev pub HasIndex : String → List String → Type 0
HasIndex i [] = ⊥
HasIndex i (name ∷ names) = IsNamed i name ⊎ HasIndex i names

all_digits : (cs : List Char) → All (λ c. (48 ≤ code c) × (code c ≤ 57)) (span_digits cs).0
unfolding span_digits is_digit
all_digits [] = tt
all_digits (c ∷ cs) = elim (Bool-cases (is_digit c)) [
  | inl e ↦ rw (e, span_digits) (ground (arith, e), all_digits cs)
  | inr e ↦ rw (e, span_digits) tt
]

span-joined : (cs : List Char) → (span_digits cs).0 ++ (span_digits cs).1 ≡ cs
unfolding span_digits
span-joined [] = refl
span-joined (c ∷ cs) = elim (Bool-cases (is_digit c)) [
  | inl e ↦ rw (e, span_digits) (ap (◌∷◌ c) (span-joined cs))
  | inr e ↦ rw (e, span_digits) refl
]

-- Digits before an underscore are found.
span_underscore :
    (ds cs : List Char)
    → All (λ c. (48 ≤ code c) × (code c ≤ 57)) ds
    → span_digits (ds ++ ("_" ∷ cs)) ≡ (ds, "_" ∷ cs)
unfolding span_digits is_digit
span_underscore [] cs h = refl
span_underscore (d ∷ ds) cs h =
    let e : is_digit d ≡ true = ground (arith, h.0) in
    rw (span_underscore ds cs h.1, span_digits, e) refl

IsNumber-match_fan :
    (ds cs : List Char)
    → IsNumber ds
    → str_eq (of_chars ("_" ∷ cs)) "_input" || str_eq (of_chars ("_" ∷ cs)) "_label" ≡ true
    → match_fan ("f" ∷ "a" ∷ "n" ∷ (ds ++ ("_" ∷ cs))) ≡ some (of_chars ds)
unfolding match_fan match_number
IsNumber-match_fan [] cs h e = absurd (h.0 refl)
IsNumber-match_fan (d ∷ ds) cs h e = rw (span_underscore (d ∷ ds) cs h.1, e) refl

chars-named :
    (i suffix : String)
    → chars (concat ("fan" ∷ i ∷ suffix ∷ [])) ≡ "f" ∷ "a" ∷ "n" ∷ (chars i ++ chars suffix)
chars-named i suffix =
    chars-append "fan" (concat (i ∷ suffix ∷ []))
    ∙ ap (λ cs. "f" ∷ "a" ∷ "n" ∷ cs) (chars-concat i suffix)

IsNamed-index : (i name : String) → IsNamed i name → fan_index name ≡ some i
unfolding fan_index
IsNamed-index i name (n, inl e) =
    ap match_fan (ap chars e ∙ chars-named i "_input")
    ∙ IsNumber-match_fan (chars i) ("i" ∷ "n" ∷ "p" ∷ "u" ∷ "t" ∷ []) n refl
    ∙ ap some (of_chars-chars i)
IsNamed-index i name (n, inr e) =
    ap match_fan (ap chars e ∙ chars-named i "_label")
    ∙ IsNumber-match_fan (chars i) ("l" ∷ "a" ∷ "b" ∷ "e" ∷ "l" ∷ []) n refl
    ∙ ap some (of_chars-chars i)

abbrev IsSuffix : List Char → Type 0
IsSuffix cs = (of_chars cs ≡ "_input") ⊎ (of_chars cs ≡ "_label")

if-some :
    {A : Type 0} (b : Bool) (o : Option A) (a : A)
    → (if b then o else none) ≡ some a
    → (b ≡ true) × (o ≡ some a)
if-some true o a e = (refl, e)
if-some false o a e = cc

suffix_cases :
    (cs : List Char)
    → str_eq (of_chars cs) "_input" || str_eq (of_chars cs) "_label" ≡ true
    → IsSuffix cs
suffix_cases cs e = elim (Bool-cases (str_eq (of_chars cs) "_input")) [
  | inl a ↦ inl ((str_eq_iff (of_chars cs) "_input").0 a)
  | inr a ↦ inr ((str_eq_iff (of_chars cs) "_label").0 (ground (arith, a, e)))
]

match_number-some :
    (i : String) (r : List Char × List Char)
    → match_number r ≡ some i
    → (r.0 ≢ []) × (of_chars r.0 ≡ i) × IsSuffix r.1
unfolding match_number
match_number-some i ([], rest) e = cc
match_number-some i (d ∷ digits, rest) e =
    let (suffix, index) =
      if-some (str_eq (of_chars rest) "_input" || str_eq (of_chars rest) "_label")
        (some (of_chars (d ∷ digits))) i e in
    (λ p. cc, some-injective (of_chars (d ∷ digits)) i index, suffix_cases rest suffix)

match_fan-some :
    (i : String) (cs : List Char)
    → match_fan cs ≡ some i
    → (rest : List Char) × (cs ≡ "f" ∷ "a" ∷ "n" ∷ rest)
      × (match_number (span_digits rest) ≡ some i)
unfolding match_fan
match_fan-some i [] e = cc
match_fan-some i (c₁ ∷ []) e = cc
match_fan-some i (c₁ ∷ c₂ ∷ []) e = cc
match_fan-some i (c₁ ∷ c₂ ∷ c₃ ∷ rest) e =
    let start = c₁ ∷ c₂ ∷ c₃ ∷ [] in
    let (fan, index) =
      if-some (str_eq (of_chars start) "fan") (match_number (span_digits rest)) i e in
    (
      rest,
      ap (λ cs. cs ++ rest) (sym (chars-of_chars start) ∙ ap chars ((str_eq_iff _ _).0 fan)),
      index,
    )

-- A name whose characters are those of another.
same_text : (s t : String) → chars s ≡ chars t → s ≡ t
same_text s t e = sym (of_chars-chars s) ∙ ap of_chars e ∙ of_chars-chars t

index-IsNamed : (i name : String) → fan_index name ≡ some i → IsNamed i name
unfolding fan_index
index-IsNamed i name e =
    let (rest, starts, found_number) = match_fan-some i (chars name) e in
    let (some_digit, index, suffix) = match_number-some i (span_digits rest) found_number in
    let digits : (span_digits rest).0 ≡ chars i =
      sym (chars-of_chars (span_digits rest).0) ∙ ap chars index in
    let written : (t : String)
        → of_chars (span_digits rest).1 ≡ t
        → name ≡ concat ("fan" ∷ i ∷ t ∷ []) =
      λ t p. same_text name (concat ("fan" ∷ i ∷ t ∷ [])) (
        starts
        ∙ ap (λ cs. "f" ∷ "a" ∷ "n" ∷ cs)
            (sym (span-joined rest)
              ∙ (λ k. digits k ++ (sym (chars-of_chars (span_digits rest).1) ∙ ap chars p) k))
        ∙ sym (chars-named i t)) in
    (
      subst IsNumber digits (some_digit, all_digits rest),
      elim suffix [ inl p ↦ inl (written "_input" p) | inr p ↦ inr (written "_label" p) ],
    )

insert_sorted-IsSorted :
    (i : String) (js : List String) → IsSorted js → IsSorted (insert_sorted i js)
unfolding insert_sorted
insert_sorted-IsSorted i [] h = tt
insert_sorted-IsSorted i (j ∷ []) h = ground arith
insert_sorted-IsSorted i (j ∷ k ∷ ks) h = ground (arith, insert_sorted-IsSorted i (k ∷ ks) h.1)

sorted-IsSorted : (is : List String) → IsSorted (sorted is)
unfolding sorted
sorted-IsSorted [] = tt
sorted-IsSorted (i ∷ is) = insert_sorted-IsSorted i (sorted is) (sorted-IsSorted is)

mem-insert_sorted :
    (x i : String) (js : List String) → IsIn x (insert_sorted i js) ↔ IsIn x (i ∷ js)
unfolding insert_sorted
mem-insert_sorted x i [] = (λ h. h, λ h. h)
mem-insert_sorted x i (j ∷ js) = elim (Bool-cases (leb (decimal i) (decimal j))) [
  | inl e ↦ rw (e, insert_sorted) (λ h. h, λ h. h)
  | inr e ↦ rw (e, insert_sorted) (ground (arith, mem-insert_sorted x i js))
]

any-IsIn : (i : String) (js : List String) → any (λ j. str_eq i j) js ≡ true → IsIn i js
any-IsIn i [] h = cc
any-IsIn i (j ∷ js) h = elim (Bool-cases (str_eq i j)) [
  | inl e ↦ inl ((str_eq_iff i j).0 e)
  | inr e ↦ inr (any-IsIn i js (ground arith))
]

mem-add_found :
    (x : String) (o : Option String) (rest : List String)
    → IsIn x (add_found o rest) ↔ ((o ≡ some x) ⊎ IsIn x rest)
unfolding add_found
mem-add_found x none rest = (λ h. inr h, λ h. ground arith)
mem-add_found x (some i) rest = elim (Bool-cases (any (λ j. str_eq i j) rest)) [
  | inl e ↦
      rw (e, add_found)
        (
          λ h. inr h,
          λ h. elim h [
            | inl p ↦ subst (λ y. IsIn y rest) (some-injective _ _ p) (any-IsIn i rest e)
            | inr k ↦ k
          ],
        )
  | inr e ↦
      rw (e, add_found)
        (
          λ h. elim h [ inl p ↦ inl (ap some (sym p)) | inr k ↦ inr k ],
          λ h. elim h [ inl p ↦ inl (sym (some-injective _ _ p)) | inr k ↦ inr k ],
        )
]

mem-found : (i : String) (names : List String) → IsIn i (found names) ↔ HasIndex i names
unfolding found
mem-found i [] = (λ h. h, λ h. h)
mem-found i (name ∷ names) =
    let (to, from) = mem-add_found i (fan_index name) (found names) in
    let (to', from') = mem-found i names in
    (
      λ h. elim (to h) [ inl e ↦ inl (index-IsNamed i name e) | inr k ↦ inr (to' k) ],
      λ h. elim h [ inl e ↦ from (inl (IsNamed-index i name e)) | inr k ↦ from (inr (from' k)) ],
    )

mem-sorted : (x : String) (is : List String) → IsIn x (sorted is) ↔ IsIn x is
unfolding sorted
mem-sorted x [] = (λ h. h, λ h. h)
mem-sorted x (i ∷ is) =
    let (to, from) = mem-insert_sorted x i (sorted is) in
    let (to', from') = mem-sorted x is in
    (
      λ h. elim (to h) [ inl e ↦ inl e | inr k ↦ inr (to' k) ],
      λ h. elim h [ inl e ↦ from (inl e) | inr k ↦ from (inr (from' k)) ],
    )

-- The channels found in a directory are in the order of their numbers, and an index is among them
-- exactly when it is a number in ASCII digits and a file of the directory is named
-- `fan<index>_input` or `fan<index>_label`.
pub fan_indices_lem :
    (names : List String)
    → IsSorted (fan_indices (some names))
      × ((i : String) → IsIn i (fan_indices (some names)) ↔ HasIndex i names)
unfolding fan_indices
fan_indices_lem names = (
  sorted-IsSorted (found names),
  λ i.
      let (to, from) = mem-sorted i (found names) in
      let (to', from') = mem-found i names in (λ h. to' (to h), λ h. from (from' h)),
)
