-- ===== src/Show.antt =====
-- Decimal text of Python's integers.
use Prim.Native.Char.{Char, code}
use mathlib.Core.Option
use mathlib.Core.Option.{some-injective, none-ne-some}
use thelio_fans.Text.{chars, chars-concat}
use thelio_fans.Prelude.{
  Bool, Option, none, some, List, ◌&&◌, leb, ◌==◌, ◌*◌, ◌-◌, ◌<◌, ◌≡◌, refl, ap, ◌∙◌, arith, ◌++◌,
  if_elim, All, true, Bool-cases, inl, inr, false, ℕ, zero, suc, ◌+◌, ◌/◌, ◌%◌, ℤ, pos, negsuc, ltb,
  String, concat, [], ◌∷◌, if◌then◌else◌,
}

digit : ℕ → String
digit zero = "0"
digit (suc zero) = "1"
digit (suc (suc zero)) = "2"
digit (suc (suc (suc zero))) = "3"
digit (suc (suc (suc (suc zero)))) = "4"
digit (suc (suc (suc (suc (suc zero))))) = "5"
digit (suc (suc (suc (suc (suc (suc zero)))))) = "6"
digit (suc (suc (suc (suc (suc (suc (suc zero))))))) = "7"
digit (suc (suc (suc (suc (suc (suc (suc (suc zero)))))))) = "8"
digit _ = "9"

-- A digit's number.
abbrev pub digit_value : Char → ℕ
digit_value c = code c - 48

abbrev pub is_digit : Char → Bool
is_digit c = leb 48 (code c) && leb (code c) 57

-- The number that the digits go on with, from the one read so far.
unfoldable pub read_digits : ℕ → List Char → Option ℕ
read_digits n [] = some n
read_digits n (c ∷ cs) =
    let rest = read_digits (n * 10 + digit_value c) cs in if is_digit c then rest else none

abbrev pub read_positive : List Char → Option ℕ
read_positive [] = none
read_positive (c ∷ cs) = read_digits 0 (c ∷ cs)

abbrev pub negated : ℕ → ℤ
negated zero = pos 0
negated (suc n) = negsuc n

-- `int(text)`, of a text with at most a sign before its digits; none is a ValueError
unfoldable pub int_of : List Char → Option ℤ
unfolding read_digits
int_of [] = none
int_of (c ∷ cs) =
    if code c == 45
    then Option.map negated (read_positive cs)
    else if code c == 43
    then Option.map pos (read_positive cs)
    else Option.map pos (read_positive (c ∷ cs))

-- The decimal digits, with fuel: a number has at most as many digits as its value and one.
show_from : ℕ → ℕ → String → String
unfolding digit
show_from zero n acc = acc
show_from (suc fuel) n acc =
    let rest = show_from fuel (n / 10) (concat (digit (n % 10) ∷ acc ∷ [])) in
    if ltb n 10 then concat (digit n ∷ acc ∷ []) else rest

-- `str(n)`
unfoldable pub str_ℤ : ℤ → String
unfolding show_from
str_ℤ (pos n) = show_from (n + 1) n ""
str_ℤ (negsuc n) = concat ("-" ∷ show_from (n + 2) (n + 1) "" ∷ [])

read-digit :
    (d n : ℕ) (cs : List Char)
    → d < 10
    → read_digits n (chars (digit d) ++ cs) ≡ read_digits (n * 10 + d) cs
unfolding digit read_digits
read-digit zero n cs h = refl
read-digit (suc zero) n cs h = refl
read-digit (suc (suc zero)) n cs h = refl
read-digit (suc (suc (suc zero))) n cs h = refl
read-digit (suc (suc (suc (suc zero)))) n cs h = refl
read-digit (suc (suc (suc (suc (suc zero))))) n cs h = refl
read-digit (suc (suc (suc (suc (suc (suc zero)))))) n cs h = refl
read-digit (suc (suc (suc (suc (suc (suc (suc zero))))))) n cs h = refl
read-digit (suc (suc (suc (suc (suc (suc (suc (suc zero)))))))) n cs h = refl
read-digit (suc (suc (suc (suc (suc (suc (suc (suc (suc zero))))))))) n cs h = refl
read-digit (suc (suc (suc (suc (suc (suc (suc (suc (suc (suc d)))))))))) n cs h =
    absurd (omega (arith, h))

shown_digit :
    (d n : ℕ) (acc : String)
    → d < 10
    → read_digits n (chars (concat (digit d ∷ acc ∷ []))) ≡ read_digits (n * 10 + d) (chars acc)
shown_digit d n acc h =
    ap (read_digits n) (chars-concat (digit d) acc) ∙ read-digit d n (chars acc) h

read-show_from :
    (fuel n : ℕ) (acc : String)
    → n < fuel
    → read_digits 0 (chars (show_from fuel n acc)) ≡ read_digits n (chars acc)
unfolding show_from
read-show_from zero n acc h = absurd (omega (arith, h))
read-show_from (suc fuel) n acc h =
    if_elim (λ s. read_digits 0 (chars s) ≡ read_digits n (chars acc)) (ltb n 10) _ _
      (λ e.
        shown_digit n 0 acc (ground (arith, e)) ∙ ap (λ k. read_digits k (chars acc)) (omega arith))
      (λ e.
        read-show_from fuel (n / 10) (concat (digit (n % 10) ∷ acc ∷ [])) (ground (arith, h, e))
        ∙ shown_digit (n % 10) (n / 10) acc (omega arith)
        ∙ ap (λ k. read_digits k (chars acc)) (omega arith))

read-int_of :
    (cs : List Char) (n : ℕ) → read_digits 0 cs ≡ some (suc n) → int_of cs ≡ some (pos (suc n))
unfolding int_of read_digits
read-int_of [] n e = absurd (omega (arith, some-injective 0 (suc n) e))
read-int_of (c ∷ cs) n e = elim (Bool-cases (is_digit c)) [
  | inl d ↦
      let minus : (code c == 45) ≡ false = ground (arith, d) in
      let plus : (code c == 43) ≡ false = ground (arith, d) in rw (minus, plus, e) refl
  | inr d ↦ absurd (none-ne-some (suc n) (ground (arith, e, d)))
]

digits_read :
    (m n : ℕ) (cs : List Char) → read_digits m cs ≡ some n → All (λ c. is_digit c ≡ true) cs
unfolding read_digits
digits_read m n [] e = tt
digits_read m n (c ∷ cs) e = elim (Bool-cases (is_digit c)) [
  | inl d ↦ (d, digits_read (m * 10 + digit_value c) n cs (ground (arith, e, d)))
  | inr d ↦ absurd (none-ne-some n (ground (arith, e, d)))
]

-- The decimal text of a number that is not negative consists of digits.
pub str_ℤ-digits : (n : ℕ) → All (λ c. is_digit c ≡ true) (chars (str_ℤ (pos n)))
unfolding str_ℤ read_digits
str_ℤ-digits n =
    digits_read 0 n (chars (show_from (n + 1) n "")) (read-show_from (n + 1) n "" (omega arith))

-- The decimal text of a number that is not negative is read back.
pub int_of-str_ℤ : (n : ℕ) → int_of (chars (str_ℤ (pos n))) ≡ some (pos n)
unfolding int_of str_ℤ
int_of-str_ℤ zero = refl
int_of-str_ℤ (suc n) =
    read-int_of (chars (show_from (suc n + 1) (suc n) "")) n
      (read-show_from (suc n + 1) (suc n) "" (omega arith))
