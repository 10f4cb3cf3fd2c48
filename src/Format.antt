-- ===== src/Format.antt =====
-- The parts of f-strings and slices that the package lays its text out with: the length of a text,
-- `s[:n]`, and the fields of a format, measured in characters.
use Prim.Native.Char.{Char}
use Prim.Native.Nat.{min, max}
use thelio_fans.Prelude.{
  ℕ, zero, suc, ◌+◌, ◌-◌, String, concat, ◌≡◌, refl, ap, ◌∙◌, List, [], ◌∷◌, length, take,
  replicate, length-append, length-take, arith,
}
use thelio_fans.Text.{chars, of_chars, chars-of_chars, chars-append}

-- `len(s)`
abbrev pub text_length : String → ℕ
text_length s = length (chars s)

-- `s[:n]`
unfoldable pub cut : ℕ → String → String
cut n s = of_chars (take n (chars s))

-- `c * n`
unfoldable pub repeated : Char → ℕ → String
repeated c n = of_chars (replicate n c)

abbrev pub space : Char
space = " "

-- `f"{s:<w}"` and `f"{s:>w}"`
unfoldable pub left_field : ℕ → String → String
unfolding repeated
left_field w s = concat (s ∷ repeated space (w - text_length s) ∷ [])

unfoldable pub right_field : ℕ → String → String
unfolding repeated
right_field w s = concat (repeated space (w - text_length s) ∷ s ∷ [])

-- The sum of the lengths of some texts.
abbrev pub total_length : List String → ℕ
total_length [] = 0
total_length (s ∷ ss) = text_length s + total_length ss

pub length-concat : (ss : List String) → text_length (concat ss) ≡ total_length ss
length-concat [] = refl
length-concat (s ∷ ss) =
    ap length (chars-append s (concat ss))
    ∙ length-append (chars s) (chars (concat ss))
    ∙ ap (λ n. text_length s + n) (length-concat ss)

length-replicate : (n : ℕ) (c : Char) → length (replicate n c) ≡ n
length-replicate zero c = refl
length-replicate (suc n) c = ap suc (length-replicate n c)

pub length-repeated : (c : Char) (n : ℕ) → text_length (repeated c n) ≡ n
unfolding repeated
length-repeated c n = ap length (chars-of_chars (replicate n c)) ∙ length-replicate n c

pub length-cut : (n : ℕ) (s : String) → text_length (cut n s) ≡ min n (text_length s)
unfolding cut
length-cut n s = ap length (chars-of_chars (take n (chars s))) ∙ length-take n (chars s)

pub length-left_field : (w : ℕ) (s : String) → text_length (left_field w s) ≡ max w (text_length s)
unfolding left_field
length-left_field w s = omega (
  arith,
  length-concat (s ∷ repeated space (w - text_length s) ∷ []),
  length-repeated space (w - text_length s),
)

pub length-right_field :
    (w : ℕ) (s : String) → text_length (right_field w s) ≡ max w (text_length s)
unfolding right_field
length-right_field w s = omega (
  arith,
  length-concat (repeated space (w - text_length s) ∷ s ∷ []),
  length-repeated space (w - text_length s),
)

-- A text cut to a field and put in it fills it.
pub length-cut_field : (w : ℕ) (s : String) → text_length (left_field w (cut w s)) ≡ w
length-cut_field w s = omega (arith, length-left_field w (cut w s), length-cut w s)
