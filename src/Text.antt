-- ===== src/Text.antt =====
-- src/fanwatch/text.py: `sanitize`. What `str.isprintable` says of a character is a parameter.
use Prim.Native.Char.{Char}
use Prim.Native.String
use text.Mathlib.TextLemmas as Text
use thelio_fans.Prelude.{
  ◌++◌, concat, ◌∙◌, ℕ, suc, ◌≤◌, String, Bool, true, ◌≡◌, refl, ap, List, [], ◌∷◌, map, take,
  length, All, length-take, take_all, arith, if◌then◌else◌, if_elim,
}

abbrev max_text : ℕ
max_text = 256

abbrev pub chars : String → List Char
chars String.[] = []
chars (String.◌∷◌ c s) = c ∷ chars s

abbrev pub of_chars : List Char → String
of_chars [] = ""
of_chars (c ∷ cs) = String.◌∷◌ c (of_chars cs)

abbrev question_mark : Char
question_mark = "?"

pub chars-of_chars : (cs : List Char) → chars (of_chars cs) ≡ cs
chars-of_chars [] = refl
chars-of_chars (c ∷ cs) = ap (◌∷◌ c) (chars-of_chars cs)

pub of_chars-chars : (s : String) → of_chars (chars s) ≡ s
of_chars-chars String.[] = refl
of_chars-chars (String.◌∷◌ c s) = ap (String.◌∷◌ c) (of_chars-chars s)

pub chars-append : (s t : String) → chars (String.◌++◌ s t) ≡ chars s ++ chars t
chars-append String.[] t = ap chars (Text.nil-append t)
chars-append (String.◌∷◌ c s) t = ap chars (Text.cons-append c s t) ∙ ap (◌∷◌ c) (chars-append s t)

pub chars-concat : (s t : String) → chars (concat (s ∷ t ∷ [])) ≡ chars s ++ chars t
chars-concat s t = ap (λ u. chars (String.◌++◌ s u)) (Text.append-nil t) ∙ chars-append s t

module _ (is_printable : Char → Bool) where
  unfoldable pub safe_char : Char → Char
  safe_char c = if is_printable c then c else question_mark

  -- `sanitize`
  unfoldable pub sanitize : String → String
  unfolding safe_char
  sanitize text = of_chars (map safe_char (take max_text (chars text)))

  length-map : (cs : List Char) → length (map safe_char cs) ≡ length cs
  length-map [] = refl
  length-map (c ∷ cs) = ap suc (length-map cs)

  safe_char-printable :
      is_printable question_mark ≡ true → (c : Char) → is_printable (safe_char c) ≡ true
  unfolding safe_char
  safe_char-printable q c =
      if_elim (λ d. is_printable d ≡ true) (is_printable c) c question_mark (λ e. e) (λ _. q)

  safe_char_fixed : (c : Char) → is_printable c ≡ true → safe_char c ≡ c
  unfolding safe_char
  safe_char_fixed c e = rw e refl

  All-safe :
      is_printable question_mark ≡ true
      → (cs : List Char) → All (λ c. is_printable c ≡ true) (map safe_char cs)
  All-safe q [] = tt
  All-safe q (c ∷ cs) = (safe_char-printable q c, All-safe q cs)

  map-safe_fixed : (cs : List Char) → All (λ c. is_printable c ≡ true) cs → map safe_char cs ≡ cs
  map-safe_fixed [] h = refl
  map-safe_fixed (c ∷ cs) h = cc (safe_char_fixed c h.0, map-safe_fixed cs h.1)

  -- If the question mark is printable, a sanitised text has at most 256 characters, all printable,
  -- and sanitising it once more changes nothing.
  pub sanitize_safe :
      (text : String)
      → is_printable question_mark ≡ true
      → (length (chars (sanitize text)) ≤ 256)
        × All (λ c. is_printable c ≡ true) (chars (sanitize text))
        × (sanitize (sanitize text) ≡ sanitize text)
  unfolding sanitize
  sanitize_safe text q =
      let kept = map safe_char (take max_text (chars text)) in
      let short : length kept ≤ 256 =
        omega (arith, length-map (take max_text (chars text)), length-take max_text (chars text)) in
      rw (chars-of_chars kept) (
        short,
        All-safe q (take max_text (chars text)),
        rw
            (
              take_all max_text kept short,
              map-safe_fixed kept (All-safe q (take max_text (chars text))),
            )
            refl,
      )
