-- ===== src/Stress/Words.antt =====
-- stress.py, `parse_args`: the text of `--phases` cut into words. What `str.isspace` says of a
-- character is a parameter.
use Prim.Native.Char.{Char, code}
use Prim.Native.String
use thelio_fans.Prelude.{
  ◌≤◌, String, join, Bool, true, false, ◌&&◌, ◌≡◌, refl, ap, ◌∙◌, List, [], ◌∷◌, ◌++◌, All, ◌==◌,
  if◌then◌else◌, arith,
}
use thelio_fans.Text.{chars, of_chars, chars-append, of_chars-chars}

-- `sep.split`, of a text in characters: the pieces between the separators
abbrev pub push : Char → List (List Char) → List (List Char)
push c [] = (c ∷ []) ∷ []
push c (w ∷ ws) = (c ∷ w) ∷ ws

abbrev pub comma : Char
comma = ","

unfoldable pub pieces : List Char → List (List Char)
pieces [] = [] ∷ []
pieces (c ∷ cs) = let rest = pieces cs in if code c == code comma then [] ∷ rest else push c rest

abbrev pub is_blank : List Char → Bool
is_blank [] = true
is_blank (c ∷ cs) = false

module _ (is_space : Char → Bool) where
  -- `str.strip`, from the left and then from the right
  unfoldable pub left_strip : List Char → List Char
  left_strip [] = []
  left_strip (c ∷ cs) = let rest = left_strip cs in if is_space c then rest else c ∷ cs

  unfoldable pub right_strip : List Char → List Char
  right_strip [] = []
  right_strip (c ∷ cs) =
      let rest = right_strip cs in if is_blank rest && is_space c then [] else c ∷ rest

  unfoldable pub strip : List Char → List Char
  unfolding left_strip right_strip
  strip cs = right_strip (left_strip cs)

  -- `[p.strip() for p in text.split(",") if p.strip()]`
  unfoldable pub words : List (List Char) → List String
  unfolding strip
  words [] = []
  words (w ∷ ws) =
      let rest = words ws in let p = strip w in if is_blank p then rest else of_chars p ∷ rest

  unfoldable pub phases_of : String → List String
  unfolding pieces words
  phases_of text = words (pieces (chars text))

-- A small letter.
abbrev pub IsLetter : Char → Type 0
IsLetter c = (97 ≤ code c) × (code c ≤ 122)

abbrev pub IsWord : List Char → Type 0
IsWord [] = ⊥
IsWord (c ∷ cs) = IsLetter c × All IsLetter cs

letters : (w : List Char) → IsWord w → All IsLetter w
letters [] i = absurd i
letters (c ∷ cs) i = i

pieces_word : (w : List Char) → All IsLetter w → pieces w ≡ w ∷ []
unfolding pieces
pieces_word [] h = refl
pieces_word (c ∷ w) ((ge, le), h) =
    let apart : (code c == code comma) ≡ false = ground (arith, ge) in
    rw (apart, pieces_word w h) refl

pieces-comma :
    (w rest : List Char) → All IsLetter w → pieces (w ++ (comma ∷ rest)) ≡ w ∷ pieces rest
unfolding pieces
pieces-comma [] rest h = refl
pieces-comma (c ∷ w) rest ((ge, le), h) =
    let apart : (code c == code comma) ≡ false = ground (arith, ge) in
    rw (apart, pieces-comma w rest h) refl

module _ (is_space : Char → Bool) (visible : (c : Char) → IsLetter c → is_space c ≡ false) where
  left_strip_word : (w : List Char) → All IsLetter w → left_strip is_space w ≡ w
  unfolding left_strip
  left_strip_word [] h = refl
  left_strip_word (c ∷ w) (l, h) = rw (visible c l) refl

  right_strip_word : (w : List Char) → All IsLetter w → right_strip is_space w ≡ w
  unfolding right_strip
  right_strip_word [] h = refl
  right_strip_word (c ∷ w) (l, h) = rw (right_strip_word w h, visible c l) (ground arith)

  strip_word : (w : List Char) → All IsLetter w → strip is_space w ≡ w
  unfolding strip
  strip_word w h = ap (right_strip is_space) (left_strip_word w h) ∙ right_strip_word w h

  words_cons :
      (w : List Char) (ws : List (List Char))
      → IsWord w
      → words is_space (w ∷ ws) ≡ of_chars w ∷ words is_space ws
  unfolding words
  words_cons [] ws i = absurd i
  words_cons (c ∷ w) ws i = rw (strip_word (c ∷ w) i) refl

  -- Words joined by commas are read back.
  pub phases_of-join :
      (ps : List String) → All (λ p. IsWord (chars p)) ps → phases_of is_space (join "," ps) ≡ ps
  unfolding phases_of
  phases_of-join [] h = refl
  phases_of-join (p ∷ []) (i, h) =
      ap (words is_space) (pieces_word (chars p) (letters (chars p) i))
      ∙ words_cons (chars p) [] i
      ∙ ap (λ t. t ∷ []) (of_chars-chars p)
  phases_of-join (p ∷ q ∷ ps) (i, h) =
      let rest = join "," (q ∷ ps) in
      let text : chars (join "," (p ∷ q ∷ ps)) ≡ chars p ++ (comma ∷ chars rest) =
        chars-append p (String.◌++◌ "," rest) ∙ ap (λ cs. chars p ++ cs) (chars-append "," rest) in
      ap (λ cs. words is_space (pieces cs)) text
      ∙ ap (words is_space) (pieces-comma (chars p) (chars rest) (letters (chars p) i))
      ∙ words_cons (chars p) (pieces (chars rest)) i
      ∙ ap (λ t. t ∷ phases_of is_space rest) (of_chars-chars p)
      ∙ ap (λ ts. p ∷ ts) (phases_of-join (q ∷ ps) h)
