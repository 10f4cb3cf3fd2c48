-- ===== src/Chart/Merge.antt =====
-- chart.py: `_merge` keeps the text and leaves no two neighbours of one colour.
use thelio_fans.Prelude.{
  ℤ, pos, negsuc, eq_ℤ, String, concat, true, false, ◌≡◌, refl, sym, ap, ◌∙◌, inl, inr, List, [],
  ◌∷◌, ◌++◌, map, Bool-cases, last?, some, arith,
}
use Prim.Native.Char.{Char}
use mathlib.Core.Path.{subst}
use mathlib.Core.Option.{some-injective}
use mathlib.Core.List.{append_assoc, append-nil}
use thelio_fans.Text.{chars, chars-concat}
use thelio_fans.Chart.{Span, merge_into, reversed, merge}

-- The characters of a text in a colour.
abbrev pub inked : ℤ → List Char → List (Char × ℤ)
inked color = map (λ c. (c, color))

-- The characters with their colours, as the terminal shows them.
abbrev pub painted : List Span → List (Char × ℤ)
painted [] = []
painted ((text, color) ∷ spans) = inked color (chars text) ++ painted spans

-- No two neighbours have one colour.
abbrev pub IsMerged : List Span → Type 0
IsMerged [] = Unit
IsMerged (s ∷ []) = Unit
IsMerged (s ∷ t ∷ spans) = (eq_ℤ s.1 t.1 ≡ false) × IsMerged (t ∷ spans)

inked-append :
    (color : ℤ) (cs ds : List Char) → inked color (cs ++ ds) ≡ inked color cs ++ inked color ds
inked-append color [] ds = refl
inked-append color (c ∷ cs) ds = ap (◌∷◌ (c, color)) (inked-append color cs ds)

painted-append : (l m : List Span) → painted (l ++ m) ≡ painted l ++ painted m
painted-append [] m = refl
painted-append ((text, color) ∷ l) m =
    ap (λ p. inked color (chars text) ++ p) (painted-append l m)
    ∙ sym (append_assoc (inked color (chars text)) (painted l) (painted m))

eq_ℤ_iff : (a b : ℤ) → eq_ℤ a b ≡ true → a ≡ b
eq_ℤ_iff (pos a) (pos b) h = ap pos (ground (arith, h))
eq_ℤ_iff (pos a) (negsuc b) h = absurd (ground (arith, h))
eq_ℤ_iff (negsuc a) (pos b) h = absurd (ground (arith, h))
eq_ℤ_iff (negsuc a) (negsuc b) h = ap negsuc (ground (arith, h))

eq_ℤ_sym : (a b : ℤ) → eq_ℤ a b ≡ false → eq_ℤ b a ≡ false
eq_ℤ_sym a b h = ground (arith, h)

-- Two texts of one colour are painted as their concatenation is.
joined-painted :
    (s t : String) (color : ℤ) (spans : List Span)
    → painted ((concat (s ∷ t ∷ []), color) ∷ spans) ≡ painted ((s, color) ∷ (t, color) ∷ spans)
joined-painted s t color spans =
    ap (λ cs. inked color cs ++ painted spans) (chars-concat s t)
    ∙ ap (λ p. p ++ painted spans) (inked-append color (chars s) (chars t))
    ∙ append_assoc (inked color (chars s)) (inked color (chars t)) (painted spans)

-- A span at the end of one list is as good as at the start of the next.
moved-painted :
    (l : List Span) (s : Span) (spans : List Span)
    → painted (l ++ (s ∷ [])) ++ painted spans ≡ painted l ++ painted (s ∷ spans)
moved-painted l (text, color) spans =
    ap (λ p. p ++ painted spans) (painted-append l ((text, color) ∷ []))
    ∙ append_assoc (painted l) (painted ((text, color) ∷ [])) (painted spans)
    ∙ ap (λ p. painted l ++ (p ++ painted spans)) (append-nil (inked color (chars text)))

merge_into-painted :
    (merged spans : List Span)
    → painted (reversed (merge_into merged spans)) ≡ painted (reversed merged) ++ painted spans
unfolding merge_into
merge_into-painted merged [] = sym (append-nil (painted (reversed merged)))
merge_into-painted [] ((text, color) ∷ spans) =
    merge_into-painted ((text, color) ∷ []) spans
    ∙ ap (λ p. p ++ painted spans) (append-nil (inked color (chars text)))
merge_into-painted ((last_text, last_color) ∷ merged) ((text, color) ∷ spans) =
    elim (Bool-cases (eq_ℤ last_color color)) [
      | inl e ↦
          let same : last_color ≡ color = eq_ℤ_iff last_color color e in
          rw e (
            merge_into-painted ((concat (last_text ∷ text ∷ []), color) ∷ merged) spans
            ∙ moved-painted (reversed merged) (concat (last_text ∷ text ∷ []), color) spans
            ∙ ap (λ p. painted (reversed merged) ++ p) (joined-painted last_text text color spans)
            ∙ ap
                (λ c. painted (reversed merged) ++ painted ((last_text, c) ∷ (text, color) ∷ spans))
                (sym same)
            ∙ sym (moved-painted (reversed merged) (last_text, last_color) ((text, color) ∷ spans)))
      | inr e ↦ rw e (
          merge_into-painted ((text, color) ∷ (last_text, last_color) ∷ merged) spans
          ∙ moved-painted (reversed ((last_text, last_color) ∷ merged)) (text, color) spans)
    ]

recolored :
    (s t : String) (c d : ℤ) (merged : List Span)
    → c ≡ d
    → IsMerged ((s, c) ∷ merged)
    → IsMerged ((t, d) ∷ merged)
recolored s t c d [] e h = tt
recolored s t c d (u ∷ merged) e h = (subst (λ x. eq_ℤ x u.1 ≡ false) e h.0, h.1)

merge_into-IsMerged :
    (merged spans : List Span) → IsMerged merged → IsMerged (merge_into merged spans)
unfolding merge_into
merge_into-IsMerged merged [] h = h
merge_into-IsMerged [] ((text, color) ∷ spans) h = merge_into-IsMerged ((text, color) ∷ []) spans tt
merge_into-IsMerged ((last_text, last_color) ∷ merged) ((text, color) ∷ spans) h =
    elim (Bool-cases (eq_ℤ last_color color)) [
      | inl e ↦ rw e (
          merge_into-IsMerged ((concat (last_text ∷ text ∷ []), color) ∷ merged) spans (
            recolored last_text (concat (last_text ∷ text ∷ [])) last_color color merged
              (eq_ℤ_iff last_color color e) h))
      | inr e ↦ rw e (
          merge_into-IsMerged ((text, color) ∷ (last_text, last_color) ∷ merged) spans
            (eq_ℤ_sym last_color color e, h))
    ]

snoc-IsMerged :
    (l : List Span) (s : Span)
    → IsMerged l
    → ((t : Span) → last? l ≡ some t → eq_ℤ t.1 s.1 ≡ false)
    → IsMerged (l ++ (s ∷ []))
snoc-IsMerged [] s h d = tt
snoc-IsMerged (t ∷ []) s h d = (d t refl, tt)
snoc-IsMerged (t ∷ u ∷ l) s h d = (h.0, snoc-IsMerged (u ∷ l) s h.1 d)

last-snoc : (l : List Span) (s : Span) → last? (l ++ (s ∷ [])) ≡ some s
last-snoc [] s = refl
last-snoc (t ∷ []) s = refl
last-snoc (t ∷ u ∷ l) s = last-snoc (u ∷ l) s

reversed-IsMerged : (l : List Span) → IsMerged l → IsMerged (reversed l)
reversed-IsMerged [] h = tt
reversed-IsMerged (s ∷ []) h = tt
reversed-IsMerged (s ∷ t ∷ l) h =
    snoc-IsMerged (reversed (t ∷ l)) s (reversed-IsMerged (t ∷ l) h.1) (λ u e.
      let same : t ≡ u = some-injective t u (sym (last-snoc (reversed l) t) ∙ e) in
      subst (λ v. eq_ℤ v.1 s.1 ≡ false) same (eq_ℤ_sym s.1 t.1 h.0))

-- The merged spans show the same characters in the same colours, and no two neighbours have one
-- colour.
pub merge_lem :
    (spans : List Span) → (painted (merge spans) ≡ painted spans) × IsMerged (merge spans)
unfolding merge
merge_lem spans = (
  merge_into-painted [] spans,
  reversed-IsMerged (merge_into [] spans) (merge_into-IsMerged [] spans tt),
)
