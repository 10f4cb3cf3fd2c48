-- ===== src/Chart/Canonical.antt =====
-- chart.py: the spans of `_merge` are determined by what they show.
use Prim.Native.Char.{Char}
use mathlib.Core.Path.{subst}
use mathlib.Core.Bool.{true≢false}
use thelio_fans.Prelude.{
  ℤ, pos, negsuc, eq_ℤ, String, concat, true, false, ◌≡◌, ◌≢◌, refl, sym, ap, ◌∙◌, List, [], ◌∷◌,
  ◌++◌, All, All-append, arith, if_elim, if◌then◌else◌,
}
use thelio_fans.Text.{chars, of_chars, of_chars-chars, chars-concat}
use thelio_fans.Chart.{Span, merge_into, reversed, merge}
use thelio_fans.Chart.Merge.{inked, painted, IsMerged, merge_lem}

abbrev pub HasText : Span → Type 0
HasText s = chars s.0 ≢ []

-- What follows a run of a colour: nothing, or another colour.
abbrev IsOther : ℤ → List (Char × ℤ) → Type 0
IsOther c [] = Unit
IsOther c (p ∷ ps) = eq_ℤ c p.1 ≡ false

eq_ℤ-refl : (c : ℤ) → eq_ℤ c c ≡ true
eq_ℤ-refl (pos n) = ground arith
eq_ℤ-refl (negsuc n) = ground arith

not_other :
    {A : Type 0} (c : ℤ) (x : Char) (ps qs : List (Char × ℤ)) → IsOther c ps → ps ≡ (x, c) ∷ qs → A
not_other c x ps qs h e = absurd (true≢false (sym (eq_ℤ-refl c) ∙ subst (IsOther c) e h))

heads : (p q : Char × ℤ) (ps qs : List (Char × ℤ)) → p ∷ ps ≡ q ∷ qs → (p ≡ q) × (ps ≡ qs)
heads p q ps qs e = (cc, cc)

same_run :
    (c : ℤ) (xs ys : List Char) (ps qs : List (Char × ℤ))
    → IsOther c ps
    → IsOther c qs
    → inked c xs ++ ps ≡ inked c ys ++ qs
    → (xs ≡ ys) × (ps ≡ qs)
same_run c [] [] ps qs h k e = (refl, e)
same_run c [] (y ∷ ys) ps qs h k e = not_other c y ps _ h e
same_run c (x ∷ xs) [] ps qs h k e = not_other c x qs _ k (sym e)
same_run c (x ∷ xs) (y ∷ ys) ps qs h k e =
    let (first, rest) = heads (x, c) (y, c) (inked c xs ++ ps) (inked c ys ++ qs) e in
    let (texts, after) = same_run c xs ys ps qs h k rest in
    ((λ i. ap (λ p. p.0) first i ∷ texts i), after)

starts-IsOther :
    (c d : ℤ) (cs : List Char) (ps : List (Char × ℤ))
    → cs ≢ []
    → eq_ℤ c d ≡ false
    → IsOther c (inked d cs ++ ps)
starts-IsOther c d [] ps h e = absurd (h refl)
starts-IsOther c d (x ∷ cs) ps h e = e

run-ne-nil : (c : ℤ) (cs : List Char) (ps : List (Char × ℤ)) → cs ≢ [] → [] ≢ inked c cs ++ ps
run-ne-nil c [] ps h e = h refl
run-ne-nil c (x ∷ cs) ps h e = cc

same_color :
    (c d : ℤ) (xs ys : List Char) (ps qs : List (Char × ℤ))
    → xs ≢ []
    → ys ≢ []
    → inked c xs ++ ps ≡ inked d ys ++ qs
    → c ≡ d
same_color c d [] ys ps qs h k e = absurd (h refl)
same_color c d (x ∷ xs) [] ps qs h k e = absurd (k refl)
same_color c d (x ∷ xs) (y ∷ ys) ps qs h k e =
    ap (λ p. p.1) (heads (x, c) (y, d) (inked c xs ++ ps) (inked d ys ++ qs) e).0

rest-IsOther :
    (s : Span) (m : List Span) → IsMerged (s ∷ m) → All HasText m → IsOther s.1 (painted m)
rest-IsOther s [] h k = tt
rest-IsOther s ((text, d) ∷ m) h k = starts-IsOther s.1 d (chars text) (painted m) k.0 h.0

rest-IsMerged : (s : Span) (m : List Span) → IsMerged (s ∷ m) → IsMerged m
rest-IsMerged s [] h = tt
rest-IsMerged s (t ∷ m) h = h.1

painted-injective :
    (m n : List Span)
    → IsMerged m
    → IsMerged n
    → All HasText m
    → All HasText n
    → painted m ≡ painted n
    → m ≡ n
painted-injective [] [] h k a b e = refl
painted-injective [] ((u, d) ∷ n) h k a b e = absurd (run-ne-nil d (chars u) (painted n) b.0 e)
painted-injective ((t, c) ∷ m) [] h k a b e =
    absurd (run-ne-nil c (chars t) (painted m) a.0 (sym e))
painted-injective ((t, c) ∷ m) ((u, d) ∷ n) h k a b e =
    let colors = same_color c d (chars t) (chars u) (painted m) (painted n) a.0 b.0 e in
    let other = subst (λ x. IsOther x (painted n)) (sym colors) (rest-IsOther (u, d) n k b.1) in
    let (texts, after) =
      same_run c (chars t) (chars u) (painted m) (painted n) (rest-IsOther (t, c) m h a.1) other
        (e ∙ ap (λ x. inked x (chars u) ++ painted n) (sym colors)) in
    let rest =
      painted-injective m n (rest-IsMerged (t, c) m h) (rest-IsMerged (u, d) n k) a.1 b.1 after in
    let text = sym (of_chars-chars t) ∙ ap of_chars texts ∙ of_chars-chars u in
    λ i. (text i, colors i) ∷ rest i

concat-HasText : (s t : String) (c : ℤ) → HasText (s, c) → HasText (concat (s ∷ t ∷ []), c)
concat-HasText s t c h e = longer (chars s) h (sym (chars-concat s t) ∙ e)
  where
    longer : (cs : List Char) → cs ≢ [] → cs ++ chars t ≢ []
    longer [] k p = k refl
    longer (x ∷ cs) k p = cc

merge_into-HasText :
    (merged spans : List Span)
    → All HasText merged
    → All HasText spans
    → All HasText (merge_into merged spans)
unfolding merge_into
merge_into-HasText merged [] h k = h
merge_into-HasText [] ((text, color) ∷ spans) h k =
    merge_into-HasText ((text, color) ∷ []) spans (k.0, tt) k.1
merge_into-HasText ((last_text, last_color) ∷ merged) ((text, color) ∷ spans) h k =
    merge_into-HasText
      (if eq_ℤ last_color color
        then (concat (last_text ∷ text ∷ []), color) ∷ merged
        else (text, color) ∷ (last_text, last_color) ∷ merged)
      spans
      (if_elim (All HasText) (eq_ℤ last_color color) _ _
        (λ _. (concat-HasText last_text text color h.0, h.1)) (λ _. (k.0, h)))
      k.1

reversed-HasText : (l : List Span) → All HasText l → All HasText (reversed l)
reversed-HasText [] h = tt
reversed-HasText (s ∷ l) h =
    All-append HasText (reversed l) (s ∷ []) (reversed-HasText l h.1) (h.0, tt)

merge-HasText : (spans : List Span) → All HasText spans → All HasText (merge spans)
unfolding merge
merge-HasText spans h = reversed-HasText (merge_into [] spans) (merge_into-HasText [] spans tt h)

-- `_merge` is a canonical form: two lists of spans, none without text, that show the same characters
-- in the same colours are merged to the same spans, and a merged list is merged to itself.
pub merge_canonical :
    (l m : List Span)
    → All HasText l
    → All HasText m
    → painted l ≡ painted m
    → (merge l ≡ merge m) × (merge (merge l) ≡ merge l)
merge_canonical l m h k e =
    let (shows_l, merged_l) = merge_lem l in
    let (shows_m, merged_m) = merge_lem m in
    let (shows_again, merged_again) = merge_lem (merge l) in
    let text_l = merge-HasText l h in
    (
      painted-injective (merge l) (merge m) merged_l merged_m text_l (merge-HasText m k)
          (shows_l ∙ e ∙ sym shows_m),
      painted-injective (merge (merge l)) (merge l) merged_again merged_l
          (merge-HasText (merge l) text_l) text_l shows_again,
    )
