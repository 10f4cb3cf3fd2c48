-- ===== src/Dashboard/Palette.antt =====
-- dashboard.py: `_init_colors`, and the attributes of a text. The colours of curses are the numbers
-- that its documentation gives them.
use thelio_fans.Prelude.{
  ℕ, ℤ, pos, ◌+ℤ◌, eq_ℤ, Bool, not, ◌&&◌, leb, Option, none, some, List, [], ◌∷◌, ◌++◌, filter, all,
  if◌then◌else◌, negsuc,
}
use thelio_fans.Dashboard.Colors.{cyan, green, yellow, red, muted, blue, magenta}
use thelio_fans.Dashboard.Screen.{color_pair, heat_base}

pub record Curses : Type 0 where
  pub has_colors : Bool
  pub colors : ℕ
  -- `use_default_colors` does not raise
  pub has_default : Bool
  -- `init_pair` does not raise for a pair
  pub accepts : ℤ → Bool

-- A pair, its colour and its background.
abbrev pub Pair : Type 0
Pair = ℤ × ℤ × ℤ

abbrev pub heat_256 : List ℕ
heat_256 =
    27 ∷ 33 ∷ 39 ∷ 45 ∷ 51 ∷ 49 ∷ 47 ∷ 82 ∷ 118 ∷ 154 ∷ 190 ∷ 226 ∷ 220 ∷ 214 ∷ 208 ∷ 196 ∷ []

abbrev pub heat_8 : List ℕ
heat_8 = 4 ∷ 4 ∷ 4 ∷ 6 ∷ 6 ∷ 6 ∷ 2 ∷ 2 ∷ 2 ∷ 3 ∷ 3 ∷ 3 ∷ 1 ∷ 1 ∷ 1 ∷ 1 ∷ []

-- `background`: the terminal's own, or black
abbrev pub background : Curses → ℤ
background c = if c.has_default then negsuc 0 else pos 0

-- The pairs of `Color`.
abbrev pub base_pairs : ℤ → List Pair
base_pairs back =
    (color_pair cyan, pos 6, back)
    ∷ (color_pair green, pos 2, back)
    ∷ (color_pair yellow, pos 3, back)
    ∷ (color_pair red, pos 1, back)
    ∷ (color_pair muted, pos 7, back)
    ∷ (color_pair blue, pos 4, back)
    ∷ (color_pair magenta, pos 5, back)
    ∷ []

-- The pairs of the gradient, from a level on.
unfoldable pub heat_pairs : ℤ → ℤ → List ℕ → List Pair
heat_pairs back pair [] = []
heat_pairs back pair (color ∷ colors) =
    (pair, pos color, back) ∷ heat_pairs back (pair +ℤ pos 1) colors

-- `_init_colors`: the pairs that are set, or none for an exception. Only the gradient's pairs may
-- be refused.
unfoldable pub init_colors : Curses → Option (List Pair)
unfolding heat_pairs
init_colors c =
    let back = background c in
    let gradient = if leb 256 c.colors then heat_256 else heat_8 in
    if not c.has_colors
    then some []
    else if all (λ (p : Pair). c.accepts p.0) (base_pairs back)
    then some (
        base_pairs back
        ++ filter (λ (p : Pair). c.accepts p.0) (heat_pairs back heat_base gradient))
    else none

pub record Attribute : Type 0 where
  pub pair : ℤ
  pub is_bold : Bool
  pub is_dim : Bool

-- `attr_for`
unfoldable pub attr_for : Curses → ℤ → Bool → Attribute
attr_for c color bold = record {
  pair = if c.has_colors && not (eq_ℤ color (pos 0)) then color else pos 0;
  is_bold = bold;
  is_dim = eq_ℤ color (color_pair muted);
}
