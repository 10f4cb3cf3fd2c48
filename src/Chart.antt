-- ===== src/Chart.antt =====
-- src/fanwatch/chart.py: the scales, the merge of spans, the legend and the core strip.
use thelio_fans.Prelude.{
  ℕ, ◌+◌, ◌-◌, ◌*◌, ◌/◌, ℤ, pos, ◌+ℤ◌, eq_ℤ, pos_part, String, concat, Bool, Option, none, some,
  List, [], ◌∷◌, ◌++◌, last?, get_elem?, present, default, ◌>>=◌, if◌then◌else◌,
}
use Prim.Native.Nat.{min}
use thelio_fans.Float.{Float, whole, larger, smaller, max?}
pub mod Scales
pub mod Merge
pub mod Canonical
pub mod Grid
pub mod Canvas
pub mod Framed
pub mod Axis
mod ChartTests

-- A text and a colour pair.
abbrev pub Span : Type 0
Span = String × ℤ

pub record Series (F : Type 0) : Type 0 where
  pub name : String
  pub values : List (Option F)
  pub color : ℤ
  pub unit : String
  pub heat : Bool

abbrev heat_levels : ℕ
heat_levels = 16

abbrev blocks : List String
blocks = "▁" ∷ "▂" ∷ "▃" ∷ "▄" ∷ "▅" ∷ "▆" ∷ "▇" ∷ "█" ∷ []

-- The index into BLOCKS: `min(len(BLOCKS) - 1, level * len(BLOCKS) // HEAT_LEVELS)`, for a level
-- that is not negative
abbrev block_index : ℤ → ℕ
block_index level = min 7 (pos_part level * 8 / heat_levels)

module _ {F : Type 0} ⦃f : Float F⦄ where
  -- `min(1.0, max(0.0, frac))`
  abbrev pub unit_clamp : F → F
  unit_clamp frac = smaller (f.decimal 10 1) (larger (f.decimal 0 1) frac)

  -- `_scale`, of an axis whose two ends differ
  unfoldable pub scale : F → F → F → ℕ → ℤ
  scale value y_min y_max dots_high =
      let frac = f.div (f.sub value y_min) (f.sub y_max y_min) in
      f.round (f.mul (f.sub (f.decimal 10 1) (unit_clamp frac)) (whole (dots_high - 1)))

  -- `heat_level`
  unfoldable pub heat_level : F → ℤ
  heat_level temp_c =
      let frac =
        f.div (f.sub temp_c (f.decimal 300 1)) (f.sub (f.decimal 1000 1) (f.decimal 300 1)) in
      f.round (f.mul (unit_clamp frac) (whole (heat_levels - 1)))

  -- `_series_color`
  unfoldable pub series_color : Series F → Option F → ℤ → ℤ
  unfolding heat_level
  series_color s none heat_base = s.color
  series_color s (some value) heat_base = if s.heat then heat_base +ℤ heat_level value else s.color

  -- The last value that is not None.
  abbrev current_of : List (Option F) → Option F
  current_of values = last? (present values)

  unfoldable pub legend_spans : List (Series F) → ℤ → List Span
  unfolding series_color
  legend_spans [] heat_base = []
  legend_spans (s ∷ series) heat_base =
      let current = current_of s.values in
      let shown : String = elim current [ none ↦ "?" | some v ↦ f.show 0 v ] in
      (concat ("● " ∷ s.name ∷ " " ∷ shown ∷ s.unit ∷ []), series_color s current heat_base)
      ∷ ("   ", pos 0)
      ∷ legend_spans series heat_base

  -- `legend`
  unfoldable pub legend : List (Series F) → Option F → ℤ → ℤ → List Span
  unfolding legend_spans
  legend series none limit_color heat_base = legend_spans series heat_base
  legend series (some limit) limit_color heat_base =
      legend_spans series heat_base
      ++ (concat ("╌╌ " ∷ f.show 0 limit ∷ "°C limit" ∷ []), limit_color) ∷ []

  -- `core_strip`; an index out of range is none, an IndexError
  unfoldable pub strip_spans : List (String × Option F) → ℤ → Option (List Span)
  unfolding heat_level
  strip_spans [] heat_base = some []
  strip_spans ((_, none) ∷ cores) heat_base = elim (strip_spans cores heat_base) [
    | none ↦ none
    | some rest ↦ some (("?", pos 0) ∷ rest)
  ]
  strip_spans ((_, some temp) ∷ cores) heat_base =
      let level = heat_level temp in
      let rest = strip_spans cores heat_base in
      elim (get_elem? blocks (block_index level)) [
        | none ↦ none
        | some block ↦ elim rest [
          | none ↦ none
          | some spans ↦ some ((block, heat_base +ℤ level) ∷ spans)
        ]
      ]

module _ {F : Type 0} ⦃f : Float F⦄ where
  -- The readings of some cores.
  abbrev pub core_values : List (String × Option F) → List (Option F)
  core_values [] = []
  core_values ((_, temp) ∷ cores) = temp ∷ core_values cores

  -- The range at the end of the strip, if there is a reading.
  unfoldable pub strip_range : List F → List Span
  unfolding max?
  strip_range readings = elim (max? (λ a b. f.lt b a) readings) [
    | none ↦ []
    | some low ↦
        let high = default low (max? f.lt readings) in
        (concat ("  " ∷ f.show 0 low ∷ "-" ∷ f.show 0 high ∷ "°C" ∷ []), pos 0) ∷ []
  ]

  -- `core_strip`
  unfoldable pub core_strip : List (String × Option F) → ℤ → Option (List Span)
  unfolding strip_spans strip_range
  core_strip cores heat_base = strip_spans cores heat_base >>= λ spans.
      some (spans ++ strip_range (present (core_values cores)))

-- The loop of `_merge`, on the spans so far with the last one first.
unfoldable pub merge_into : List Span → List Span → List Span
merge_into merged [] = merged
merge_into [] ((text, color) ∷ spans) = merge_into ((text, color) ∷ []) spans
merge_into ((last_text, last_color) ∷ merged) ((text, color) ∷ spans) =
    merge_into
      (if eq_ℤ last_color color
        then (concat (last_text ∷ text ∷ []), color) ∷ merged
        else (text, color) ∷ (last_text, last_color) ∷ merged)
      spans

abbrev pub reversed : List Span → List Span
reversed [] = []
reversed (s ∷ spans) = reversed spans ++ (s ∷ [])

-- `_merge`
unfoldable pub merge : List Span → List Span
unfolding merge_into
merge spans = reversed (merge_into [] spans)
