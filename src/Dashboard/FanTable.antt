-- ===== src/Dashboard/FanTable.antt =====
-- dashboard.py: `_controller_row` and `_fan_lines`. The time, `str.isprintable` and the text of a
-- JSON value that is no string, `str(value)`, are parameters.
use Prim.Native.Char.{Char}
use thelio_fans.Prelude.{
  ℕ, ◌==◌, ltb, pos, eq_ℤ, String, str_eq, concat, join, Bool, true, false, not, ◌&&◌, ◌||◌, Option,
  none, some, is_some, default, List, [], ◌∷◌, ◌++◌, map, filter, length, head?, last?, lookup,
  insert, if◌then◌else◌,
}
use thelio_fans.Float.{Float, whole}
use thelio_fans.Show.{str_ℤ}
use thelio_fans.Text.{sanitize}
use thelio_fans.Format.{cut, left_field}
use thelio_fans.Snapshot.{Snapshot, Fan, Value, Items, Members, is_empty}
use thelio_fans.Stress.Sampling.{number}
use thelio_fans.Dashboard.Histories.{Histories}
use thelio_fans.Dashboard.Alerts.{history_of}
use thelio_fans.Dashboard.Colors.{Color, yellow, red, muted}
use thelio_fans.Dashboard.FanRows.{Line, name_w, fan_row}

module _ {F : Type 0} ⦃f : Float F⦄ where
  -- `bool(value)`
  abbrev pub is_true : Value F → Bool
  is_true Value.null = false
  is_true (Value.boolean b) = b
  is_true (Value.int n) = not (eq_ℤ n (pos 0))
  is_true (Value.float x) = not (f.eq x (whole 0))
  is_true (Value.str s) = not (str_eq s "")
  is_true (Value.array Items.nil) = false
  is_true (Value.array (Items.cons v vs)) = true
  is_true (Value.object Members.end) = false
  is_true (Value.object (Members.member k v ms)) = true

  -- `number(key)`
  unfoldable pub state_number : String → List (String × Value F) → Option F
  unfolding number lookup
  state_number key state = elim (lookup key state) [ none ↦ none | some v ↦ number v ]

  -- `num(key, fmt)`, for a format of `k` decimals
  unfoldable pub state_text : String → ℕ → List (String × Value F) → String
  unfolding state_number
  state_text key k state = elim (state_number key state) [ none ↦ "?" | some x ↦ f.show k x ]

  -- `age > 10`, where a missing time is infinitely old
  abbrev pub is_stale : F → Option F → Bool
  is_stale now none = true
  is_stale now (some written) = f.lt (whole 10) (f.sub now written)

  abbrev pub is_mode : Option (Value F) → Bool
  is_mode none = false
  is_mode (some v) = is_true v

  -- `state.get("panic") is True`
  abbrev pub is_panic : Option (Value F) → Bool
  is_panic (some (Value.boolean b)) = b
  is_panic _ = false

module _ {F : Type 0} (is_printable : Char → Bool) (show_value : Value F → String) where
  -- `str(value)`
  abbrev pub value_text : Value F → String
  value_text (Value.str s) = s
  value_text v = show_value v

  abbrev pub reason_text : Option (Value F) → String
  reason_text none = ""
  reason_text (some v) = cut 80 (sanitize is_printable (value_text v))

  abbrev pub trouble_text : Option (Value F) → String
  trouble_text (some (Value.str s)) =
      if str_eq s "" then "" else concat (" · " ∷ cut 60 (sanitize is_printable s) ∷ [])
  trouble_text _ = ""

-- `RED` for a panic or an error, which is a text that is not empty; else by age
abbrev pub controller_color : Bool → String → Bool → Color
controller_color panic trouble stale =
    if panic || not (str_eq trouble "") then red else if stale then yellow else muted

module _ {F : Type 0} ⦃f : Float F⦄ (is_printable : Char → Bool) (show_value : Value F → String)
    (now : F) where
  -- `_controller_row`
  unfoldable pub controller_row : List (String × Value F) → Line
  unfolding state_text state_number lookup left_field cut sanitize
  controller_row state =
      let stale = is_stale now (state_number "time" state) in
      let panic = is_panic (lookup "panic" state) in
      let trouble = trouble_text is_printable show_value (lookup "error" state) in
      (
        concat (
            "  "
            ∷ left_field name_w "Intake control"
            ∷ " fanctl"
            ∷ (if is_mode (lookup "dry_run" state) then " (dry run)" else "")
            ∷ " · ema "
            ∷ state_text "smoothed_c" 1 state
            ∷ " °C · "
            ∷ state_text "duty_pct" 0 state
            ∷ "% · "
            ∷ reason_text is_printable show_value (lookup "reason" state)
            ∷ (if panic then " · PANIC" else "")
            ∷ trouble
            ∷ (if stale then " · STALE" else "")
            ∷ []),
        controller_color panic trouble stale,
      )

-- The channels of each chip, in order of first appearance: `by_chip`.
abbrev pub Grouped : Type 0
Grouped = List (String × List String)

module _ {F : Type 0} where
  -- Empty, and without a label.
  abbrev pub is_unlabelled : Fan F → Bool
  is_unlabelled fan = is_empty fan.status && not (is_some fan.label)

  unfoldable pub by_chip : List (Fan F) → Grouped → Grouped
  unfolding insert lookup
  by_chip [] groups = groups
  by_chip (fan ∷ fans) groups =
      by_chip fans
        (insert fan.chip (default [] (lookup fan.chip groups) ++ (fan.channel ∷ [])) groups)

-- `f"{channels[0]}-{channels[-1]}"`, of a list that is not empty
abbrev pub ends_text : List String → String
ends_text channels = concat (default "" (head? channels) ∷ "-" ∷ default "" (last? channels) ∷ [])

abbrev pub channel_span : List String → String
channel_span channels = if ltb 2 (length channels) then ends_text channels else join ", " channels

-- The line of the empty headers of a chip.
unfoldable pub empty_line : String × List String → Line
unfolding left_field
empty_line (chip, channels) =
    let n = length channels in
    let label = concat (str_ℤ (pos n) ∷ " empty header" ∷ (if n == 1 then "" else "s") ∷ []) in
    (concat ("  " ∷ left_field name_w label ∷ " " ∷ chip ∷ " " ∷ channel_span channels ∷ []), muted)

module _ {F : Type 0} ⦃f : Float F⦄ where
  -- The lines of the fans that have a row.
  unfoldable pub shown_fans : List (Fan F) → Histories → List Line
  unfolding fan_row
  shown_fans [] histories = []
  shown_fans (fan ∷ fans) histories =
      let rest = shown_fans fans histories in
      if is_unlabelled fan then rest else fan_row fan (history_of fan.key histories) ∷ rest

module _ {F : Type 0} ⦃f : Float F⦄ (is_printable : Char → Bool) (show_value : Value F → String)
    (now : F) where
  -- `if snapshot.controller`: None and an empty dictionary have no line
  abbrev pub controller_lines : Option (List (String × Value F)) → List Line
  controller_lines none = []
  controller_lines (some []) = []
  controller_lines (some (e ∷ es)) = controller_row is_printable show_value now (e ∷ es) ∷ []

  -- `_fan_lines`
  unfoldable pub fan_lines : Snapshot F → Histories → List Line
  unfolding shown_fans by_chip empty_line controller_row
  fan_lines snapshot histories = elim snapshot.fans [
    | [] ↦ ("  No fan sensors available.", yellow) ∷ []
    | fan ∷ fans ↦
        shown_fans (fan ∷ fans) histories
        ++ map empty_line (by_chip (filter is_unlabelled (fan ∷ fans)) [])
        ++ controller_lines snapshot.controller
  ]
