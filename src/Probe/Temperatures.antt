-- ===== src/Probe/Temperatures.antt =====
-- probe.py: `_collect_temperatures`.
use thelio_fans.Prelude.{
  ℤ, leb_ℤ, String, str_eq, concat, Bool, true, false, ◌≡◌, refl, Option, none, some, List, [], ◌∷◌,
  ◌++◌, map, arith, if◌then◌else◌,
}
use Prim.Native.Char.{Char}
use thelio_fans.Text.{chars, of_chars}
use mathlib.Core.List.{append-nil, append_assoc}
use thelio_fans.Float.{Float, whole}
use thelio_fans.Snapshot.{Temperature, Snapshot}
use thelio_fans.Probe.Reading.{Sysfs, under, read_text, read_int, label_or}

-- What a temperature is alerted for.
pub data Heat : Type 0 where
  cool at_critical at_maximum : Heat

at_or_above : ℤ → Option ℤ → Bool
at_or_above value none = false
at_or_above value (some limit) = leb_ℤ limit value

-- The tests of `_collect_temperatures`, in order.
unfoldable pub heat : Option ℤ → Option ℤ → Option ℤ → Heat
unfolding at_or_above
heat none critical maximum = cool
heat (some value) critical maximum =
    if at_or_above value critical
    then at_critical
    else if at_or_above value maximum
    then at_maximum
    else cool

-- The reading is at the limit or above it.
abbrev Reaches : Option ℤ → Option ℤ → Type 0
Reaches (some value) (some limit) = leb_ℤ limit value ≡ true
Reaches _ _ = ⊥

-- What each alert of a sensor says of its reading and limits.
abbrev pub IsHeat : Heat → Option ℤ → Option ℤ → Option ℤ → Type 0
IsHeat at_critical value critical maximum = Reaches value critical
IsHeat at_maximum value critical maximum = ¬ Reaches value critical × Reaches value maximum
IsHeat cool value critical maximum = ¬ Reaches value critical × ¬ Reaches value maximum

heat-IsHeat :
    (value critical maximum : Option ℤ)
    → IsHeat (heat value critical maximum) value critical maximum
unfolding heat
heat-IsHeat none critical maximum = ((λ h. h), (λ h. h))
heat-IsHeat (some value) none none = ((λ h. h), (λ h. h))
heat-IsHeat (some value) none (some m) = ground arith
heat-IsHeat (some value) (some c) none = ground arith
heat-IsHeat (some value) (some c) (some m) = ground arith

-- The text less the suffix, if it ends so.
remove_suffix : String → List Char → List Char
remove_suffix suffix [] = []
remove_suffix suffix (c ∷ cs) =
    if str_eq (of_chars (c ∷ cs)) suffix then [] else c ∷ remove_suffix suffix cs

module _ (fs : Sysfs) where
  -- `p.name.removesuffix("_input")`
  unfoldable pub prefix_of : String → String
  unfolding remove_suffix
  prefix_of p = of_chars (remove_suffix "_input" (chars (fs.file_name p)))

  -- The readings of a sensor: its value, critical and maximum, in thousandths.
  abbrev pub value_of : String → Option ℤ
  value_of p = (read_int fs p false).0

  abbrev pub critical_of : String → String → Option ℤ
  critical_of hw prefix = (read_int fs (under hw (concat (prefix ∷ "_crit" ∷ []))) false).0

  abbrev pub maximum_of : String → String → Option ℤ
  maximum_of hw prefix = (read_int fs (under hw (concat (prefix ∷ "_max" ∷ []))) false).0

  abbrev pub label_of : String → String → String
  label_of hw prefix = label_or (read_text fs (under hw (concat (prefix ∷ "_label" ∷ [])))) prefix

  unfoldable pub heat_alert : String → String → Heat → List String
  heat_alert chip label cool = []
  heat_alert chip label at_critical =
      concat (chip ∷ " / " ∷ label ∷ ": at or above critical temperature" ∷ []) ∷ []
  heat_alert chip label at_maximum =
      concat (chip ∷ " / " ∷ label ∷ ": at or above reported maximum" ∷ []) ∷ []

  -- The alerts that a round appends: one or none.
  unfoldable pub alert_at : String → String → String → List String
  unfolding heat_alert
  alert_at hw chip p =
      let prefix = prefix_of p in
      heat_alert chip (label_of hw prefix)
        (heat (value_of p) (critical_of hw prefix) (maximum_of hw prefix))

  abbrev pub temperature_alerts : String → String → List String → List String
  temperature_alerts hw chip [] = []
  temperature_alerts hw chip (p ∷ ps) = alert_at hw chip p ++ temperature_alerts hw chip ps

module _ {F : Type 0} ⦃f : Float F⦄ (fs : Sysfs) where
  -- `value / 1000 if value is not None else None`
  unfoldable pub celsius_of : Option ℤ → Option F
  celsius_of none = none
  celsius_of (some value) = some (f.div (f.of_int value) (whole 1000))

  -- The temperature that a round appends.
  unfoldable pub temperature_at : String → String → String → Temperature F
  unfolding celsius_of
  temperature_at hw chip p =
      let prefix = prefix_of fs p in
      record {
        chip = chip;
        label = label_of fs hw prefix;
        celsius = celsius_of (value_of fs p);
        critical = celsius_of (critical_of fs hw prefix);
        maximum = celsius_of (maximum_of fs hw prefix);
        error = (read_int fs p false).1;
        key = concat (chip ∷ ":" ∷ label_of fs hw prefix ∷ []);
      }

  temperatures_loop : String → String → List String → Snapshot F → Snapshot F
  temperatures_loop hw chip [] s = s
  temperatures_loop hw chip (p ∷ ps) s = temperatures_loop hw chip ps (record s {
    temperatures = s.temperatures ++ (temperature_at hw chip p ∷ []);
    alerts = s.alerts ++ alert_at fs hw chip p;
  })

  -- `_collect_temperatures`
  unfoldable pub collect_temperatures : String → String → Snapshot F → Snapshot F
  unfolding temperatures_loop
  collect_temperatures hw chip s = temperatures_loop hw chip (fs.glob hw "temp*_input") s

  temperatures_loop_lem :
      (hw chip : String) (ps : List String) (s : Snapshot F)
      → temperatures_loop hw chip ps s ≡ record s {
        temperatures = s.temperatures ++ map (temperature_at hw chip) ps;
        alerts = s.alerts ++ temperature_alerts fs hw chip ps;
      }
  unfolding temperatures_loop
  temperatures_loop_lem hw chip [] s = simp append-nil
  temperatures_loop_lem hw chip (p ∷ ps) s = simp (temperatures_loop_lem hw chip ps, append_assoc)

  -- `_collect_temperatures` appends one temperature for each `temp*_input` file, and after each the
  -- alert that it calls for: of the critical limit if the reading has reached it, else of the
  -- maximum if the reading has reached that, else none; a reading or a limit that cannot be read
  -- reaches nothing. Nothing else of the snapshot changes.
  pub collect_temperatures_lem :
      (hw chip : String) (s : Snapshot F)
      → let ps = fs.glob hw "temp*_input" in
        (collect_temperatures hw chip s ≡ record s {
          temperatures = s.temperatures ++ map (temperature_at hw chip) ps;
          alerts = s.alerts ++ temperature_alerts fs hw chip ps;
        })
        × ((p : String)
            → let value = value_of fs p in
              let critical = critical_of fs hw (prefix_of fs p) in
              let maximum = maximum_of fs hw (prefix_of fs p) in
              IsHeat (heat value critical maximum) value critical maximum
              × (alert_at fs hw chip p
                  ≡ heat_alert fs chip
                      (label_of fs hw (prefix_of fs p))
                      (heat value critical maximum)))
  unfolding collect_temperatures alert_at
  collect_temperatures_lem hw chip s =
      (temperatures_loop_lem hw chip (fs.glob hw "temp*_input") s, λ p. (heat-IsHeat _ _ _, refl))
