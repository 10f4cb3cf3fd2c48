-- ===== src/Probe/ProbeTests.antt =====
-- Runs and witnesses for probe.py and text.py, on a machine with an Io board and one fan.
use Prim.Native.Char.{code}
use thelio_fans.Prelude.{
  ◌≤◌, ◌==◌, ℤ, pos, String, str_eq, true, false, not, ◌&&◌, ◌≡◌, ◌≢◌, ◌↔◌, refl, Option, none,
  some, List, [], ◌∷◌, ◌++◌, map, any, length, All, IsIn, if◌then◌else◌,
}
use thelio_fans.Text.{chars, sanitize, sanitize_safe}
use thelio_fans.Float.Millis.{millis_float, Millis}
use thelio_fans.Snapshot.{stopped, Snapshot}
use thelio_fans.Probe.Reading.{Sysfs, parsed, failed, read_int, read_text, read_int_lem, IsReading}
use thelio_fans.Probe.Status.{fan_status, IsStatus, fan_status_iff}
use thelio_fans.Probe.Indices.{fan_index, fan_indices, fan_indices_lem, IsSorted, HasIndex}
use thelio_fans.Probe.Fans.{fan_at, fan_alerts, is_alerted, IsSound, collect_fans, collect_fans_lem}
use thelio_fans.Probe.Temperatures.{
  temperature_at, temperature_alerts, collect_temperatures, collect_temperatures_lem, heat, IsHeat,
  value_of, critical_of, maximum_of, label_of, prefix_of, alert_at, heat_alert,
}
use thelio_fans.Probe.Board.{collect_controllers}
use thelio_fans.Probe.Collect.{collect, collect_silent, is_io_fan}

abbrev find : {V : Type 0} → String → List (String × V) → Option V
find k [] = none
find k ((j, v) ∷ m) = if str_eq j k then some v else find k m

abbrev texts : List (String × String)
texts =
    ("/hw/name", "system76_io")
    ∷ ("/hw/fan1_label", "INTF")
    ∷ ("/usb/idVendor", "1209")
    ∷ ("/usb/idProduct", "1776")
    ∷ []

abbrev numbers : List (String × ℤ)
numbers =
    ("/hw/fan1_input", pos 600)
    ∷ ("/hw/pwm1", pos 64)
    ∷ ("temp1_input", pos 101000)
    ∷ ("/hot/temp1_crit", pos 100000)
    ∷ []

abbrev machine : Sysfs
machine = record {
  is_printable = λ c. true;
  contents = λ p. find p texts;
  number = λ p. elim (find p numbers) [ none ↦ failed "missing" | some n ↦ parsed n ];
  file_name = λ p. p;
  children = λ p. some ("fan1_input" ∷ "fan1_label" ∷ "name" ∷ []);
  device = λ p. "/device";
  glob = λ dir pattern.
      if str_eq pattern "hwmon*"
      then "/hw" ∷ []
      else if str_eq pattern "*"
      then "/usb" ∷ []
      else if str_eq pattern "/usb:*"
      then "/usb/i" ∷ []
      else if str_eq dir "/hot"
      then "temp1_input" ∷ []
      else [];
  is_dir = λ p. false;
  driver = λ p. some "system76-io";
}

sanitize_safe_example :
    (length (chars (sanitize (λ c. not (code c == 10)) "a\nb")) ≤ 256)
    × All (λ c. not (code c == 10) ≡ true) (chars (sanitize (λ c. not (code c == 10)) "a\nb"))
    × (sanitize (λ c. not (code c == 10)) (sanitize (λ c. not (code c == 10)) "a\nb")
        ≡ sanitize (λ c. not (code c == 10)) "a\nb")
sanitize_safe_example = sanitize_safe (λ c. not (code c == 10)) "a\nb" refl

read_int_lem_example :
    IsReading true (read_int machine "/hw/pwm1" true)
    × ((read_int machine "/hw/pwm1" true).0 ≡ some (pos 64)
        → machine.number "/hw/pwm1" ≡ parsed (pos 64))
    × (machine.number "/hw/pwm1" ≡ parsed (pos 64)
        → 64 ≤ 1_000_000_000
        → (true && false) ≡ false
        → read_int machine "/hw/pwm1" true ≡ (some (pos 64), none))
read_int_lem_example = read_int_lem machine "/hw/pwm1" true (pos 64)

fan_status_iff_example :
    (fan_status {F = Millis} (some (pos 0)) none none false true (some (some 25000)) ≡ stopped)
    ↔ IsStatus {F = Millis} stopped (some (pos 0)) none none false true (some (some 25000))
fan_status_iff_example =
    fan_status_iff stopped (some (pos 0)) none none false true (some (some 25000))

fan_indices_lem_example :
    let names : List String = "fan10_input" ∷ "fan2_label" ∷ "pwm1" ∷ [] in
    IsSorted (fan_indices (some names))
    × ((i : String) → IsIn i (fan_indices (some names)) ↔ HasIndex i names)
fan_indices_lem_example = fan_indices_lem ("fan10_input" ∷ "fan2_label" ∷ "pwm1" ∷ [])

indices_run :
    fan_indices (some ("fan10_input" ∷ "fan2_label" ∷ "fan2_input" ∷ "fan_input" ∷ []))
    ≡ "2" ∷ "10" ∷ []
unfolding fan_indices fan_index
indices_run = refl

abbrev seen : Snapshot Millis
seen = collect machine "" (some 0) none none

seen_silent : seen.alerts ≡ []
unfolding collect collect_fans collect_temperatures collect_controllers fan_indices fan_index
    read_int read_text sanitize fan_status fan_at
seen_silent = refl

collect_silent_example :
    (seen.controllers ≢ [])
    × (any (is_io_fan machine) seen.fans ≡ true)
    × All (λ fan. is_alerted machine fan ≡ false) seen.fans
collect_silent_example = collect_silent machine "" (some 0) none none seen_silent

collect_fans_lem_example :
    let fans =
      map (fan_at {F = Millis} machine "/hw" "nct") (fan_indices (machine.children "/hw")) in
    (collect_fans machine "/hw" "nct" seen
      ≡ record seen { fans = seen.fans ++ fans; alerts = seen.alerts ++ fan_alerts machine fans })
    × All (IsSound machine "nct") fans
collect_fans_lem_example = collect_fans_lem machine "/hw" "nct" seen

collect_temperatures_lem_example :
    let ps = machine.glob "/hot" "temp*_input" in
    (collect_temperatures machine "/hot" "nct" seen ≡ record seen {
      temperatures = seen.temperatures ++ map (temperature_at {F = Millis} machine "/hot" "nct") ps;
      alerts = seen.alerts ++ temperature_alerts machine "/hot" "nct" ps;
    })
    × ((p : String)
        → let value = value_of machine p in
          let critical = critical_of machine "/hot" (prefix_of machine p) in
          let maximum = maximum_of machine "/hot" (prefix_of machine p) in
          IsHeat (heat value critical maximum) value critical maximum
          × (alert_at machine "/hot" "nct" p
              ≡ heat_alert machine "nct"
                  (label_of machine "/hot" (prefix_of machine p))
                  (heat value critical maximum)))
collect_temperatures_lem_example = collect_temperatures_lem machine "/hot" "nct" seen

hot_alerts :
    temperature_alerts machine "/hot" "nct" ("temp1_input" ∷ [])
    ≡ "nct / temp1: at or above critical temperature" ∷ []
unfolding alert_at read_int read_text prefix_of heat heat_alert
hot_alerts = refl
