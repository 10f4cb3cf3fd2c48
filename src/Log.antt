-- ===== src/Log.antt =====
-- src/fanwatch/cli.py: `log_line`, `LogTracker` and `_run_log`. How `time.strftime` writes a
-- timestamp is a parameter.
use thelio_fans.Prelude.{
  ℕ, ℤ, pos, eq_ℤ, magnitude, ◌-ℤ◌, String, str_eq, concat, join, Bool, true, false, not, ◌||◌,
  ◌&&◌, Option, none, some, is_some, default, List, [], ◌∷◌, ◌++◌, map, filter, all, any, lookup,
  dict, if◌then◌else◌,
}
use thelio_fans.Float.{Float, whole}
use thelio_fans.Show.{str_ℤ}
use thelio_fans.Snapshot.{
  Status, rotating, idle, stopped, empty, unknown, fault, alarm, Snapshot, Fan, Controller, Gpu,
  Throttle, is_empty, is_rotating,
}
pub mod Drift
mod LogTests

abbrev rpm_jitter : ℕ
rpm_jitter = 5

-- The text of a status.
abbrev pub status_text : Status → String
status_text rotating = "ROTATING"
status_text idle = "IDLE"
status_text stopped = "STOPPED"
status_text empty = "EMPTY"
status_text unknown = "UNKNOWN"
status_text fault = "FAULT"
status_text alarm = "ALARM"

-- `x or y`, where the empty text is false
abbrev or_text : String → String → String
or_text x y = if str_eq x "" then y else x

abbrev or_text? : Option String → String → String
or_text? none y = y
or_text? (some x) y = or_text x y

abbrev text? : (ℤ → String) → Option ℤ → String → String
text? show none missing = missing
text? show (some n) missing = show n

-- What is compared of a fan: its status and its RPM.
abbrev pub FanState : Type 0
FanState = String × Option ℤ

abbrev pub LogState : Type 0
LogState = String × List (String × FanState)

unfoldable pub io_text : List Controller → String
io_text [] = "IO ABSENT"
io_text (usb ∷ rest) =
    let drivers =
      or_text (join "," (map (λ i. or_text? i.1 "unbound") usb.interfaces)) "no-interfaces" in
    concat
      ("IO " ∷ usb.port ∷ " devnum=" ∷ text? str_ℤ usb.devnum "None" ∷ " driver=" ∷ drivers ∷ [])

unfoldable pub throttle_text : Option Throttle → String
throttle_text none = ""
throttle_text (some t) = concat ("  throttle=" ∷ str_ℤ t.package_events ∷ [])

module _ {F : Type 0} where
  unfoldable pub reasons_text : Option (Gpu F) → String
  reasons_text none = ""
  reasons_text (some gpu) =
      let state : String = elim gpu.reasons [
        | none ↦ "unknown"
        | some rs ↦ or_text (join "," rs) "none"
      ] in
      concat ("  gpu_throttle=" ∷ state ∷ [])

  -- A header that is empty and has no label is not logged.
  abbrev is_logged : Fan F → Bool
  is_logged fan = not (is_empty fan.status) || is_some fan.label

  abbrev pub fan_states : List (Fan F) → List (String × FanState)
  fan_states fans =
      map (λ fan. (fan.key, (status_text fan.status, fan.rpm))) (filter is_logged fans)

  -- `_log_state`
  unfoldable pub log_state : Snapshot F → LogState
  unfolding io_text throttle_text reasons_text dict
  log_state snapshot = (
    concat (
        io_text snapshot.controllers
        ∷ throttle_text snapshot.throttle
        ∷ reasons_text snapshot.gpu
        ∷ []),
    dict (fan_states snapshot.fans),
  )

module _ {F : Type 0} ⦃f : Float F⦄ where
  -- `abs(after - before) / before * 100`
  unfoldable pub percent : ℤ → ℤ → F
  percent before after =
      f.mul (f.div (f.of_int (pos (magnitude (after -ℤ before)))) (f.of_int before)) (whole 100)

-- `fans.keys() == prev_fans.keys()`
abbrev same_keys : List (String × FanState) → List (String × FanState) → Bool
same_keys m n = all (λ e. is_some (lookup e.0 n)) m && all (λ e. is_some (lookup e.0 m)) n

module _ (F : Type 0) ⦃f : Float F⦄ where
  -- `_rpm_changed`
  unfoldable pub rpm_changed : Option ℤ → Option ℤ → Bool
  unfolding percent
  rpm_changed none none = false
  rpm_changed none (some after) = true
  rpm_changed (some before) none = true
  rpm_changed (some before) (some after) =
      if eq_ℤ before (pos 0) || eq_ℤ after (pos 0)
      then not (eq_ℤ before after)
      else f.le (whole rpm_jitter) (percent before after)

  -- The test of one fan, against `prev_fans.get(key, ("", None))`.
  unfoldable pub moved : FanState → FanState → Bool
  unfolding rpm_changed
  moved before after = not (str_eq after.0 before.0) || rpm_changed before.1 after.1

  unfoldable pub changed : LogState → LogState → Bool
  unfolding moved
  changed before after =
      not (str_eq after.0 before.0)
      || not (same_keys after.1 before.1)
      || any (λ e. moved (default ("", none) (lookup e.0 before.1)) e.1) after.1

module _ {F : Type 0} ⦃f : Float F⦄ where
  abbrev gpu_part : Option (Gpu F) → List String
  gpu_part none = []
  gpu_part (some gpu) =
      let temp = text? (λ n. concat (str_ℤ n ∷ "C" ∷ [])) gpu.temp_c "?" in
      let power : String = elim gpu.power_w [
        | none ↦ "?"
        | some w ↦ concat (f.show 0 w ∷ "W" ∷ [])
      ] in
      concat ("gpu=" ∷ temp ∷ "/" ∷ power ∷ []) ∷ []

  abbrev fan_part : Fan F → String
  fan_part fan = concat (
      or_text? fan.label fan.channel
      ∷ "="
      ∷ text? str_ℤ fan.rpm "?"
      ∷ (if is_rotating fan.status then "" else concat ("(" ∷ status_text fan.status ∷ ")" ∷ []))
      ∷ [])

  -- The line of a snapshot.
  unfoldable pub described : (F → String) → Snapshot F → String
  unfolding log_state
  described stamp current =
      let (io_state, fans) = log_state current in
      let shown = filter (λ fan. is_some (lookup fan.key fans)) current.fans in
      concat (
        stamp current.timestamp
        ∷ " "
        ∷ join "  " (io_state ∷ gpu_part current.gpu ++ map fan_part shown)
        ∷ [])

  -- `log_line`
  unfoldable pub log_line : (F → String) → Option (Snapshot F) → Snapshot F → Option String
  unfolding described changed log_state
  log_line stamp none current = some (described stamp current)
  log_line stamp (some previous) current =
      if changed F (log_state previous) (log_state current)
      then some (described stamp current)
      else none

  -- `LogTracker.observe`: the line, and the new baseline.
  unfoldable pub observe :
      (F → String) → Option (Snapshot F) → Snapshot F → Option String × Option (Snapshot F)
  unfolding log_line
  observe stamp baseline current =
      let line = log_line stamp baseline current in
      (line, if is_some line then some current else baseline)

  -- The loop of `_run_log` over the snapshots that come before the interrupt: the lines printed,
  -- and the baseline.
  unfoldable pub run_log :
      (F → String) → Option (Snapshot F) → List (Snapshot F) → List String × Option (Snapshot F)
  unfolding observe
  run_log stamp baseline [] = ([], baseline)
  run_log stamp baseline (current ∷ rest) =
      let (line, next) = observe stamp baseline current in
      let (lines, final) = run_log stamp next rest in
      (
        elim line [ none ↦ lines | some text ↦ if str_eq text "" then lines else text ∷ lines ],
        final,
      )
