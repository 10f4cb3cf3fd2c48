-- ===== src/Dashboard/DashboardTests.antt =====
-- Runs and witnesses for dashboard.py.
use thelio_fans.Prelude.{
  ℕ, ◌+◌, ◌-◌, pos, true, false, ◌≡◌, ◌↔◌, refl, Option, none, some, is_some, List, [], ◌∷◌, ◌++◌,
  replicate, lookup, arith,
}
use Prim.Native.Nat.{min}
use thelio_fans.Float.Millis.{millis_float, Millis}
use thelio_fans.Snapshot.{Snapshot, Fan, stopped, is_stopped}
use thelio_fans.Probe.Reading.{idle_stop_chip}
use thelio_fans.Dashboard.Histories.{History, Histories, record_all}
use thelio_fans.Dashboard.Alerts.{stalled, zero_rpm, alerts_for, stalled_iff}
use thelio_fans.Dashboard.Histories.{throttle_key}
use thelio_fans.Dashboard.Alerts.{history_of}
use thelio_fans.Dashboard.Colors.{
  green, throttling_now, status_line, EndsInChange, throttling_now_iff,
}
use thelio_fans.Dashboard.View.{
  Key, quit, down, up, page_down, page_up, home, end_key, pause, refresh, pressed, offset_after,
  pressed_lem,
}

abbrev fan : Fan Millis
fan = record {
  key = "it87:fan1";
  chip = "it87";
  channel = "fan1";
  label = some "INTAKE";
  name = "INTAKE";
  rpm = some (pos 0);
  duty = some (some 40_000);
  status = stopped;
  error = none;
  note = none;
  path = "/sys";
}

abbrev snapshot : Snapshot Millis
snapshot = record {
  timestamp = some 0;
  machine = "thelio";
  fans = fan ∷ [];
  temperatures = [];
  controllers = [];
  alerts = [];
  throttle = none;
  gpu = none;
  controller = none;
}

abbrev before : Histories
before = ("it87:fan1", some (pos 900) ∷ replicate 7 zero_rpm) ∷ ("gone", some (pos 1) ∷ []) ∷ []

stale_is_dropped :
    record_all before snapshot
    ≡ ("it87:fan1", some (pos 900) ∷ replicate 8 zero_rpm)
      ∷ ("it87:fan1:duty", some (pos 40) ∷ [])
      ∷ []
unfolding record_all
stale_is_dropped = refl

stall_is_told :
    alerts_for snapshot (record_all before snapshot)
    ≡ "INTAKE on it87: STALLED — commanded number% but not turning" ∷ []
unfolding record_all alerts_for lookup
stall_is_told = refl

stalled_iff_example : (stalled fan (some (pos 900) ∷ replicate 8 zero_rpm) ≡ true) ↔ (
    (is_stopped fan.status ≡ true)
    × (idle_stop_chip fan.chip ≡ false)
    × ((older : History) × (some (pos 900) ∷ replicate 8 zero_rpm ≡ older ++ replicate 8 zero_rpm)))
stalled_iff_example = stalled_iff fan (some (pos 900) ∷ replicate 8 zero_rpm)

abbrev lines : List ℕ
lines = 0 ∷ 1 ∷ 2 ∷ 3 ∷ 4 ∷ []

abbrev after : Key → Option ℕ
after k =
    offset_after {F = Millis} (pressed k 2 (record { paused = true; offset = pos 1; due = some 0 }))
      5 2

pressed_lem_example :
    (after quit ≡ none)
    × (after down ≡ some (min (1 + 1) (5 - 2)))
    × (after up ≡ some (1 - 1))
    × (after page_down ≡ some (min (1 + 2) (5 - 2)))
    × (after page_up ≡ some (1 - 2))
    × (after home ≡ some 0)
    × (after end_key ≡ some (5 - 2))
    × (after pause ≡ some 1)
    × (after refresh ≡ some 1)
pressed_lem_example = pressed_lem {F = Millis} 1 5 2 true (some 0) (omega arith) (omega arith)

abbrev throttled : Snapshot Millis
throttled = record snapshot {
  throttle = some (record {
    package_events = pos 3;
    core_events = pos 3;
    total_ms = pos 40;
    longest_ms = pos 20;
    cur_khz = none;
    max_khz = none;
  });
}

abbrev counted : Histories
counted = ("throttle", some (pos 2) ∷ some (pos 3) ∷ []) ∷ []

throttling_now_iff_example :
    (throttling_now throttled counted ≡ true)
    ↔ ((is_some throttled.throttle ≡ true) × EndsInChange (history_of throttle_key counted))
throttling_now_iff_example = throttling_now_iff throttled counted

a_quiet_line : status_line snapshot false [] ≡ ("  ● no alerts · Io absent", green)
unfolding status_line
a_quiet_line = refl
