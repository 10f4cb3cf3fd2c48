-- ===== src/Log/LogTests.antt =====
-- Runs and witnesses for cli.py.
use thelio_fans.Prelude.{
  ℕ, ◌<◌, pos, negsuc, suc, lookup, ◌-ℤ◌, ◌/◌, ◌*◌, String, ◌≡◌, ◌↔◌, refl, none, some, [], ◌∷◌,
  arith,
}
use native.Mathlib.Nat.{div-lt_iff_lt-mul}
use thelio_fans.Show.{str_ℤ}
use thelio_fans.Float.Millis.{Millis, millis_float}
use thelio_fans.Snapshot.{Snapshot, Fan, rotating, stopped, Status}
use thelio_fans.Log.{log_state, log_line, observe, run_log}
use thelio_fans.Log.Drift.{IsStill, IsSteady, observe_settled, log_line-none_iff}

abbrev fan : Status → ℕ → Fan Millis
fan status rpm = record {
  key = "it87:fan1";
  chip = "it87";
  channel = "fan1";
  label = some "INTAKE";
  name = "INTAKE";
  rpm = some (pos rpm);
  duty = none;
  status = status;
  error = none;
  note = none;
  path = "/sys";
}

abbrev seen : Status → ℕ → Snapshot Millis
seen status rpm = record {
  timestamp = some 0;
  machine = "thelio";
  fans = fan status rpm ∷ [];
  temperatures = [];
  controllers = [];
  alerts = [];
  throttle = none;
  gpu = none;
  controller = none;
}

abbrev clock : Millis → String
clock t = "12:00:00"

-- 1000 to 1049 rpm is within the jitter; 1051 is not, and is compared with the last line's 1000.
drift_is_logged :
    (run_log clock none
      (seen rotating 1000 ∷ seen rotating 1030 ∷ seen rotating 1051 ∷ seen stopped 1051 ∷ [])).0
    ≡ "12:00:00 IO ABSENT  INTAKE=1000" ∷ "12:00:00 IO ABSENT  INTAKE=1051"
      ∷ "12:00:00 IO ABSENT  INTAKE=1051(STOPPED)" ∷ []
unfolding run_log lookup str_ℤ ◌-ℤ◌
drift_is_logged = refl

millis-IsStill : IsStill millis_float
millis-IsStill (pos ℕ.zero) h = refl
millis-IsStill (pos (suc n)) h =
    let small : 0 / (suc n * 1000) < 1 =
      (div-lt_iff_lt-mul {k = suc n * 1000} {x = 0} {y = 1} (omega arith)).1 (omega arith) in
    let zero_div : 0 / (suc n * 1000) ≡ 0 = omega (arith, small) in rw zero_div refl
millis-IsStill (negsuc n) h = refl

observe_settled_example :
    log_line clock
      (observe clock (some (seen rotating 1000)) (seen rotating 1030)).1
      (seen rotating 1030)
    ≡ none
observe_settled_example =
    observe_settled Millis millis-IsStill clock (some (seen rotating 1000)) (seen rotating 1030)

log_line-none_iff_example :
    (log_line clock (some (seen rotating 1000)) (seen rotating 1030) ≡ none)
    ↔ IsSteady Millis (log_state (seen rotating 1000)) (log_state (seen rotating 1030))
log_line-none_iff_example = log_line-none_iff Millis clock (seen rotating 1000) (seen rotating 1030)
