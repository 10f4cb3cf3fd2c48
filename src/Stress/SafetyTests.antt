-- ===== src/Stress/SafetyTests.antt =====
-- Runs and witnesses for stress.py, on floats that count thousandths.
use thelio_fans.Prelude.{
  ℕ, ◌*◌, pos, ltb, ◌||◌, String, true, false, ◌≡◌, ◌↔◌, inl, refl, none, some, List, [], ◌∷◌, map,
  ◌==◌, if◌then◌else◌, ◌≢◌, arith, length,
}
use thelio_fans.Float.Millis.{millis_float, Millis, Millis-IsOrdered}
use thelio_fans.Snapshot.{Snapshot, Temperature}
use thelio_fans.Stress.Sampling.{Sample, FanSample, Limits, sample_from}
use thelio_fans.Stress.Guard.{guard, cpu_hot}
use thelio_fans.Stress.Safety.{
  IsSafe, IsCause, guard-none_iff, guard-IsCause, guard-sample_from_packages,
}
use thelio_fans.Stress.Summary.{responded, summarise, chunks, fan_summary, FanSummary, PhaseSummary}
use thelio_fans.Stress.Phases.{joined, IsGrouped, chunks-IsGrouped}
use thelio_fans.Stress.Verdicts.{IsVerdict, fan_summary-IsVerdict}
use thelio_fans.Stress.Totality.{summarise_total}
use thelio_fans.Stress.Exec.{
  Env, Run, sample, start, stop, release, failure, print, print_live, ok, out_of_fuel, opened,
  interrupt,
}
use thelio_fans.Stress.Looping.{Args, checked}
use thelio_fans.Stress.Running.{supervised, clean_up}
use thelio_fans.Stress.Phased.{Idle}
use thelio_fans.Stress.Quiet.{IsFresh, body, supervised-Idle, supervised-IsGuarded}
use thelio_fans.Stress.Control.{IsGuarded, IsExcused, has_timed_out}
use thelio_fans.Stress.Progress.{Advances, supervised-ne-out_of_fuel}

abbrev deg : ℕ → Millis
deg n = some (n * 1000)

abbrev intake : ℕ → ℕ → FanSample Millis
intake rpm duty = record { label = "INTAKE FAN"; rpm = some (pos rpm); duty = some (deg duty) }

abbrev at : ℕ → String → ℕ → FanSample Millis → Sample Millis
at time phase cpu fan = record {
  time = some (time * 1000);
  phase = phase;
  cpu_c = some (deg cpu);
  gpu_c = some (deg 50);
  gpu_w = none;
  throttle_events = some (pos 2);
  intake_duty = none;
  fans = ("intake", fan) ∷ [];
}

abbrev limits : Limits Millis
limits = record { max_cpu_c = deg 90; max_gpu_c = deg 85 }

abbrev cool : Sample Millis
cool = at 0 "cpu" 60 (intake 600 25)

abbrev hot : Sample Millis
hot = at 1 "cpu" 91 (intake 900 60)

hot_stops : guard hot limits (some (pos 2)) ≡ some (cpu_hot (deg 91) (deg 90))
unfolding guard
hot_stops = refl

cool_runs : guard cool limits (some (pos 2)) ≡ none
unfolding guard
cool_runs = refl

guard-none_iff_example :
    (guard cool limits (some (pos 2)) ≡ none) ↔ IsSafe cool limits (some (pos 2))
guard-none_iff_example = guard-none_iff cool limits (some (pos 2))

guard-IsCause_example : IsCause (cpu_hot (deg 91) (deg 90)) hot limits (some (pos 2))
guard-IsCause_example =
    guard-IsCause hot limits (some (pos 2)) (cpu_hot (deg 91) (deg 90)) hot_stops

abbrev package_at : ℕ → Temperature Millis
package_at n = record {
  chip = "coretemp";
  label = "Package id 0";
  celsius = some (deg n);
  critical = none;
  maximum = none;
  error = none;
  key = "coretemp:Package id 0";
}

abbrev machine : ℕ → Snapshot Millis
machine n = record {
  timestamp = deg 0;
  machine = "Thelio";
  fans = [];
  temperatures = package_at n ∷ [];
  controllers = [];
  alerts = [];
  throttle = none;
  gpu = none;
  controller = none;
}

machine_runs : guard (sample_from (machine 60) "cpu" none) limits none ≡ none
unfolding guard sample_from
machine_runs = refl

guard-sample_from_packages_example : ltb 90000 60000 ≡ false
guard-sample_from_packages_example =
    guard-sample_from_packages Millis-IsOrdered (machine 60) "cpu" none limits none (package_at 60)
      (deg 60) machine_runs (inl refl) refl refl refl refl

abbrev phases : List (Sample Millis)
phases =
    at 0 "idle" 40 (intake 600 25)
    ∷ at 1 "cpu" 60 (intake 600 25)
    ∷ at 2 "cpu" 70 (intake 900 40)
    ∷ []

abbrev cpu_phase : List (Sample Millis)
cpu_phase = at 1 "cpu" 60 (intake 600 25) ∷ at 2 "cpu" 70 (intake 900 40) ∷ []

abbrev cpu_summary : FanSummary Millis
cpu_summary = record {
  label = "INTAKE FAN";
  rpm_start = some (pos 600);
  rpm_peak = some (pos 900);
  duty_start = some (deg 25);
  duty_peak = some (deg 40);
  responded_after_s = some (deg 1);
  verdict = responded;
}

cpu_responds : fan_summary cpu_phase "intake" ≡ some cpu_summary
unfolding fan_summary
cpu_responds = refl

fan_summary-IsVerdict_example : IsVerdict responded "intake" (deg 1) cpu_phase (some (deg 1))
fan_summary-IsVerdict_example =
    fan_summary-IsVerdict "intake" (at 1 "cpu" 60 (intake 600 25))
      (at 2 "cpu" 70 (intake 900 40) ∷ []) cpu_summary cpu_responds

chunks-IsGrouped_here : (joined (chunks 3 phases) ≡ phases) × IsGrouped (chunks 3 phases)
chunks-IsGrouped_here = chunks-IsGrouped 3 phases (omega arith)

summarise_total_example :
    let groups = chunks 3 phases in
    (out : List (PhaseSummary Millis)) × (summarise phases ≡ some out)
    × (map (λ p. p.phase) out ≡ map (λ g. g.0) groups)
    × (joined groups ≡ phases)
    × IsGrouped groups
summarise_total_example = summarise_total phases

-- A second passes with each call, and an interrupt comes at the tenth.
abbrev calm_env : Env Millis
calm_env = record {
  snapshot_at = λ n. machine 60;
  clock_at = λ n. some (n * 1000);
  gpu_at = λ n. opened "OpenCL";
  failure_at = λ n l. none;
  raises_at = λ n. if n == 9 then some interrupt else none;
  took_effect_at = λ n. true;
  alive_at = λ n. true;
}

abbrev args : Args Millis
args = record {
  seconds = deg 5;
  phases = "idle" ∷ "cpu" ∷ [];
  max_cpu_c = deg 90;
  max_gpu_c = none;
  workers = pos 16;
  json = false;
}

abbrev begin : Run Millis
begin = record {
  step = 0;
  trace = [];
  cpu_on = false;
  gpu_on = false;
  gpu_late = false;
  gpu_left = false;
  gpu_open = false;
  session_open = true;
  samples = [];
  aborted = none;
  active = [];
  holds_gpu = false;
  gpu_desc = none;
  gpu_missing = none;
}

begin-IsFresh : IsFresh limits none calm_env begin
begin-IsFresh = ground arith

calm_clean_up : (clean_up calm_env (body limits none calm_env 6 args begin).1).0 ≡ ok tt
unfolding supervised sample checked guard sample_from start failure print_live print stop
calm_clean_up = refl

supervised-Idle_example :
    let t = (supervised calm_env 6 args limits none begin).1 in
    Idle limits none calm_env t × IsExcused (t.gpu_late || t.gpu_left) t.trace
supervised-Idle_example =
    supervised-Idle limits none calm_env 6 args begin begin-IsFresh calm_clean_up

supervised-IsGuarded_example :
    IsGuarded limits none (supervised calm_env 6 args limits none begin).1.trace
supervised-IsGuarded_example = supervised-IsGuarded limits none calm_env 6 args begin begin-IsFresh

calm-Advances : Advances calm_env 5 args.seconds
calm-Advances k j h = ground arith

supervised-ne-out_of_fuel_example : (supervised calm_env 6 args limits none begin).0 ≢ out_of_fuel
supervised-ne-out_of_fuel_example =
    supervised-ne-out_of_fuel calm_env limits none 5 args 6 calm-Advances (omega arith) begin

-- The interrupt comes while the CPU load is on; the run ends with the load off.
interrupted_run :
    let s = (supervised calm_env 60 (record args { phases = "cpu" ∷ [] }) limits none begin).1 in
    (s.cpu_on ≡ false) × (s.step ≡ 11) × (length s.samples ≡ 1)
unfolding supervised sample checked guard sample_from start failure print_live print stop
interrupted_run = (refl, refl, refl)

-- The thread of a GPU load outlives the `join` of its `stop`, and that of the release.
abbrev released : Run Millis
released = (release calm_env (record begin { gpu_on = true; gpu_open = true })).1

outlives_join :
    (released.gpu_on ≡ false)
    × (released.gpu_late ≡ true)
    × (released.gpu_open ≡ false)
    × (has_timed_out released.trace ≡ true)
unfolding release
outlives_join = (refl, refl, refl, refl)
