-- ===== src/Stress/Sampling.antt =====
-- stress.py: `FanSample`, `Sample`, `Limits`, and the reduction of a snapshot to a sample.
use thelio_fans.Prelude.{
  ℤ, lookup, dict, String, str_eq, concat, Bool, true, false, not, ◌||◌, Option, none, some, List,
  [], ◌∷◌, map, filter, default, if◌then◌else◌,
}
use mathlib.Core.Bool.{beq}
use text.Mathlib.Text.{starts_with}
use thelio_fans.Float.{Float, max?}
use thelio_fans.Snapshot.{Snapshot, Fan, Temperature, Value, is_empty}

pub record FanSample (F : Type 0) : Type 0 where
  pub label : String
  pub rpm : Option ℤ
  pub duty : Option F

pub record Sample (F : Type 0) : Type 0 where
  pub time : F
  pub phase : String
  pub cpu_c : Option F
  pub gpu_c : Option F
  pub gpu_w : Option F
  pub throttle_events : Option ℤ
  pub intake_duty : Option F
  pub fans : List (String × FanSample F)

pub record Limits (F : Type 0) : Type 0 where
  pub max_cpu_c : F
  pub max_gpu_c : F

module _ {F : Type 0} ⦃f : Float F⦄ where
  -- A reading of one temperature that counts, in the loop of `_package_c`.
  usable : Temperature F → Option F → Option F
  usable t none = none
  usable t (some c) = if not (str_eq t.chip "coretemp") || not (f.is_finite c) then none else some c

  -- The loop of `_package_c`, for the packages or for the cores.
  unfoldable pub readings : Bool → List (Temperature F) → List F
  unfolding usable
  readings packages [] = []
  readings packages (t ∷ ts) =
      let rest = readings packages ts in
      elim (usable t t.celsius) [
        | none ↦ rest
        | some c ↦ if beq (starts_with t.label "Package") packages then c ∷ rest else rest
      ]

  -- The choice at the end of `_package_c`: the cores count only when there is no package.
  unfoldable pub hottest : List F → List F → Option F
  unfolding max?
  hottest [] cores = max? f.lt cores
  hottest (p ∷ ps) cores = max? f.lt (p ∷ ps)

  -- `_package_c`
  unfoldable pub package_c : Snapshot F → Option F
  unfolding readings hottest
  package_c snapshot =
      hottest (readings true snapshot.temperatures) (readings false snapshot.temperatures)

  -- `_number`
  unfoldable pub number : Value F → Option F
  number (Value.int n) = elim (f.float_of n) [
    | none ↦ none
    | some x ↦ if f.is_finite x then some x else none
  ]
  number (Value.float x) = if f.is_finite x then some x else none
  number _ = none

  abbrev of_int? : Option ℤ → Value F
  of_int? none = Value.null
  of_int? (some n) = Value.int n

  abbrev of_value? : Option (Value F) → Value F
  of_value? none = Value.null
  of_value? (some v) = v

  -- `_fan_label`
  unfoldable pub fan_label : Fan F → String
  fan_label fan =
      if str_eq fan.name fan.channel then concat (fan.chip ∷ " " ∷ fan.channel ∷ []) else fan.name

  -- The dictionary of `sample_from`.
  unfoldable pub sampled_fans : List (Fan F) → List (String × FanSample F)
  unfolding fan_label dict
  sampled_fans fans = dict (
      map (λ fan. (fan.key, record { label = fan_label fan; rpm = fan.rpm; duty = fan.duty }))
        (filter (λ fan. not (is_empty fan.status)) fans))

  unfoldable pub sample_from : Snapshot F → String → Option F → Sample F
  unfolding package_c number sampled_fans
  sample_from snapshot phase now = record {
    time = default snapshot.timestamp now;
    phase = phase;
    cpu_c = package_c snapshot;
    gpu_c = number (elim snapshot.gpu [ none ↦ Value.null | some gpu ↦ of_int? gpu.temp_c ]);
    gpu_w = elim snapshot.gpu [ none ↦ none | some gpu ↦ gpu.power_w ];
    throttle_events = elim snapshot.throttle [ none ↦ none | some t ↦ some t.package_events ];
    intake_duty = elim snapshot.controller [
      | none ↦ none
      | some state ↦ number (of_value? (lookup "duty_pct" state))
    ];
    fans = sampled_fans snapshot.fans;
  }
