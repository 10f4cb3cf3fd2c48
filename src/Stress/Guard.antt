-- ===== src/Stress/Guard.antt =====
-- stress.py: `guard`, the reason to stop the load.
use thelio_fans.Prelude.{
  ℤ, ltb_ℤ, String, str_eq, concat, Bool, not, ◌||◌, Option, none, some, [], ◌∷◌, if◌then◌else◌,
}
use thelio_fans.Float.{Float}
use thelio_fans.Stress.Sampling.{Sample, Limits}

-- The reasons that `guard` returns.
pub data Reason (F : Type 0) : Type 0 where
  cpu_unreadable : Reason F
  cpu_hot : F → F → Reason F
  gpu_unreadable : Reason F
  gpu_hot : F → F → Reason F
  counter_unreadable : Reason F
  throttling : Reason F

-- `phase in ("gpu", "both")`
abbrev pub uses_gpu : String → Bool
uses_gpu phase = str_eq phase "gpu" || str_eq phase "both"

-- `phase in ("cpu", "both")`
abbrev pub uses_cpu : String → Bool
uses_cpu phase = str_eq phase "cpu" || str_eq phase "both"

module _ {F : Type 0} ⦃f : Float F⦄ where
  -- The text of a reason.
  unfoldable pub text : Reason F → String
  text cpu_unreadable = "CPU temperature unreadable"
  text (cpu_hot c limit) =
      concat ("CPU package " ∷ f.show 1 c ∷ " °C reached the " ∷ f.show 0 limit ∷ " °C limit" ∷ [])
  text gpu_unreadable = "GPU temperature unreadable while the GPU is loaded"
  text (gpu_hot c limit) =
      concat ("GPU " ∷ f.show 0 c ∷ " °C reached the " ∷ f.show 0 limit ∷ " °C limit" ∷ [])
  text counter_unreadable = "CPU throttle counter unreadable"
  text throttling = "CPU started thermal throttling"

  guard_counter : Option ℤ → Option ℤ → Option (Reason F)
  guard_counter events none = none
  guard_counter none (some baseline) = some counter_unreadable
  guard_counter (some n) (some baseline) = if ltb_ℤ baseline n then some throttling else none

  guard_gpu : Bool → Option F → F → Option (Reason F) → Option (Reason F)
  guard_gpu loaded none limit rest = if loaded then some gpu_unreadable else rest
  guard_gpu loaded (some c) limit rest =
      if not (f.is_finite c)
      then if loaded then some gpu_unreadable else rest
      else if f.le limit c
      then some (gpu_hot c limit)
      else rest

  guard_cpu : Option F → F → Option (Reason F) → Option (Reason F)
  guard_cpu none limit rest = some cpu_unreadable
  guard_cpu (some c) limit rest =
      if not (f.is_finite c)
      then some cpu_unreadable
      else if f.le limit c
      then some (cpu_hot c limit)
      else rest

  unfoldable pub guard : Sample F → Limits F → Option ℤ → Option (Reason F)
  unfolding guard_counter guard_gpu guard_cpu
  guard sample limits throttle_baseline = guard_cpu sample.cpu_c limits.max_cpu_c (
      guard_gpu (uses_gpu sample.phase) sample.gpu_c limits.max_gpu_c
        (guard_counter sample.throttle_events throttle_baseline))
