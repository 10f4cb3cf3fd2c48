-- ===== src/Stress/Safety.antt =====
-- stress.py, `guard`: when the load may run on, and what each reason to stop means.
use thelio_fans.Prelude.{
  ℤ, ltb_ℤ, String, Bool, true, false, ◌≡◌, ◌↔◌, ◌⊎◌, inl, inr, refl, Option, none, some, List, [],
  ◌∷◌, All, All-IsIn, IsIn, arith, str_eq, is_some,
}
use mathlib.Core.Path.{subst}
use text.Mathlib.Text.{starts_with}
use thelio_fans.Float.{Float, max?}
use thelio_fans.Float.Order.{IsOrdered, max?_lem}
use thelio_fans.Snapshot.{Snapshot, Temperature}
use thelio_fans.Stress.Sampling.{Sample, Limits, readings, hottest, package_c, sample_from}
use thelio_fans.Stress.Guard.{
  Reason, cpu_unreadable, cpu_hot, gpu_unreadable, gpu_hot, counter_unreadable, throttling,
  uses_gpu, guard,
}

-- The counter has not moved, or is not guarded.
abbrev HasNotMoved : Option ℤ → Option ℤ → Type 0
HasNotMoved none events = Unit
HasNotMoved (some baseline) none = ⊥
HasNotMoved (some baseline) (some n) = ltb_ℤ baseline n ≡ false

-- The counter is above its baseline.
abbrev HasRisen : Option ℤ → Option ℤ → Type 0
HasRisen (some baseline) (some n) = ltb_ℤ baseline n ≡ true
HasRisen _ _ = ⊥

module _ {F : Type 0} ⦃f : Float F⦄ where
  -- A finite reading below the limit.
  abbrev IsBelow : F → Option F → Type 0
  IsBelow limit none = ⊥
  IsBelow limit (some c) = (f.is_finite c ≡ true) × (f.le limit c ≡ false)

  -- A reading that is missing or not finite.
  abbrev IsUnreadable : Option F → Type 0
  IsUnreadable none = Unit
  IsUnreadable (some c) = f.is_finite c ≡ false

  -- A finite reading at the limit or above it.
  abbrev IsHot : F → F → Option F → Type 0
  IsHot limit c reading = (reading ≡ some c) × (f.is_finite c ≡ true) × (f.le limit c ≡ true)

  pub record IsSafe (s : Sample F) (limits : Limits F) (baseline : Option ℤ) : Type 0 where
    pub cpu_below : IsBelow limits.max_cpu_c s.cpu_c
    pub gpu_below :
        IsBelow limits.max_gpu_c s.gpu_c ⊎ (IsUnreadable s.gpu_c × (uses_gpu s.phase ≡ false))
    pub not_moved : HasNotMoved baseline s.throttle_events

  -- What a reason claims of the sample.
  abbrev pub IsCause : Reason F → Sample F → Limits F → Option ℤ → Type 0
  IsCause cpu_unreadable s limits baseline = IsUnreadable s.cpu_c
  IsCause (cpu_hot c limit) s limits baseline = (limit ≡ limits.max_cpu_c) × IsHot limit c s.cpu_c
  IsCause gpu_unreadable s limits baseline = (uses_gpu s.phase ≡ true) × IsUnreadable s.gpu_c
  IsCause (gpu_hot c limit) s limits baseline = (limit ≡ limits.max_gpu_c) × IsHot limit c s.gpu_c
  IsCause counter_unreadable s limits baseline =
      (is_some baseline ≡ true) × (s.throttle_events ≡ none)
  IsCause throttling s limits baseline = HasRisen baseline s.throttle_events

  guard-IsSafe :
      (s : Sample F) (limits : Limits F) (baseline : Option ℤ)
      → guard s limits baseline ≡ none
      → IsSafe s limits baseline
  unfolding guard
  guard-IsSafe s limits baseline h = ground arith

  safe_guard :
      (s : Sample F) (limits : Limits F) (baseline : Option ℤ)
      → IsSafe s limits baseline
      → guard s limits baseline ≡ none
  unfolding guard
  safe_guard s limits baseline h = ground arith

  -- `guard` lets the load run on exactly when the CPU reading is finite and below its limit, the
  -- GPU reading is finite and below its limit or is unreadable in a phase that does not load the
  -- GPU, and a throttle counter that had a baseline is readable and has not risen above it.
  pub guard-none_iff :
      (s : Sample F) (limits : Limits F) (baseline : Option ℤ)
      → (guard s limits baseline ≡ none) ↔ IsSafe s limits baseline
  guard-none_iff s limits baseline = (guard-IsSafe s limits baseline, safe_guard s limits baseline)

  -- Each reason that `guard` returns is true of the sample: what it calls unreadable is missing or
  -- not finite, what it calls hot is a finite reading at its limit or above, and it speaks of
  -- throttling only when the counter has risen above the baseline.
  pub guard-IsCause :
      (s : Sample F) (limits : Limits F) (baseline : Option ℤ) (r : Reason F)
      → guard s limits baseline ≡ some r
      → IsCause r s limits baseline
  unfolding guard
  guard-IsCause s limits baseline r h = ground arith

  readings-finite :
      (packages : Bool) (ts : List (Temperature F))
      → All (λ c. f.is_finite c ≡ true) (readings packages ts)
  unfolding readings
  readings-finite packages [] = tt
  readings-finite packages (t ∷ ts) = ground (arith, readings-finite packages ts)

  readings-IsIn :
      (packages : Bool) (t : Temperature F) (c : F) (ts : List (Temperature F))
      → IsIn t ts
      → str_eq t.chip "coretemp" ≡ true
      → starts_with t.label "Package" ≡ packages
      → t.celsius ≡ some c
      → f.is_finite c ≡ true
      → IsIn c (readings packages ts)
  unfolding readings
  readings-IsIn packages t c (u ∷ ts) (inl e) hc hl hv hf =
      subst (λ v. IsIn c (readings packages (v ∷ ts))) e (ground arith)
  readings-IsIn packages t c (u ∷ ts) (inr i) hc hl hv hf =
      ground (arith, readings-IsIn packages t c ts i hc hl hv hf)
  readings-IsIn packages t c [] i hc hl hv hf = absurd i

  hottest-IsUpperBound :
      (laws : IsOrdered f) (c : F) (packages cores : List F)
      → All (λ x. f.is_finite x ≡ true) packages
      → IsIn c packages
      → (top : F) × (hottest packages cores ≡ some top) × (f.le c top ≡ true)
  unfolding hottest max?
  hottest-IsUpperBound laws c [] cores h i = absurd i
  hottest-IsUpperBound laws c (p ∷ ps) cores h i =
      let (bounds, _) = max?_lem f laws (p ∷ ps) h refl in
      (_, refl, All-IsIn (λ x. f.le x _ ≡ true) (p ∷ ps) bounds i)

  -- The CPU reading of a sample is at least every finite reading of a "Package" sensor of coretemp.
  hottest_package :
      (laws : IsOrdered f) (snapshot : Snapshot F) (t : Temperature F) (c : F)
      → IsIn t snapshot.temperatures
      → str_eq t.chip "coretemp" ≡ true
      → starts_with t.label "Package" ≡ true
      → t.celsius ≡ some c
      → f.is_finite c ≡ true
      → (top : F) × (package_c snapshot ≡ some top) × (f.le c top ≡ true)
  unfolding package_c
  hottest_package laws snapshot t c i hc hl hv hf =
      hottest-IsUpperBound laws c (readings true snapshot.temperatures)
        (readings false snapshot.temperatures) (readings-finite true snapshot.temperatures)
        (readings-IsIn true t c snapshot.temperatures i hc hl hv hf)

  -- If `guard` lets the load run on at the sample of a snapshot, then every finite reading of a
  -- "Package" sensor of coretemp in that snapshot is below the CPU limit. The order of finite
  -- floats is assumed.
  pub guard-sample_from_packages :
      (laws : IsOrdered f) (snapshot : Snapshot F) (phase : String) (now : Option F)
      (limits : Limits F) (baseline : Option ℤ) (t : Temperature F) (c : F)
      → guard (sample_from snapshot phase now) limits baseline ≡ none
      → IsIn t snapshot.temperatures
      → str_eq t.chip "coretemp" ≡ true
      → starts_with t.label "Package" ≡ true
      → t.celsius ≡ some c
      → f.is_finite c ≡ true
      → f.le limits.max_cpu_c c ≡ false
  unfolding sample_from
  guard-sample_from_packages laws snapshot phase now limits baseline t c g i hc hl hv hf =
      let (top, e, up) = hottest_package laws snapshot t c i hc hl hv hf in
      let safe = (guard-IsSafe (sample_from snapshot phase now) limits baseline g).cpu_below in
      ground (arith, e, rw e at safe, laws.le_trans limits.max_cpu_c c top)
