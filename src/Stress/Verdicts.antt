-- ===== src/Stress/Verdicts.antt =====
-- stress.py, `_fan_summary`: what a verdict says, and that `summarise` raises no IndexError.
use mathlib.Core.Path.{subst}
use mathlib.Core.Option.{some-injective}
use thelio_fans.Prelude.{
  lookup, ℤ, ltb_ℤ, String, Bool, true, false, not, ◌&&◌, ◌≡◌, ◌⊎◌, inl, inr, refl, Option, none,
  some, is_some, List, [], ◌∷◌, map, head?, All, arith, Bool-cases, Option-cases,
}
use thelio_fans.Float.{Float}
use thelio_fans.Stress.Sampling.{Sample, FanSample}
use thelio_fans.Stress.Summary.{
  FanVerdict, responded, flat, stopped, unknown, FanSummary, first, peak, rose, responded_at,
  verdict, stalled, fan_readings, fan_summary,
}

peak-none :
    {A : Type 0} (lt : A → A → Bool) (xs : List (Option A))
    → peak lt xs ≡ none
    → All (λ x. x ≡ none) xs
unfolding peak
peak-none lt [] h = tt
peak-none lt (none ∷ xs) h = (refl, peak-none lt xs h)
peak-none lt (some x ∷ xs) h = cc

All-map-none :
    {A B : Type 0} (g : A → Option B) (xs : List A)
    → All (λ x. x ≡ none) (map g xs)
    → All (λ x. g x ≡ none) xs
All-map-none g [] h = tt
All-map-none g (x ∷ xs) h = (h.0, All-map-none g xs h.1)

is_some-false : {A : Type 0} (o : Option A) → is_some o ≡ false → o ≡ none
is_some-false none h = refl
is_some-false (some a) h = cc

both_none :
    {A B : Type 0} (a : Option A) (b : Option B)
    → (not (is_some a) && not (is_some b)) ≡ true
    → (a ≡ none) × (b ≡ none)
both_none a b h = ground arith

module _ {F : Type 0} ⦃f : Float F⦄ where
  -- The fan of the key rose in the sample.
  abbrev rose_in : String → Option ℤ → Option F → Sample F → Bool
  rose_in key rpm_start duty_start s = elim (lookup key s.fans) [
    | none ↦ false
    | some r ↦ rose rpm_start duty_start r
  ]

  -- The time is that of the first sample in which the fan rose.
  abbrev IsFirstRise : String → Option ℤ → Option F → F → List (Sample F) → Type 0
  IsFirstRise key rpm duty time [] = ⊥
  IsFirstRise key rpm duty time (s ∷ samples) =
      ((rose_in key rpm duty s ≡ true) × (time ≡ s.time))
      ⊎ ((rose_in key rpm duty s ≡ false) × IsFirstRise key rpm duty time samples)

  responded_at-some :
      (key : String) (rpm : Option ℤ) (duty : Option F) (samples : List (Sample F)) (time : F)
      → responded_at key rpm duty samples ≡ some time
      → IsFirstRise key rpm duty time samples
  unfolding responded_at
  responded_at-some key rpm duty [] time h = cc
  responded_at-some key rpm duty (s ∷ samples) time h =
      ground (arith, responded_at-some key rpm duty samples time)

  responded_at-none :
      (key : String) (rpm : Option ℤ) (duty : Option F) (samples : List (Sample F))
      → responded_at key rpm duty samples ≡ none
      → All (λ s. rose_in key rpm duty s ≡ false) samples
  unfolding responded_at
  responded_at-none key rpm duty [] h = tt
  responded_at-none key rpm duty (s ∷ samples) h =
      ground (arith, responded_at-none key rpm duty samples)

  -- The readings of the fan, its first RPM and its first duty.
  abbrev start_rpm : String → List (Sample F) → Option ℤ
  start_rpm key samples = first (map (λ r. r.rpm) (fan_readings key samples))

  abbrev start_duty : String → List (Sample F) → Option F
  start_duty key samples = first (map (λ r. r.duty) (fan_readings key samples))

  -- What a verdict says of the readings of the fan in the samples, the first of which was taken at
  -- `start`, and of the time that the summary gives.
  abbrev pub IsVerdict : FanVerdict → String → F → List (Sample F) → Option F → Type 0
  IsVerdict unknown key start samples after =
      All (λ r. r.rpm ≡ none) (fan_readings key samples)
      × All (λ r. r.duty ≡ none) (fan_readings key samples)
  IsVerdict stopped key start samples after = stalled (fan_readings key samples) ≡ true
  IsVerdict responded key start samples after =
      (time : F) × IsFirstRise key (start_rpm key samples) (start_duty key samples) time samples
      × (after ≡ some (f.sub time start))
      × (stalled (fan_readings key samples) ≡ false)
  IsVerdict flat key start samples after =
      All (λ s. rose_in key (start_rpm key samples) (start_duty key samples) s ≡ false) samples
      × (after ≡ none)
      × (stalled (fan_readings key samples) ≡ false)

  abbrev unread : List (FanSample F) → Bool
  unread readings =
      not (is_some (peak ltb_ℤ (map (λ r. r.rpm) readings)))
      && not (is_some (peak f.lt (map (λ r. r.duty) readings)))

  unread_lem :
      (readings : List (FanSample F))
      → unread readings ≡ true
      → All (λ r. r.rpm ≡ none) readings × All (λ r. r.duty ≡ none) readings
  unread_lem readings h =
      let (rpm, duty) = both_none _ _ h in
      (
        All-map-none (λ r. r.rpm) readings (peak-none ltb_ℤ _ rpm),
        All-map-none (λ r. r.duty) readings (peak-none f.lt _ duty),
      )

  verdict_lem :
      (key : String) (s : Sample F) (samples : List (Sample F))
      → let all_samples = s ∷ samples in
        let readings = fan_readings key all_samples in
        let at =
          responded_at key (start_rpm key all_samples) (start_duty key all_samples) all_samples in
        IsVerdict
          (verdict (unread readings) (stalled readings) (is_some at))
          key
          s.time
          all_samples
          (elim at [ none ↦ none | some time ↦ some (f.sub time s.time) ])
  unfolding verdict
  verdict_lem key s samples =
      let all_samples = s ∷ samples in
      let readings = fan_readings key all_samples in
      let rpm = start_rpm key all_samples in
      let duty = start_duty key all_samples in
      elim (Bool-cases (unread readings)) [
        | inl u ↦ rw u (unread_lem readings u)
        | inr u ↦ elim (Bool-cases (stalled readings)) [
          | inl st ↦ rw (u, st) st
          | inr st ↦ elim (Option-cases (responded_at key rpm duty all_samples)) [
            | inl e ↦ rw (u, st, e) (responded_at-none key rpm duty all_samples e, refl, st)
            | inr (t, e) ↦
                rw (u, st, e) (t, responded_at-some key rpm duty all_samples t e, refl, st)
          ]
        ]
      ]

  -- The verdict of the summary of a fan: UNKNOWN says that no reading has an RPM or a duty, STOPPED
  -- that its last readings are a stall, RESPONDED that it is no stall and that the given delay is
  -- from the first sample to the first one in which the fan rose, and FLAT that it is no stall and
  -- that the fan rose in no sample.
  pub fan_summary-IsVerdict :
      (key : String) (s : Sample F) (samples : List (Sample F)) (out : FanSummary F)
      → fan_summary (s ∷ samples) key ≡ some out
      → IsVerdict out.verdict key s.time (s ∷ samples) out.responded_after_s
  unfolding fan_summary
  fan_summary-IsVerdict key s samples out h =
      elim (Option-cases (head? (fan_readings key (s ∷ samples)))) [
        | inl e ↦ cc (rw (e, fan_summary) at h)
        | inr (r, e) ↦
            subst (λ o. IsVerdict o.verdict key s.time (s ∷ samples) o.responded_after_s)
              (some-injective _ _ (rw (e, fan_summary) at h)) (verdict_lem key s samples)
      ]
