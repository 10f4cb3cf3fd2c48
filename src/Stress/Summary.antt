-- ===== src/Stress/Summary.antt =====
-- stress.py: `FanVerdict`, `FanSummary`, `PhaseSummary`, `_first`, `_last`, `_peak`, `_fan_summary`,
-- `_stalled` and `summarise`.
use mathlib.Core.List.{reverse}
use thelio_fans.Prelude.{
  lookup, ℕ, zero, suc, ℤ, pos, ltb_ℤ, eq_ℤ, String, str_eq, Bool, true, false, not, ◌&&◌, ◌||◌,
  Option, none, some, List, [], ◌∷◌, ◌++◌, map, any, all, head?, last?, present, take_last, length,
  is_some, if◌then◌else◌,
}
use thelio_fans.Float.{Float, max?, whole}
use thelio_fans.Stress.Sampling.{FanSample, Sample}

pub data FanVerdict : Type 0 where
  responded flat stopped unknown : FanVerdict

pub record FanSummary (F : Type 0) : Type 0 where
  pub label : String
  pub rpm_start : Option ℤ
  pub rpm_peak : Option ℤ
  pub duty_start : Option F
  pub duty_peak : Option F
  pub responded_after_s : Option F
  pub verdict : FanVerdict

pub record PhaseSummary (F : Type 0) : Type 0 where
  pub phase : String
  pub seconds : F
  pub cpu_start_c : Option F
  pub cpu_peak_c : Option F
  pub cpu_end_c : Option F
  pub gpu_start_c : Option F
  pub gpu_peak_c : Option F
  pub gpu_end_c : Option F
  pub gpu_peak_w : Option F
  pub fans : List (String × FanSummary F)

abbrev pub stall_samples : ℕ
stall_samples = 3

module _ {A : Type 0} where
  -- `_first`
  unfoldable pub first : List (Option A) → Option A
  first values = head? (present values)

  -- `_last`
  unfoldable pub last : List (Option A) → Option A
  unfolding first
  last values = first (reverse values)

  -- `_peak`, by the order of the values
  unfoldable pub peak : (A → A → Bool) → List (Option A) → Option A
  unfolding max?
  peak lt values = max? lt (present values)

-- `keys.extend(k for k in s.fans if k not in keys)`
module _ {V : Type 0} where
  unfoldable pub extend : List String → List (String × V) → List String
  extend keys [] = keys
  extend keys ((k, _) ∷ fans) =
      extend (if any (λ j. str_eq k j) keys then keys else keys ++ (k ∷ [])) fans

unfoldable pub verdict : Bool → Bool → Bool → FanVerdict
verdict unread stalled' answered =
    if unread then unknown else if stalled' then stopped else if answered then responded else flat

module _ (F : Type 0) ⦃f : Float F⦄ where
  -- `1 + RPM_RISE`
  abbrev rpm_factor : F
  rpm_factor = f.add (whole 1) (f.decimal 10 2)

  unfoldable pub rose_rpm : Option ℤ → Option ℤ → Bool
  rose_rpm (some start) (some rpm) =
      f.le (f.add (f.mul (f.of_int start) rpm_factor) (whole 1)) (f.of_int rpm)
  rose_rpm _ _ = false

module _ {F : Type 0} ⦃f : Float F⦄ where
  -- `DUTY_RISE`
  abbrev duty_rise : F
  duty_rise = f.decimal 20 1

  -- `r.rpm == 0 and r.duty is not None and r.duty > 0`
  unfoldable pub is_stalled : FanSample F → Bool
  is_stalled r =
      elim r.rpm [ none ↦ false | some rpm ↦ eq_ℤ rpm (pos 0) ]
      && elim r.duty [ none ↦ false | some duty ↦ f.lt (whole 0) duty ]

  -- `_stalled`
  unfoldable pub stalled : List (FanSample F) → Bool
  unfolding is_stalled
  stalled readings =
      let tail = take_last stall_samples readings in
      elim tail [ [] ↦ false | _ ∷ _ ↦ true ] && all is_stalled tail

  unfoldable pub rose_duty : Option F → Option F → Bool
  rose_duty (some start) (some duty) = f.le (f.add start duty_rise) duty
  rose_duty _ _ = false

  -- The test of the loop of `_fan_summary`.
  unfoldable pub rose : Option ℤ → Option F → FanSample F → Bool
  unfolding rose_rpm rose_duty
  rose rpm_start duty_start r = rose_rpm F rpm_start r.rpm || rose_duty duty_start r.duty

  -- The loop of `_fan_summary`: the time of the first sample in which the fan rose.
  unfoldable pub responded_at : String → Option ℤ → Option F → List (Sample F) → Option F
  unfolding rose lookup
  responded_at key rpm_start duty_start [] = none
  responded_at key rpm_start duty_start (s ∷ samples) =
      let rest = responded_at key rpm_start duty_start samples in
      elim (lookup key s.fans) [
        | none ↦ rest
        | some r ↦ if rose rpm_start duty_start r then some s.time else rest
      ]

  -- `[s.fans[key] for s in samples if key in s.fans]`
  unfoldable pub fan_readings : String → List (Sample F) → List (FanSample F)
  unfolding lookup
  fan_readings key samples = present (map (λ s. lookup key s.fans) samples)

  -- `_fan_summary`; `none` is the IndexError of `readings[0]`
  unfoldable pub fan_summary : List (Sample F) → String → Option (FanSummary F)
  unfolding fan_readings verdict stalled first peak responded_at
  fan_summary [] key = none
  fan_summary (s ∷ samples) key =
      let readings = fan_readings key (s ∷ samples) in
      let rpms = map (λ r. r.rpm) readings in
      let duties = map (λ r. r.duty) readings in
      let at = responded_at key (first rpms) (first duties) (s ∷ samples) in
      let unread = not (is_some (peak ltb_ℤ rpms)) && not (is_some (peak f.lt duties)) in
      elim (head? readings) [
        | none ↦ none
        | some r ↦ some (record {
          label = r.label;
          rpm_start = first rpms;
          rpm_peak = peak ltb_ℤ rpms;
          duty_start = first duties;
          duty_peak = peak f.lt duties;
          responded_after_s = elim at [ none ↦ none | some time ↦ some (f.sub time s.time) ];
          verdict = verdict unread (stalled readings) (is_some at);
        })
      ]

  -- `{k: _fan_summary(chunk, k) for k in keys}`, the keys being distinct
  unfoldable pub fan_summaries :
      List (Sample F) → List String → Option (List (String × FanSummary F))
  unfolding fan_summary
  fan_summaries chunk [] = some []
  fan_summaries chunk (k ∷ keys) =
      let rest = fan_summaries chunk keys in
      elim (fan_summary chunk k) [
        | none ↦ none
        | some summary ↦ elim rest [ none ↦ none | some out ↦ some ((k, summary) ∷ out) ]
      ]

  -- The keys of a chunk, in the order of their first appearance.
  unfoldable pub chunk_keys : List String → List (Sample F) → List String
  unfolding extend
  chunk_keys keys [] = keys
  chunk_keys keys (s ∷ chunk) = chunk_keys (extend keys s.fans) chunk

  -- `len(chunk) if len(chunk) < 2 else chunk[-1].time - chunk[0].time + 1`
  unfoldable pub phase_seconds : List (Sample F) → F
  phase_seconds [] = whole 0
  phase_seconds (s ∷ []) = whole 1
  phase_seconds (s ∷ t ∷ rest) = elim (last? (t ∷ rest)) [
    | none ↦ whole 1
    | some end ↦ f.add (f.sub end.time s.time) (whole 1)
  ]

  -- The record that `summarise` builds for a chunk.
  unfoldable pub phase_record :
      String → List (Sample F) → List (String × FanSummary F) → PhaseSummary F
  unfolding phase_seconds first last peak
  phase_record phase chunk fans =
      let cpus = map (λ s. s.cpu_c) chunk in
      let gpus = map (λ s. s.gpu_c) chunk in
      record {
        phase = phase;
        seconds = phase_seconds chunk;
        cpu_start_c = first cpus;
        cpu_peak_c = peak f.lt cpus;
        cpu_end_c = last cpus;
        gpu_start_c = first gpus;
        gpu_peak_c = peak f.lt gpus;
        gpu_end_c = last gpus;
        gpu_peak_w = peak f.lt (map (λ s. s.gpu_w) chunk);
        fans = fans;
      }

  unfoldable pub phase_summary : String → List (Sample F) → Option (PhaseSummary F)
  unfolding fan_summaries chunk_keys phase_record
  phase_summary phase chunk = elim (fan_summaries chunk (chunk_keys [] chunk)) [
    | none ↦ none
    | some fans ↦ some (phase_record phase chunk fans)
  ]

  -- The inner loop of `summarise`: the samples from `i` on that are of the phase, and the others.
  unfoldable pub split_phase : String → List (Sample F) → List (Sample F) × List (Sample F)
  split_phase phase [] = ([], [])
  split_phase phase (s ∷ samples) =
      let (chunk, rest) = split_phase phase samples in
      if str_eq s.phase phase then (s ∷ chunk, rest) else ([], s ∷ samples)

  -- The outer loop of `summarise`, with fuel: the phase and the chunk of each round.
  unfoldable pub chunks : ℕ → List (Sample F) → List (String × List (Sample F))
  unfolding split_phase
  chunks zero samples = []
  chunks (suc fuel) [] = []
  chunks (suc fuel) (s ∷ samples) =
      let (chunk, rest) = split_phase s.phase (s ∷ samples) in (s.phase, chunk) ∷ chunks fuel rest

  unfoldable pub summarise_chunks : List (String × List (Sample F)) → Option (List (PhaseSummary F))
  unfolding phase_summary
  summarise_chunks [] = some []
  summarise_chunks ((phase, chunk) ∷ rest) =
      let out = summarise_chunks rest in
      elim (phase_summary phase chunk) [
        | none ↦ none
        | some p ↦ elim out [ none ↦ none | some ps ↦ some (p ∷ ps) ]
      ]

  -- `summarise`: a round takes at least one sample, so as much fuel as samples is enough.
  unfoldable pub summarise : List (Sample F) → Option (List (PhaseSummary F))
  unfolding chunks summarise_chunks
  summarise samples = summarise_chunks (chunks (length samples) samples)
