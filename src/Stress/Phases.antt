-- ===== src/Stress/Phases.antt =====
-- stress.py, `summarise`: the chunks of the phases.
use thelio_fans.Prelude.{
  ℕ, zero, suc, ◌≤◌, String, str_eq, str_eq_iff, str_eq_refl, ne_of_str_eq, ◌≡◌, ◌≢◌, inl, inr,
  refl, ap, sym, ◌∙◌, List, [], ◌∷◌, ◌++◌, All, length, arith, Bool-cases,
}
use thelio_fans.Float.{Float}
use thelio_fans.Stress.Sampling.{Sample}
use thelio_fans.Stress.Summary.{split_phase, chunks}

module _ {F : Type 0} where
  -- All chunks, one behind the other.
  abbrev pub joined : List (String × List (Sample F)) → List (Sample F)
  joined [] = []
  joined ((phase, chunk) ∷ rest) = chunk ++ joined rest

  -- The first phase of what follows, if there is one, is another one.
  abbrev IsOther : String → List (String × List (Sample F)) → Type 0
  IsOther phase [] = Unit
  IsOther phase ((next, _) ∷ rest) = phase ≢ next

  -- Each chunk has a sample, all its samples are of its phase, and the next chunk is of another.
  abbrev pub IsGrouped : List (String × List (Sample F)) → Type 0
  IsGrouped [] = Unit
  IsGrouped ((phase, chunk) ∷ rest) =
      (chunk ≢ []) × All (λ s. s.phase ≡ phase) chunk × IsOther phase rest × IsGrouped rest

  -- The phase of the first sample is another one.
  abbrev BeginsOther : String → List (Sample F) → Type 0
  BeginsOther phase [] = Unit
  BeginsOther phase (s ∷ samples) = phase ≢ s.phase

module _ {F : Type 0} ⦃f : Float F⦄ where
  split_phase_lem :
      (phase : String) (samples : List (Sample F))
      → let (chunk, rest) = split_phase phase samples in
        (chunk ++ rest ≡ samples)
        × All (λ s. s.phase ≡ phase) chunk
        × BeginsOther phase rest
        × (length rest ≤ length samples)
  unfolding split_phase
  split_phase_lem phase [] = (refl, tt, tt, omega arith)
  split_phase_lem phase (s ∷ samples) =
      let (joins, uniform, other, shorter) = split_phase_lem phase samples in
      elim (Bool-cases (str_eq s.phase phase)) [
        | inl e ↦
            rw e (ap (◌∷◌ s) joins, ((str_eq_iff s.phase phase).0 e, uniform), other, omega arith)
        | inr e ↦ rw e (refl, tt, λ e'. ne_of_str_eq s.phase phase e (sym e'), omega arith)
      ]

  split_phase-ne-nil :
      (s : Sample F) (samples : List (Sample F)) → (split_phase s.phase (s ∷ samples)).0 ≢ []
  unfolding split_phase
  split_phase-ne-nil s samples = rw (str_eq_refl s.phase) (λ e. cc)

  split_phase-shorter :
      (s : Sample F) (samples : List (Sample F))
      → length (split_phase s.phase (s ∷ samples)).1 ≤ length samples
  unfolding split_phase
  split_phase-shorter s samples = rw (str_eq_refl s.phase) (split_phase_lem s.phase samples).3

  IsOther-chunks :
      (phase : String) (fuel : ℕ) (samples : List (Sample F))
      → BeginsOther phase samples
      → IsOther phase (chunks fuel samples)
  unfolding chunks
  IsOther-chunks phase zero samples h = tt
  IsOther-chunks phase (suc fuel) [] h = tt
  IsOther-chunks phase (suc fuel) (s ∷ samples) h = h

  -- With as much fuel as samples, the chunks of `summarise` are the samples, in order and with none
  -- lost; each chunk has a sample, all its samples are of its phase, and it ends where the phase
  -- changes.
  pub chunks-IsGrouped :
      (fuel : ℕ) (samples : List (Sample F))
      → length samples ≤ fuel
      → (joined (chunks fuel samples) ≡ samples) × IsGrouped (chunks fuel samples)
  unfolding chunks
  chunks-IsGrouped zero [] h = (refl, tt)
  chunks-IsGrouped zero (s ∷ samples) h = absurd (omega arith)
  chunks-IsGrouped (suc fuel) [] h = (refl, tt)
  chunks-IsGrouped (suc fuel) (s ∷ samples) h =
      let (joins, uniform, other, _) = split_phase_lem s.phase (s ∷ samples) in
      let rest = (split_phase s.phase (s ∷ samples)).1 in
      let (whole, grouped) =
        chunks-IsGrouped fuel rest (omega (arith, split_phase-shorter s samples)) in
      (
        ap (λ r. (split_phase s.phase (s ∷ samples)).0 ++ r) whole ∙ joins,
        (split_phase-ne-nil s samples, uniform, IsOther-chunks s.phase fuel rest other, grouped),
      )
