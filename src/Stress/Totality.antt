-- ===== src/Stress/Totality.antt =====
-- stress.py, `summarise`: it raises no IndexError, and gives one summary for each run of a phase.
use thelio_fans.Prelude.{
  lookup, String, str_eq, str_eq_refl, true, ◌≡◌, ◌⊎◌, inl, inr, refl, ap, sym, Option, none, some,
  is_some, List, [], ◌∷◌, ◌++◌, map, any, head?, All, All-append, All-impl, All-of_IsIn, IsIn,
  length, arith, if◌then◌else◌, Bool-cases, Option-cases,
}
use native.Mathlib.Nat.{le_refl}
use thelio_fans.Float.{Float}
use thelio_fans.Stress.Sampling.{Sample, FanSample}
use thelio_fans.Stress.Summary.{
  PhaseSummary, fan_readings, fan_summary, fan_summaries, extend, chunk_keys, phase_record,
  phase_summary, summarise_chunks, chunks, summarise,
}
use thelio_fans.Stress.Phases.{IsGrouped, joined, chunks-IsGrouped}

none_not_some : {A : Type 0} (o : Option A) → o ≡ none → is_some o ≡ true → ⊥
none_not_some o e h = cc

module _ {F : Type 0} where
  -- Some sample of the chunk has the key.
  abbrev HasKey : List (Sample F) → String → Type 0
  HasKey [] k = ⊥
  HasKey (s ∷ chunk) k = (is_some (lookup k s.fans) ≡ true) ⊎ HasKey chunk k

module _ {F : Type 0} ⦃f : Float F⦄ where
  HasKey-head :
      (k : String) (chunk : List (Sample F))
      → HasKey chunk k
      → is_some (head? (fan_readings k chunk)) ≡ true
  unfolding fan_readings
  HasKey-head k [] h = absurd h
  HasKey-head k (s ∷ chunk) h = ground (arith, HasKey-head k chunk)

  fan_summary_total :
      (k : String) (chunk : List (Sample F)) → HasKey chunk k → is_some (fan_summary chunk k) ≡ true
  unfolding fan_summary
  fan_summary_total k [] h = absurd h
  fan_summary_total k (s ∷ chunk) h = ground (arith, HasKey-head k (s ∷ chunk) h)

  fan_summaries_total :
      (chunk : List (Sample F)) (keys : List String)
      → All (HasKey chunk) keys
      → is_some (fan_summaries chunk keys) ≡ true
  unfolding fan_summaries
  fan_summaries_total chunk [] h = refl
  fan_summaries_total chunk (k ∷ keys) h =
      ground (arith, fan_summary_total k chunk h.0, fan_summaries_total chunk keys h.1)

  -- Every key of the dictionary is a key of the chunk.
  abbrev AreKeys : List (Sample F) → List (String × FanSample F) → Type 0
  AreKeys chunk = All λ kv. HasKey chunk kv.0

  extend-HasKey :
      (chunk : List (Sample F)) (keys : List String) (fans : List (String × FanSample F))
      → All (HasKey chunk) keys
      → AreKeys chunk fans
      → All (HasKey chunk) (extend keys fans)
  unfolding extend
  extend-HasKey chunk keys [] h g = h
  extend-HasKey chunk keys ((k, v) ∷ fans) h g =
      extend-HasKey chunk (if any (λ j. str_eq k j) keys then keys else keys ++ (k ∷ [])) fans
        (elim (Bool-cases (any (λ j. str_eq k j) keys)) [
          | inl e ↦ rw e h
          | inr e ↦ rw e (All-append (HasKey chunk) keys (k ∷ []) h (g.0, tt))
        ])
        g.1

  -- The dictionary of a sample of the chunk has only keys of the chunk.
  lookup-is_some :
      (k : String) (v : FanSample F) (fans : List (String × FanSample F))
      → IsIn (k, v) fans
      → is_some (lookup k fans) ≡ true
  unfolding lookup
  lookup-is_some k v ((j, w) ∷ fans) (inl e) =
      rw (sym (ap (λ (p : String × FanSample F). p.0) e), str_eq_refl k) refl
  lookup-is_some k v ((j, w) ∷ fans) (inr i) = ground (arith, lookup-is_some k v fans i)
  lookup-is_some k v [] i = absurd i

  samples-AreKeys : (chunk : List (Sample F)) → All (λ s. AreKeys chunk s.fans) chunk
  samples-AreKeys [] = tt
  samples-AreKeys (s ∷ chunk) = (
    All-of_IsIn (λ kv. HasKey (s ∷ chunk) kv.0) s.fans
        (λ kv i. inl (lookup-is_some kv.0 kv.1 s.fans i)),
    All-impl (λ t. AreKeys chunk t.fans) (λ t. AreKeys (s ∷ chunk) t.fans) chunk
        (λ t.
          All-impl (λ kv. HasKey chunk kv.0) (λ kv. HasKey (s ∷ chunk) kv.0) t.fans (λ kv h. inr h))
        (samples-AreKeys chunk),
  )

  chunk_keys-HasKey :
      (chunk : List (Sample F)) (keys : List String) (part : List (Sample F))
      → All (HasKey chunk) keys
      → All (λ s. AreKeys chunk s.fans) part
      → All (HasKey chunk) (chunk_keys keys part)
  unfolding chunk_keys
  chunk_keys-HasKey chunk keys [] h g = h
  chunk_keys-HasKey chunk keys (s ∷ part) h g =
      chunk_keys-HasKey chunk (extend keys s.fans) part (extend-HasKey chunk keys s.fans h g.0) g.1

  phase_summary_total :
      (phase : String) (chunk : List (Sample F))
      → (p : PhaseSummary F) × (phase_summary phase chunk ≡ some p) × (p.phase ≡ phase)
  unfolding phase_summary phase_record
  phase_summary_total phase chunk =
      let keyed = chunk_keys-HasKey chunk [] chunk tt (samples-AreKeys chunk) in
      elim (Option-cases (fan_summaries chunk (chunk_keys [] chunk))) [
        | inl e ↦ absurd (none_not_some _ e (fan_summaries_total chunk _ keyed))
        | inr (fans, e) ↦ (phase_record phase chunk fans, rw (e, phase_summary) refl, refl)
      ]

  -- One summary for each chunk, of its phase.
  summarise_chunks_total :
      (groups : List (String × List (Sample F)))
      → (out : List (PhaseSummary F)) × (summarise_chunks groups ≡ some out)
        × (map (λ p. p.phase) out ≡ map (λ g. g.0) groups)
  unfolding summarise_chunks
  summarise_chunks_total [] = ([], refl, refl)
  summarise_chunks_total ((phase, chunk) ∷ rest) =
      let (p, e, same) = phase_summary_total phase chunk in
      let (out, es, phases) = summarise_chunks_total rest in
      (p ∷ out, ground (arith, e, es), cc (same, phases))

  -- `summarise` returns, with no IndexError, one summary for each chunk of consecutive samples of
  -- one phase, in their order and under that phase; the chunks are the samples, none lost, and the
  -- phase changes from each chunk to the next.
  pub summarise_total :
      (samples : List (Sample F))
      → let groups = chunks (length samples) samples in
        (out : List (PhaseSummary F)) × (summarise samples ≡ some out)
        × (map (λ p. p.phase) out ≡ map (λ g. g.0) groups)
        × (joined groups ≡ samples)
        × IsGrouped groups
  unfolding summarise
  summarise_total samples =
      let groups = chunks (length samples) samples in
      let (out, e, phases) = summarise_chunks_total groups in
      let (joins, grouped) = chunks-IsGrouped (length samples) samples (le_refl _) in
      (out, e, phases, joins, grouped)
