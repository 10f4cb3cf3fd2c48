-- ===== src/Stress/Validity.antt =====
-- stress.py, `parse_args`: what it accepts, and how an accepted command line is written.
use Prim.Native.Char.{Char}
use thelio_fans.Prelude.{
  ℤ, pos, ltb_ℤ, leb_ℤ, leb_ℤ_of_not_ltb, String, str_eq, str_eq_iff, join, Bool, true, false, not,
  ◌≡◌, ◌≢◌, refl, sym, inl, inr, Option, none, some, List, [], ◌∷◌, any, All, All-impl, Bool-cases,
  Option-cases, if_elim, arith,
}
use mathlib.Core.Path.{subst}
use mathlib.Core.Bool.{false≢true}
use mathlib.Core.Option.{none-ne-some}
use thelio_fans.Float.{Float}
use thelio_fans.Text.{chars}
use thelio_fans.Stress.Looping.{Args}
use thelio_fans.Stress.Words.{phases_of, phases_of-join, IsLetter, IsWord}
use thelio_fans.Stress.Parsing.{
  phase_names, Given, Options, Parsed, usage, parsed, is_known, good_seconds, good_limit,
  unknown_phases, phase_trouble, with_workers, with_phases, with_defaults, validated, parse_args,
}

all_known :
    (is_printable : Char → Bool) (ps : List String)
    → unknown_phases is_printable ps ≡ []
    → All (λ p. is_known p ≡ true) ps
unfolding unknown_phases
all_known is_printable [] e = tt
all_known is_printable (p ∷ ps) e = elim (Bool-cases (is_known p)) [
  | inl k ↦ (k, all_known is_printable ps (ground (arith, e, k)))
  | inr k ↦ absurd (ground (arith, e, k))
]

none_unknown :
    (is_printable : Char → Bool) (ps : List String)
    → All (λ p. is_known p ≡ true) ps
    → unknown_phases is_printable ps ≡ []
unfolding unknown_phases
none_unknown is_printable [] h = refl
none_unknown is_printable (p ∷ ps) (k, h) = rw (k, none_unknown is_printable ps h) refl

any-All :
    (P : String → Type 0) (p : String) (names : List String)
    → any (str_eq p) names ≡ true
    → All P names
    → P p
any-All P p [] k h = absurd (false≢true k)
any-All P p (n ∷ names) k h = elim (Bool-cases (str_eq p n)) [
  | inl e ↦ subst P (sym ((str_eq_iff p n).0 e)) h.0
  | inr e ↦ any-All P p names (ground (arith, k, e)) h.1
]

names-IsWord : All (λ n. IsWord (chars n)) phase_names
names-IsWord = ground arith

known-IsWord : (p : String) → is_known p ≡ true → IsWord (chars p)
known-IsWord p k = any-All (λ n. IsWord (chars n)) p phase_names k names-IsWord

module _ {F : Type 0} ⦃f : Float F⦄ where
  -- Each phase takes from 1 to 1800 seconds, the limits lie from 40 to 110 degrees, there is a
  -- phase, all of them are known, and there is a worker.
  abbrev pub IsValid : Args F → Type 0
  IsValid args =
      (good_seconds args.seconds ≡ true)
      × (good_limit (some args.max_cpu_c) ≡ true)
      × (good_limit args.max_gpu_c ≡ true)
      × (args.phases ≢ [])
      × (All (λ p. is_known p ≡ true) args.phases)
      × (leb_ℤ (pos 1) args.workers ≡ true)

  abbrev IsSound : Parsed F → Type 0
  IsSound (usage message) = Unit
  IsSound (parsed args) = IsValid args

trouble_none :
    (unknown ps : List String) → phase_trouble unknown ps ≡ none → (unknown ≡ []) × (ps ≢ [])
trouble_none [] [] e = absurd (none-ne-some _ (sym e))
trouble_none [] (p ∷ ps) e = (refl, λ n. cc)
trouble_none (u ∷ us) ps e = absurd (none-ne-some _ (sym e))

no_trouble : (ps : List String) → ps ≢ [] → phase_trouble [] ps ≡ none
no_trouble [] h = absurd (h refl)
no_trouble (p ∷ ps) h = refl

enough : (n : ℤ) → leb_ℤ (pos 1) n ≡ true → ltb_ℤ n (pos 1) ≡ false
enough n h = ground (arith, h)

module _ {F : Type 0} ⦃f : Float F⦄ (is_space is_printable : Char → Bool) where
  -- The namespace of an accepted command line.
  abbrev args_of : Options F → List String → ℤ → Args F
  args_of o phases n = record {
    seconds = o.seconds;
    phases = phases;
    max_cpu_c = o.max_cpu_c;
    max_gpu_c = o.max_gpu_c;
    workers = n;
    json = o.json;
  }

  workers-IsSound :
      (o : Options F) (phases : List String) (workers : Option ℤ)
      → ((n : ℤ) → leb_ℤ (pos 1) n ≡ true → IsValid (args_of o phases n))
      → IsSound (with_workers is_space is_printable o phases workers)
  workers-IsSound o phases none h = tt
  workers-IsSound o phases (some n) h =
      if_elim IsSound (ltb_ℤ n (pos 1)) _ _ (λ _. tt) (λ e. h n (leb_ℤ_of_not_ltb n (pos 1) e))

  phases-IsSound :
      (o : Options F)
      → good_seconds o.seconds ≡ true
      → good_limit (some o.max_cpu_c) ≡ true
      → good_limit o.max_gpu_c ≡ true
      → let phases = phases_of is_space o.phases in
        IsSound (
          with_phases is_space is_printable o phases
            (phase_trouble (unknown_phases is_printable phases) phases))
  phases-IsSound o s c g =
      let phases = phases_of is_space o.phases in
      let unknown = unknown_phases is_printable phases in
      elim (Option-cases (phase_trouble unknown phases)) [
        | inl e ↦
            let (all, some_phase) = trouble_none unknown phases e in
            rw e (
              workers-IsSound o phases o.workers
                (λ n w. (s, c, g, some_phase, all_known is_printable phases all, w)))
        | inr (names, e) ↦ rw e tt
      ]

  validated-IsSound : (o : Options F) → IsSound (validated is_space is_printable o)
  unfolding validated
  validated-IsSound o =
      if_elim IsSound (not (good_seconds o.seconds)) _ _ (λ _. tt)
        (λ s.
          if_elim IsSound (not (good_limit (some o.max_cpu_c))) _ _ (λ _. tt)
            (λ c.
              if_elim IsSound (not (good_limit o.max_gpu_c)) _ _ (λ _. tt)
                (λ g.
                  phases-IsSound o (ground (arith, s)) (ground (arith, c)) (ground (arith, g)))))

  -- Whatever is given and whatever number of CPUs the system reports, the arguments that
  -- `parse_args` accepts are within their bounds: from 1 to 1800 seconds a phase, limits from 40 to
  -- 110 degrees, at least one phase and only known ones, and at least one worker.
  pub parse_args-IsValid :
      (cpu_count : Option ℤ) (given : Given F) (args : Args F)
      → parse_args is_space is_printable cpu_count given ≡ parsed args
      → IsValid args
  unfolding parse_args
  parse_args-IsValid cpu_count given args e =
      subst IsSound e (validated-IsSound (with_defaults cpu_count given))

  -- Every argument written out, with the phases between commas.
  abbrev pub written : Args F → Given F
  written args = record {
    seconds = some args.seconds;
    phases = some (join "," args.phases);
    max_cpu_c = some args.max_cpu_c;
    max_gpu_c = args.max_gpu_c;
    workers = some args.workers;
    json = args.json;
  }

  -- If no small letter counts as a space, arguments within their bounds, written out with the
  -- phases between commas, are read back as they were.
  pub parse_args-written :
      ((c : Char) → IsLetter c → is_space c ≡ false)
      → (cpu_count : Option ℤ) (args : Args F) → IsValid args
      → parse_args is_space is_printable cpu_count (written args) ≡ parsed args
  unfolding parse_args validated with_defaults
  parse_args-written visible cpu_count args (s, c, g, some_phase, known, w) =
      let read : phases_of is_space (join "," args.phases) ≡ args.phases =
        phases_of-join is_space visible args.phases (
          All-impl (λ p. is_known p ≡ true) (λ p. IsWord (chars p)) args.phases known-IsWord
            known) in
      rw
        (
          read,
          s,
          c,
          g,
          none_unknown is_printable args.phases known,
          no_trouble args.phases some_phase,
          enough args.workers w,
        )
        refl
