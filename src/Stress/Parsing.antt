-- ===== src/Stress/Parsing.antt =====
-- stress.py: the constants of the command line and `parse_args`. What argparse read is given: the
-- value of each option, or none where it was left out.
use Prim.Native.Char.{Char}
use thelio_fans.Prelude.{
  ℕ, ℤ, pos, ltb_ℤ, String, str_eq, concat, join, Bool, true, not, ◌&&◌, Option, none, some,
  default, List, [], ◌∷◌, map, filter, any, if◌then◌else◌,
}
use thelio_fans.Float.{Float, whole}
use thelio_fans.Text.{sanitize}
use thelio_fans.Format.{cut}
use thelio_fans.Stress.Looping.{Args}
use thelio_fans.Stress.Words.{phases_of}

-- The names of `PHASES`, in its order.
abbrev pub phase_names : List String
phase_names = "idle" ∷ "cpu" ∷ "gpu" ∷ "both" ∷ "recovery" ∷ []

abbrev pub default_seconds : ℕ
default_seconds = 60

abbrev pub max_seconds : ℕ
max_seconds = 1800

pub record Given (F : Type 0) : Type 0 where
  pub seconds : Option F
  pub phases : Option String
  pub max_cpu_c : Option F
  pub max_gpu_c : Option F
  pub workers : Option ℤ
  pub json : Bool

-- The namespace, with the defaults.
pub record Options (F : Type 0) : Type 0 where
  pub seconds : F
  pub phases : String
  pub max_cpu_c : F
  pub max_gpu_c : Option F
  pub workers : Option ℤ
  pub json : Bool

-- `parser.error(message)`, or the arguments
pub data Parsed (F : Type 0) : Type 0 where
  usage : String → Parsed F
  parsed : Args F → Parsed F

abbrev pub is_known : String → Bool
is_known p = any (str_eq p) phase_names

module _ {F : Type 0} ⦃f : Float F⦄ where
  -- `parser.parse_args(argv)`, where `cpu_count` is `os.cpu_count()`
  unfoldable pub with_defaults : Option ℤ → Given F → Options F
  with_defaults cpu_count g = record {
    seconds = default (whole default_seconds) g.seconds;
    phases = default (join "," phase_names) g.phases;
    max_cpu_c = default (f.decimal 900 1) g.max_cpu_c;
    max_gpu_c = g.max_gpu_c;
    workers = elim g.workers [ none ↦ cpu_count | some n ↦ some n ];
    json = g.json;
  }

  -- The test on `--seconds`, less its `not`.
  abbrev pub good_seconds : F → Bool
  good_seconds s = f.is_finite s && (f.le (whole 1) s && f.le s (whole max_seconds))

  -- The test on a limit.
  abbrev pub good_limit : Option F → Bool
  good_limit none = true
  good_limit (some c) = f.is_finite c && (f.le (f.decimal 400 1) c && f.le c (f.decimal 1100 1))

-- The phases that are not known, as the error shows them.
unfoldable pub unknown_phases : (Char → Bool) → List String → List String
unknown_phases is_printable ps =
    map (λ p. cut 20 (sanitize is_printable p)) (filter (λ p. not (is_known p)) ps)

-- `unknown or ["none given"]`, where there is no phase or an unknown one
abbrev pub phase_trouble : List String → List String → Option (List String)
phase_trouble (u ∷ us) ps = some (u ∷ us)
phase_trouble [] [] = some ("none given" ∷ [])
phase_trouble [] (p ∷ ps) = none

module _ {F : Type 0} ⦃f : Float F⦄ (is_space is_printable : Char → Bool) where
  -- The last test, and the namespace.
  abbrev pub with_workers : Options F → List String → Option ℤ → Parsed F
  with_workers o phases none = usage "--workers must be at least 1"
  with_workers o phases (some n) =
      if ltb_ℤ n (pos 1)
      then usage "--workers must be at least 1"
      else parsed (record {
        seconds = o.seconds;
        phases = phases;
        max_cpu_c = o.max_cpu_c;
        max_gpu_c = o.max_gpu_c;
        workers = n;
        json = o.json;
      })

  abbrev pub with_phases : Options F → List String → Option (List String) → Parsed F
  with_phases o phases (some names) = usage (concat ("unknown phase(s): " ∷ join ", " names ∷ []))
  with_phases o phases none = with_workers o phases o.workers

  -- The tests of `parse_args`, in their order.
  unfoldable pub validated : Options F → Parsed F
  unfolding phases_of unknown_phases
  validated o =
      let phases = phases_of is_space o.phases in
      if not (good_seconds o.seconds)
      then usage "--seconds must be between 1 and 1800"
      else if not (good_limit (some o.max_cpu_c))
      then usage "--max-cpu-c must be between 40.0 and 110.0"
      else if not (good_limit o.max_gpu_c)
      then usage "--max-gpu-c must be between 40.0 and 110.0"
      else with_phases o phases (phase_trouble (unknown_phases is_printable phases) phases)

  -- `parse_args`
  unfoldable pub parse_args : Option ℤ → Given F → Parsed F
  unfolding with_defaults validated
  parse_args cpu_count g = validated (with_defaults cpu_count g)
