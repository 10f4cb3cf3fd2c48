-- ===== src/Stress/Looping.antt =====
-- stress.py, `run`: the limits, and the sampling loop of a phase.
use thelio_fans.Prelude.{
  ℕ, zero, suc, ℤ, String, str_eq, Bool, true, false, not, Option, none, some, is_some, List, [],
  ◌∷◌, ◌++◌, if◌then◌else◌,
}
use thelio_fans.Float.{Float, whole}
use thelio_fans.Snapshot.{Snapshot, Gpu}
use thelio_fans.Stress.Sampling.{Sample, Limits}
use thelio_fans.Stress.Guard.{guard}
use thelio_fans.Stress.Exec.{
  Load, Aborted, guarded, load_failed, interrupted, slept, Env, ok, out_of_fuel, M, ◌>>=◌, ◌>>◌,
  pure, assign, monotonic, sample, start, stop, failure, print, print_live,
}

-- The parsed command line.
pub record Args (F : Type 0) : Type 0 where
  pub seconds : F
  pub phases : List String
  pub max_cpu_c : F
  pub max_gpu_c : Option F
  pub workers : ℤ
  pub json : Bool

-- A text that counts as true.
abbrev pub truthy : Option String → Bool
truthy none = false
truthy (some s) = not (str_eq s "")

-- `x or y`, on texts that may be None
abbrev pub or_else : Option String → String → Option String
or_else x y = if truthy x then x else some y

module _ {F : Type 0} where
  abbrev slowdown_of : Option (Gpu F) → Option ℤ
  slowdown_of none = none
  slowdown_of (some g) = g.slowdown_c

module _ {F : Type 0} ⦃f : Float F⦄ where
  -- The limits of `run`; the GPU's default is its slowdown threshold less 5, at least 40, or else 85.
  unfoldable pub limits_for : Args F → Snapshot F → Limits F
  limits_for args snapshot = record {
    max_cpu_c = args.max_cpu_c;
    max_gpu_c = elim args.max_gpu_c [
      | some limit ↦ limit
      | none ↦ elim (slowdown_of snapshot.gpu) [
        | none ↦ f.decimal 850 1
        | some slowdown ↦
            let lower = f.sub (f.of_int slowdown) (whole 5) in
            if f.lt (f.decimal 400 1) lower then lower else f.decimal 400 1
      ]
    ];
  }

  -- `1 if aborted and aborted != "interrupted" else 0`
  unfoldable pub exit_status : Option (Aborted F) → ℕ
  exit_status none = 0
  exit_status (some interrupted) = 0
  exit_status (some (guarded r)) = 1
  exit_status (some (load_failed s)) = if str_eq s "interrupted" then 0 else 1

  -- `max(0.0, 1.0 - elapsed)`
  abbrev pub nap : F → F
  nap elapsed =
      let left = f.sub (f.decimal 10 1) elapsed in
      if f.lt (f.decimal 0 1) left then left else f.decimal 0 1

  unfoldable pub checked : Sample F → Limits F → Option ℤ → Option (Aborted F)
  checked s limits baseline = elim (guard s limits baseline) [
    | none ↦ none
    | some r ↦ some (guarded r)
  ]

module _ {F : Type 0} ⦃f : Float F⦄ (env : Env F) where
  unfoldable pub start_all : List Load → M F (Unit {0})
  start_all [] = pure tt
  start_all (l ∷ ls) = start env l >> start_all ls

  unfoldable pub stop_all : List Load → M F (Unit {0})
  stop_all [] = pure tt
  stop_all (l ∷ ls) = stop env l >> stop_all ls

  -- `next((f for f in (load.failure() for load in active) if f), None)`
  unfoldable pub or_next : Option String → M F (Option (Aborted F)) → M F (Option (Aborted F))
  or_next none rest = rest
  or_next (some why) rest = if str_eq why "" then rest else pure (some (load_failed why))

  unfoldable pub first_failure : List Load → M F (Option (Aborted F))
  unfolding or_next
  first_failure [] = pure none
  first_failure (l ∷ ls) = do let rest = first_failure ls; why ← failure env l; or_next why rest

  -- `for load in active: load.stop()` and `active = []`
  unfoldable pub stop_active : M F (Unit {0})
  unfolding stop_all
  stop_active = do _ ← (λ s. stop_all s.active s); assign (λ s. record s { active = [] })

  unfoldable pub set_aborted : Option (Aborted F) → M F (Unit {0})
  set_aborted a = assign (λ s. record s { aborted = a })

  -- The decision of one round: the guard, and then the loads' own failures.
  unfoldable pub decide : Limits F → Option ℤ → Sample F → M F (Unit {0})
  unfolding first_failure set_aborted
  decide limits baseline s = elim (checked s limits baseline) [
    | some a ↦ set_aborted (some a)
    | none ↦ do set_aborted none; failed ← (λ r. first_failure r.active r); set_aborted failed
  ]

  -- `if aborted: for load in active: load.stop(); active = []`
  unfoldable pub stop_if_aborted : M F (Unit {0})
  unfolding stop_active
  stop_if_aborted s = if is_some s.aborted then stop_active s else (ok tt, s)

  -- The rest of a round: the sleep, unless the phase has been aborted.
  unfoldable pub rest_of_round : F → M F Bool
  rest_of_round began s =
      if is_some s.aborted
      then (ok false, s)
      else (do now ← monotonic env; print env (slept (nap (f.sub now began))); pure true) s

  -- One round of the sampling loop; it returns whether to go on.
  unfoldable pub tick : Limits F → Option ℤ → String → M F Bool
  unfolding decide stop_if_aborted rest_of_round
  tick limits baseline phase = do
    began ← monotonic env
    s ← sample env phase
    assign (λ r. record r { samples = r.samples ++ (s ∷ []) })
    decide limits baseline s
    stop_if_aborted
    print_live env s
    rest_of_round began

  -- `while time.monotonic() < end`, with fuel
  unfoldable pub rounds : ℕ → Limits F → Option ℤ → String → F → M F (Unit {0})
  unfolding tick
  rounds zero limits baseline phase end s = (out_of_fuel, s)
  rounds (suc fuel) limits baseline phase end s =
      let rest = rounds fuel limits baseline phase end in
      (do
        now ← monotonic env
        if not (f.lt now end)
            then pure tt
            else do go_on ← tick limits baseline phase; if go_on then rest else pure tt)
        s
