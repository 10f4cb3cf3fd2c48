-- ===== src/Stress/Progress.antt =====
-- stress.py, `run`: the sampling loop ends by the clock, so enough fuel gives a result.
use thelio_fans.Prelude.{
  ℕ, zero, suc, ◌+◌, ◌≤◌, ◌<◌, ℤ, String, true, false, ◌&&◌, ◌≡◌, ◌≢◌, sym, ◌∙◌, Option, none, some,
  is_some, List, [], ◌∷◌, ◌++◌, inl, inr, concat, arith, if◌then◌else◌, if_elim, Bool-cases,
  Option-cases,
}
use mathlib.Core.Bool.{false≢true}
use native.Mathlib.Decide.{dec_lt}
use native.Mathlib.Nat.{le_refl}
use thelio_fans.Float.{Float}
use thelio_fans.Stress.Sampling.{Sample, Limits}
use thelio_fans.Stress.Guard.{uses_cpu, uses_gpu}
use thelio_fans.Stress.Exec.{
  cpu, interrupt, error, GpuLoad, opened, missing, slept, Env, Run, Outcome, ok, raised,
  out_of_fuel, M, pure, assign, call, monotonic, sample, release, gpu_load, print, print_live,
  then_do, next,
}
use thelio_fans.Stress.Looping.{
  Args, truthy, or_else, nap, start_all, stop_all, first_failure, stop_active, checked, decide,
  stop_if_aborted, rest_of_round, tick, rounds,
}
use thelio_fans.Stress.Running.{
  release_held, load_phase, take_gpu, open_gpu, loaded_phase, phase_body, phases_loop, handled,
  clean_up, finally, supervised,
}
use thelio_fans.Stress.Ends.{
  Ends, Ends-bind, Ends-bind_later, Ends-ne, monotonic-Ends, print-Ends, print_live-Ends,
  release-Ends, gpu_load-Ends, start_all-Ends, stop_all-Ends, first_failure-Ends, stop_active-Ends,
  sample-Ends,
}

module _ {F : Type 0} ⦃f : Float F⦄ (env : Env F) where
  decide-Ends :
      (limits : Limits F) (baseline : Option ℤ) (x : Sample F) (n : ℕ) (s : Run F)
      → n ≤ s.step
      → Ends n (decide env limits baseline x s)
  unfolding decide
  decide-Ends limits baseline x n s h = elim (Option-cases (checked x limits baseline)) [
    | inr (a, e) ↦ rw (e, decide) h
    | inl e ↦
        rw (e, decide)
          (Ends-bind n _ (first_failure env s.active (record s { aborted = none }))
            (first_failure-Ends env s.active n (record s { aborted = none }) h) (λ _ t h'. h'))
  ]

  stop_if_aborted-Ends : (n : ℕ) (s : Run F) → n ≤ s.step → Ends n (stop_if_aborted env s)
  unfolding stop_if_aborted
  stop_if_aborted-Ends n s h =
      if_elim (Ends n) (is_some s.aborted) _ _ (λ _. stop_active-Ends env n s h) (λ _. h)

  rest_of_round-Ends :
      (began : F) (n : ℕ) (s : Run F) → n ≤ s.step → Ends n (rest_of_round env began s)
  unfolding rest_of_round
  rest_of_round-Ends began n s h =
      if_elim (Ends n) (is_some s.aborted) _ _ (λ _. h)
        (λ _. Ends-bind n _ (monotonic env s) (monotonic-Ends env n s h) (λ now t h'.
          Ends-bind n _ (print env (slept (nap (f.sub now began))) t) (print-Ends env _ n t h')
            (λ _ u h''. h'')))

  tick-Ends :
      (limits : Limits F) (baseline : Option ℤ) (phase : String) (n : ℕ) (s : Run F)
      → n ≤ s.step
      → Ends n (tick env limits baseline phase s)
  unfolding tick
  tick-Ends limits baseline phase n s h =
      Ends-bind n _ (monotonic env s) (monotonic-Ends env n s h) λ began s1 h1.
        Ends-bind n _ (sample env phase s1) (sample-Ends env phase n s1 h1) λ x s2 h2.
          let s3 = record s2 { samples = s2.samples ++ (x ∷ []) } in
          Ends-bind n _ (decide env limits baseline x s3) (decide-Ends limits baseline x n s3 h2)
            λ _ s4 h4.
              Ends-bind n _ (stop_if_aborted env s4) (stop_if_aborted-Ends n s4 h4) λ _ s5 h5.
                Ends-bind n _ (print_live env x s5) (print_live-Ends env x n s5 h5)
                  λ _ s6 h6. rest_of_round-Ends began n s6 h6

  -- Within N calls from any reading of the clock it has moved on by the length of a phase.
  abbrev pub Advances : ℕ → F → Type 0
  Advances n seconds =
      (k j : ℕ) → k + n ≤ j → f.lt (env.clock_at j) (f.add (env.clock_at k) seconds) ≡ false

  -- A reading of the clock, as a bind.
  monotonic-bind :
      {B : Type 0} (n : ℕ) (k : F → M F B) (s : Run F)
      → ((t : Run F) → t.step ≡ s.step + 1 → Ends n (k (env.clock_at s.step) t))
      → Ends n (then_do k (monotonic env s))
  unfolding monotonic call
  monotonic-bind n k s g = elim (Option-cases (env.raises_at s.step)) [
    | inl e ↦ rw (e, monotonic, call) (g (next s) (omega arith))
    | inr (x, e) ↦ rw (e, monotonic, call) tt
  ]

  -- The clock is past the end of the phase before the fuel is used up.
  rounds-Ends :
      (limits : Limits F) (baseline : Option ℤ) (phase : String) (bound : ℕ) (args : Args F)
      (fuel n k : ℕ) (s : Run F)
      → Advances bound args.seconds
      → n ≤ s.step
      → 0 < fuel
      → k + bound < s.step + fuel
      → Ends n (rounds env fuel limits baseline phase (f.add (env.clock_at k) args.seconds) s)
  unfolding rounds
  rounds-Ends limits baseline phase bound args zero n k s adv h pos room = absurd (omega arith)
  rounds-Ends limits baseline phase bound args (suc fuel) n k s adv h pos room =
      let end = f.add (env.clock_at k) args.seconds in
      monotonic-bind n _ s λ t e. elim (Bool-cases (f.lt (env.clock_at s.step) end)) [
        | inr over ↦ rw over (omega arith)
        | inl going ↦
            let early : s.step < k + bound = elim (dec_lt s.step (k + bound)) [
              | yes p ↦ p
              | no p ↦ absurd (false≢true (sym (adv k s.step (omega arith)) ∙ going))
            ] in
            rw going (
              Ends-bind_later (suc s.step) n _ (tick env limits baseline phase t)
                (tick-Ends limits baseline phase (suc s.step) t (omega arith))
                λ go_on u h'.
                  if_elim (λ (m : M F (Unit {0})). Ends n (m u)) go_on _ (pure tt)
                    (λ _.
                      rounds-Ends limits baseline phase bound args fuel n k u adv (omega arith)
                        (omega arith) (omega arith))
                    (λ _. omega arith))
      ]

  release_held-Ends : (n : ℕ) (s : Run F) → n ≤ s.step → Ends n (release_held env s)
  unfolding release_held
  release_held-Ends n s h =
      if_elim (Ends n) s.holds_gpu _ _
        (λ _.
          Ends-bind n (λ _. assign (λ r. record r { holds_gpu = false })) (release env s)
            (release-Ends env n s h) (λ _ t h'. h'))
        (λ _. h)

  module _ (limits : Limits F) (baseline : Option ℤ) (bound : ℕ) (args : Args F) (fuel : ℕ)
      (advances : Advances bound args.seconds) (enough : bound < fuel) where
    load_phase-Ends :
        (phase : String) (n : ℕ) (s : Run F)
        → n ≤ s.step
        → Ends n (load_phase env fuel args limits baseline phase s)
    unfolding load_phase
    load_phase-Ends phase n s h =
        Ends-bind n _ (start_all env s.active s) (start_all-Ends env s.active n s h) λ _ s1 h1.
          monotonic-bind n _ s1 λ s2 e.
            let end = f.add (env.clock_at s1.step) args.seconds in
            Ends-bind n _ (rounds env fuel limits baseline phase end s2)
              (rounds-Ends limits baseline phase bound args fuel n s1.step s2 advances (omega arith)
                (omega arith) (omega arith))
              λ _ s3 h3.
                Ends-bind n _ (stop_active env s3) (stop_active-Ends env n s3 h3) λ _ s4 h4.
                  Ends-bind n _ (release_held env s4) (release_held-Ends n s4 h4) λ _ s5 h5. h5

    take_gpu-Ends : (got : GpuLoad) (n : ℕ) (s : Run F) → n ≤ s.step → Ends n (take_gpu env got s)
    unfolding take_gpu
    take_gpu-Ends (opened reason) n s h = h
    take_gpu-Ends (missing reason) n s h =
        let why = concat ("unavailable (" ∷ reason ∷ "), GPU phases skipped" ∷ []) in
        let t = record s { gpu_missing = some reason; gpu_desc = or_else s.gpu_desc why } in
        Ends-bind n (λ _. pure false) (print env _ t) (print-Ends env _ n t h) (λ _ u h'. h')

    loaded_phase-Ends :
        (phase : String) (n : ℕ) (s : Run F)
        → n ≤ s.step
        → Ends n (loaded_phase env fuel args limits baseline phase s)
    unfolding loaded_phase open_gpu
    loaded_phase-Ends phase n s h =
        let s1 = record s { active = if uses_cpu phase then cpu ∷ [] else [] } in
        Ends-bind n _ ((if uses_gpu phase then open_gpu env else pure true) s1)
          (if_elim (λ m. Ends n (m s1)) (uses_gpu phase) (open_gpu env) (pure true)
            (λ _.
              Ends-bind n (take_gpu env) (gpu_load env s1) (gpu_load-Ends env n s1 h)
                (λ got t h'. take_gpu-Ends got n t h'))
            (λ _. h))
          λ ready t h'.
            if_elim (λ m. Ends n (m t)) ready (load_phase env fuel args limits baseline phase)
              (pure true) (λ _. load_phase-Ends phase n t h') (λ _. h')

    phase_body-Ends :
        (phase : String) (n : ℕ) (s : Run F)
        → n ≤ s.step
        → Ends n (phase_body env fuel args limits baseline phase s)
    unfolding phase_body
    phase_body-Ends phase n s h =
        if_elim (Ends n) (uses_gpu phase && truthy s.gpu_missing) _ _ (λ _. h)
          (λ _. Ends-bind n _ (sample env phase s) (sample-Ends env phase n s h) (λ x t h'.
            if_elim (λ m. Ends n (m (record t { aborted = checked x limits baseline })))
              (is_some (checked x limits baseline)) (pure false)
              (loaded_phase env fuel args limits baseline phase) (λ _. h')
              (λ _.
                loaded_phase-Ends phase n (record t { aborted = checked x limits baseline }) h')))

    phases_loop-Ends :
        (phases : List String) (n : ℕ) (s : Run F)
        → n ≤ s.step
        → Ends n (phases_loop env fuel args limits baseline phases s)
    unfolding phases_loop
    phases_loop-Ends [] n s h = h
    phases_loop-Ends (phase ∷ phases) n s h =
        Ends-bind n _ (phase_body env fuel args limits baseline phase s)
          (phase_body-Ends phase n s h)
          λ go_on t h'.
            if_elim (λ m. Ends n (m t)) go_on (phases_loop env fuel args limits baseline phases)
              (pure tt) (λ _. phases_loop-Ends phases n t h') (λ _. h')

    handled-Ends :
        (r : Outcome (Unit {0}) × Run F) (n : ℕ) → Ends n r → (handled env r).0 ≢ out_of_fuel
    unfolding handled
    handled-Ends (ok a, s) n h e = cc
    handled-Ends (raised interrupt, s) n h e = cc
    handled-Ends (raised (error x), s) n h e = cc
    handled-Ends (out_of_fuel, s) n h e = h

    clean_up-Ends : (s : Run F) → (clean_up env s).0 ≢ out_of_fuel
    unfolding clean_up
    clean_up-Ends s = Ends-ne s.step (clean_up env s) (
        Ends-bind s.step _ (stop_all env s.active s)
          (stop_all-Ends env s.active s.step s (le_refl _))
          (λ _ t h'.
            if_elim (Ends s.step) t.holds_gpu _ _ (λ _. release-Ends env s.step t h') (λ _. h')))

    finally_ne :
        (r : Outcome (Unit {0}) × Run F) → r.0 ≢ out_of_fuel → (finally env r).0 ≢ out_of_fuel
    unfolding finally
    finally_ne (o, s) h e = ground (arith, clean_up-Ends s)

    -- If within `bound` calls from any reading of the clock it moves on by the length of a phase,
    -- then with more fuel than `bound` the phases, their handler and the clean-up return or raise:
    -- they do not run out of fuel, whatever the calls return and whichever of them raise.
    pub supervised-ne-out_of_fuel :
        (s : Run F) → (supervised env fuel args limits baseline s).0 ≢ out_of_fuel
    unfolding supervised
    supervised-ne-out_of_fuel s =
        finally_ne (handled env (phases_loop env fuel args limits baseline args.phases s)) (
          handled-Ends (phases_loop env fuel args limits baseline args.phases s) s.step
            (phases_loop-Ends args.phases s.step s (le_refl _)))
