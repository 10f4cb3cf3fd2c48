-- ===== src/Stress/Running.antt =====
-- stress.py, `run`: the phases under guard, the clean-up, and the exit status.
use thelio_fans.Prelude.{
  ℕ, ℤ, String, concat, Bool, true, false, not, ◌&&◌, Option, none, some, is_some, List, [], ◌∷◌,
  ◌++◌, if◌then◌else◌,
}
use thelio_fans.Float.{Float}
use thelio_fans.Stress.Sampling.{Limits}
use thelio_fans.Stress.Guard.{text, guard, uses_cpu, uses_gpu}
use thelio_fans.Stress.Summary.{PhaseSummary, summarise}
use thelio_fans.Stress.Report.{render}
use thelio_fans.Stress.Exec.{
  Load, cpu, gpu, interrupt, error, interrupted, GpuLoad, opened, missing, message, limits_line,
  Aborted, blank_line, report_text, report_json, Env, Run, Outcome, ok, raised, out_of_fuel, M,
  ◌>>=◌, ◌>>◌, pure, assign, fresh, monotonic, sample, release, gpu_load, print,
}
use thelio_fans.Stress.Looping.{
  Args, truthy, or_else, limits_for, exit_status, checked, start_all, stop_all, stop_active,
  set_aborted, rounds,
}

module _ {F : Type 0} ⦃f : Float F⦄ (env : Env F) where
  -- `if gpu is not None: gpu.release(); gpu = None`
  unfoldable pub release_held : M F (Unit {0})
  release_held s =
      if s.holds_gpu
      then (release env >> assign (λ r. record r { holds_gpu = false })) s
      else (ok tt, s)

  -- From the start of the loads of a phase to its end; it returns whether to go on.
  unfoldable pub load_phase : ℕ → Args F → Limits F → Option ℤ → String → M F Bool
  unfolding start_all rounds stop_active release_held
  load_phase fuel args limits baseline phase = do
    _ ← (λ s. start_all env s.active s)
    now ← monotonic env
    rounds env fuel limits baseline phase (f.add now args.seconds)
    stop_active env
    release_held
    λ s. (ok (not (is_some s.aborted)), s)

  unfoldable pub activate : Load → M F (Unit {0})
  activate l = assign (λ s. record s { active = s.active ++ (l ∷ []) })

  -- What follows `gpu_load()` in a phase: whether there is a GPU load.
  unfoldable pub take_gpu : GpuLoad → M F Bool
  unfolding activate
  take_gpu (missing reason) = do
    let why = concat ("unavailable (" ∷ reason ∷ "), GPU phases skipped" ∷ [])
    assign (λ s. record s { gpu_missing = some reason; gpu_desc = or_else s.gpu_desc why })
    print env (message (concat ("GPU load unavailable: " ∷ reason ∷ "; skipping GPU phases" ∷ [])))
    pure false
  take_gpu (opened reason) = do
    assign (λ s. record s { gpu_desc = or_else s.gpu_desc reason })
    activate gpu
    pure true

  unfoldable pub open_gpu : M F Bool
  unfolding take_gpu
  open_gpu = do got ← gpu_load env; take_gpu got

  -- The loads of a phase are chosen, and then run; it returns whether to go on.
  unfoldable pub loaded_phase : ℕ → Args F → Limits F → Option ℤ → String → M F Bool
  unfolding load_phase open_gpu activate
  loaded_phase fuel args limits baseline phase = do
    assign (λ r. record r { active = if uses_cpu phase then cpu ∷ [] else [] })
    ready ← (if uses_gpu phase then open_gpu else pure true)
    if ready then load_phase fuel args limits baseline phase else pure true

  -- The body of `for phase in args.phases`; it returns whether to go on with the next phase.
  unfoldable pub phase_body : ℕ → Args F → Limits F → Option ℤ → String → M F Bool
  unfolding loaded_phase set_aborted
  phase_body fuel args limits baseline phase s =
      if uses_gpu phase && truthy s.gpu_missing
      then (ok true, s)
      else (do
        first ← sample env phase
        set_aborted env (checked first limits baseline)
        if is_some (checked first limits baseline)
            then pure false
            else loaded_phase fuel args limits baseline phase)
          s

  unfoldable pub phases_loop : ℕ → Args F → Limits F → Option ℤ → List String → M F (Unit {0})
  unfolding phase_body
  phases_loop fuel args limits baseline [] = pure tt
  phases_loop fuel args limits baseline (phase ∷ phases) = do
    let rest = phases_loop fuel args limits baseline phases
    go_on ← phase_body fuel args limits baseline phase
    if go_on then rest else pure tt

  -- `except KeyboardInterrupt`
  unfoldable pub handled : Outcome (Unit {0}) × Run F → Outcome (Unit {0}) × Run F
  handled (raised interrupt, s) = (ok tt, record s { aborted = some interrupted })
  handled (o, s) = (o, s)

  -- The `finally` block.
  unfoldable pub clean_up : M F (Unit {0})
  unfolding stop_all
  clean_up = do
    _ ← (λ s. stop_all env s.active s)
    λ s. if s.holds_gpu then release env s else (ok tt, s)

  -- An exception of the clean-up replaces the outcome of the body.
  unfoldable pub finally : Outcome (Unit {0}) × Run F → Outcome (Unit {0}) × Run F
  unfolding clean_up
  finally (o, s) =
      let (o', s') = clean_up s in
      (elim o' [ ok _ ↦ o | raised e ↦ raised e | out_of_fuel ↦ out_of_fuel ], s')

  -- The `try` statement of `run`.
  unfoldable pub supervised : ℕ → Args F → Limits F → Option ℤ → M F (Unit {0})
  unfolding phases_loop handled finally
  supervised fuel args limits baseline s =
      finally (handled (phases_loop fuel args limits baseline args.phases s))

  -- The report, as text or as JSON.
  unfoldable pub print_report :
      Bool → List (PhaseSummary F) → Option (Aborted F) → Option String → M F (Unit {0})
  unfolding render
  print_report json summaries aborted gpu_desc =
      if json
      then print env (report_json summaries aborted gpu_desc)
      else (do print env blank_line; print env (report_text (render summaries aborted gpu_desc)))

  -- The end of `run`: the report and the exit status; a `summarise` that is none is an IndexError.
  unfoldable pub conclude : Args F → M F ℕ
  unfolding print_report
  conclude args s = elim (summarise s.samples) [
    | none ↦ (raised (error "IndexError"), s)
    | some out ↦
        (do print_report args.json out s.aborted s.gpu_desc; pure (exit_status s.aborted)) s
  ]

  -- `run`; the `with` statement closes the session whatever happens.
  unfoldable pub run_body : ℕ → Args F → M F (Option ℕ)
  unfolding supervised
  run_body fuel args = do
    first ← sample env "idle"
    snapshot ← fresh env
    let limits = limits_for args snapshot
    let baseline = first.throttle_events
    _ ←
        (if is_some baseline
          then pure tt
          else print env (message "no CPU throttle counter in sysfs: throttling is not guarded"))
    print env (limits_line limits baseline)
    elim (guard first limits baseline) [
      | some r ↦ do print env (message (concat ("not starting: " ∷ text r ∷ []))); pure (some 1)
      | none ↦ do supervised fuel args limits baseline; pure none
    ]

  unfoldable pub run : ℕ → Args F → M F ℕ
  unfolding run_body conclude
  run fuel args s =
      let (o, s') = run_body fuel args (record s { session_open = true }) in
      let closed = record s' { session_open = false } in
      elim o [
        | ok (some status) ↦ (ok status, closed)
        | ok none ↦ conclude args closed
        | raised e ↦ (raised e, closed)
        | out_of_fuel ↦ (out_of_fuel, closed)
      ]
