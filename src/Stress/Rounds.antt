-- ===== src/Stress/Rounds.antt =====
-- stress.py, `run`: the invariant through the loops over the active loads and the sampling rounds.
use thelio_fans.Prelude.{
  ℤ, String, str_eq, true, ◌≡◌, ◌⊎◌, inl, inr, refl, Option, none, some, is_some, List, [], ◌∷◌,
  ◌++◌, All, arith, Bool-cases, Option-cases,
}
use thelio_fans.Float.{Float}
use thelio_fans.Stress.Sampling.{Sample, Limits}
use thelio_fans.Stress.Guard.{guard}
use thelio_fans.Stress.Exec.{
  Load, cpu, gpu, has, Aborted, slept, Env, Run, M, monotonic, sample, start, stop, failure, print,
  print_live,
}
use thelio_fans.Stress.Looping.{
  start_all, stop_all, first_failure, or_next, stop_active, stop_if_aborted, rest_of_round, decide,
  checked, tick, nap,
}
use thelio_fans.Stress.Control.{
  IsControlled, Post, Post-bind, Post-impl, Kept, Kept-bind, Passing, Off, Same, Same-trans,
  Stopped, start_lem, stop_lem, monotonic_lem, sample_lem, failure_lem, print_lem, print_live_lem,
}

module _ {F : Type 0} ⦃f : Float F⦄ (limits : Limits F) (baseline : Option ℤ) (env : Env F) where
  pub start_all_lem :
      (ls acts : List Load) (s : Run F)
      → IsControlled limits baseline s
      → Passing limits baseline s
      → s.active ≡ acts
      → All (λ l. has l acts ≡ true) ls
      → Post limits baseline
          (λ (_ : Unit {0}) s'. Passing limits baseline s' × (s'.active ≡ acts))
          (start_all env ls s)
  unfolding start_all
  start_all_lem [] acts s c p a h = (c, (p, a))
  start_all_lem (l ∷ ls) acts s c p a h =
      Post-bind limits baseline (λ _ s'. Passing limits baseline s' × (s'.active ≡ acts)) _
        (λ _. start_all env ls) (start env l s) (start_lem limits baseline env l acts s c p a h.0)
        (λ _ s' c' q. start_all_lem ls acts s' c' q.0 q.1 h.1)

  Stopped-trans :
      (l : Load) (ls : List Load) (r s t : Run F)
      → Stopped limits baseline env (l ∷ []) r s
      → Stopped limits baseline env ls s t
      → Stopped limits baseline env (l ∷ ls) r t
  Stopped-trans cpu ls r s t h k = ground arith
  Stopped-trans gpu ls r s t h k = ground arith

  pub stop_all_lem :
      (ls : List Load) (s : Run F)
      → IsControlled limits baseline s
      → Post limits baseline
          (λ (_ : Unit {0}) s'. Stopped limits baseline env ls s s')
          (stop_all env ls s)
  unfolding stop_all
  stop_all_lem [] s c = ground arith
  stop_all_lem (l ∷ ls) s c =
      Post-bind limits baseline (λ _ s'. Stopped limits baseline env (l ∷ []) s s') _
        (λ _. stop_all env ls) (stop env l s) (stop_lem limits baseline env l s c)
        (λ _ s' c' q.
          Post-impl limits baseline (λ _ t. Stopped limits baseline env ls s' t) _
            (stop_all env ls s') (stop_all_lem ls s' c') (λ _ t r. Stopped-trans l ls s s' t q r))

  or_next_lem :
      (why : Option String) (s s' : Run F) (rest : M F (Option (Aborted F)))
      → IsControlled limits baseline s'
      → Same limits baseline s s'
      → Post limits baseline (λ (_ : Option (Aborted F)) t. Same limits baseline s t) (rest s')
      → Post limits baseline
          (λ (_ : Option (Aborted F)) t. Same limits baseline s t)
          (or_next env why rest s')
  unfolding or_next
  or_next_lem none s s' rest c q h = h
  or_next_lem (some why) s s' rest c q h = elim (Bool-cases (str_eq why "")) [
    | inl e ↦ rw e h
    | inr e ↦ rw e (c, q)
  ]

  first_failure_lem :
      (ls : List Load) (s : Run F)
      → IsControlled limits baseline s
      → Post limits baseline
          (λ (_ : Option (Aborted F)) s'. Same limits baseline s s')
          (first_failure env ls s)
  unfolding first_failure
  first_failure_lem [] s c = ground arith
  first_failure_lem (l ∷ ls) s c =
      Post-bind limits baseline (λ _ s'. Same limits baseline s s') _ _ (failure env l s)
        (failure_lem limits baseline env l s c)
        (λ why s' c' q. or_next_lem why s s' (first_failure env ls) c' q (
          Post-impl limits baseline (λ _ t. Same limits baseline s' t)
            (λ _ t. Same limits baseline s t) (first_failure env ls s') (first_failure_lem ls s' c')
            (λ _ t r. Same-trans limits baseline s s' t q r)))

  -- `guard` lets the load run on at the sample, or the phase has been aborted.
  abbrev Decided : Sample F → Run F → Type 0
  Decided x s = (guard x limits baseline ≡ none) ⊎ (is_some s.aborted ≡ true)

  decide_lem :
      (x : Sample F) (s : Run F)
      → IsControlled limits baseline s
      → Post limits baseline (λ (_ : Unit {0}) s'. Decided x s') (decide env limits baseline x s)
  unfolding decide checked
  decide_lem x s c = elim (Option-cases (guard x limits baseline)) [
    | inl e ↦
        rw (e, decide)
          (Post-bind limits baseline (λ (_ : Option (Aborted F)) t. Unit {0}) _ _
            (first_failure env s.active (record s { aborted = none }))
            (Post-impl limits baseline
              (λ (_ : Option (Aborted F)) t. Same limits baseline (record s { aborted = none }) t) _
              _ (first_failure_lem s.active (record s { aborted = none }) (ground arith))
              (λ _ _ _. tt))
            (λ failed t c' _. (ground arith, inl refl)))
    | inr (r, e) ↦ rw (e, decide) (ground arith)
  ]

  -- After the loads have been stopped, none runs.
  pub stop_active_lem :
      (s : Run F)
      → IsControlled limits baseline s
      → Post limits baseline
          (λ (_ : Unit {0}) s'.
            Off limits baseline s'
            × (s'.aborted ≡ s.aborted)
            × (s'.gpu_open ≡ s.gpu_open)
            × (s'.holds_gpu ≡ s.holds_gpu))
          (stop_active env s)
  unfolding stop_active
  stop_active_lem s c =
      Post-bind limits baseline (λ (_ : Unit {0}) s'. Stopped limits baseline env s.active s s') _ _
        (stop_all env s.active s) (stop_all_lem s.active s c) (λ _ s' c' q. ground arith)

  -- The stop of a round that has been aborted.
  stop_if_aborted_lem :
      (x : Sample F) (s : Run F)
      → IsControlled limits baseline s
      → Decided x s
      → Post limits baseline
          (λ (_ : Unit {0}) s'. (guard x limits baseline ≡ none) ⊎ Off limits baseline s')
          (stop_if_aborted env s)
  unfolding stop_if_aborted
  stop_if_aborted_lem x s c d = elim (Bool-cases (is_some s.aborted)) [
    | inl e ↦
        rw (e, stop_if_aborted)
          (Post-impl limits baseline _ _ (stop_active env s) (stop_active_lem s c)
            (λ _ t q. inr q.0))
    | inr e ↦ rw (e, stop_if_aborted) (c, ground arith)
  ]

  rest_of_round_lem :
      (began : F) (s : Run F)
      → IsControlled limits baseline s
      → Kept limits baseline (rest_of_round env began s)
  unfolding rest_of_round
  rest_of_round_lem began s c = elim (Bool-cases (is_some s.aborted)) [
    | inl e ↦ rw (e, rest_of_round) (c, tt)
    | inr e ↦
        rw (e, rest_of_round)
          (Kept-bind limits baseline _ _ (monotonic env s) (monotonic_lem limits baseline env s c)
            (λ now t c' _.
              Kept-bind limits baseline _ _ (print env (slept (nap (f.sub now began))) t)
                (print_lem limits baseline env (slept (nap (f.sub now began))) t tt c')
                (λ _ u c'' _. (c'', tt))))
  ]

  -- A round keeps the invariant, whatever is raised in it.
  pub tick_lem :
      (phase : String) (s : Run F)
      → IsControlled limits baseline s
      → Kept limits baseline (tick env limits baseline phase s)
  unfolding tick
  tick_lem phase s c =
      Kept-bind limits baseline _ _ (monotonic env s) (monotonic_lem limits baseline env s c)
        λ began s1 c1 _.
          Kept-bind limits baseline _ _ (sample env phase s1)
            (sample_lem limits baseline env phase s1 c1)
            λ x s2 c2 _.
              let s3 = record s2 { samples = s2.samples ++ (x ∷ []) } in
              let c3 : IsControlled limits baseline s3 = ground arith in
              Kept-bind limits baseline _ _ (decide env limits baseline x s3) (decide_lem x s3 c3)
                λ _ s4 c4 d.
                  Kept-bind limits baseline _ _ (stop_if_aborted env s4)
                    (stop_if_aborted_lem x s4 c4 d)
                    λ _ s5 c5 q.
                      Kept-bind limits baseline _ _ (print_live env x s5)
                        (print_live_lem limits baseline env x s5 c5 q)
                        λ _ s6 c6 _. rest_of_round_lem began s6 c6
