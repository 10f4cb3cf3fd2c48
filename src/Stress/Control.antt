-- ===== src/Stress/Control.antt =====
-- stress.py, `run`: the invariant that keeps the loads under control, one call at a time.
use thelio_fans.Prelude.{
  ℤ, String, Bool, true, false, ◌≡◌, ◌||◌, ◌⊎◌, Option, none, some, List, [], ◌∷◌, arith,
}
use thelio_fans.Float.{Float}
use thelio_fans.Stress.Sampling.{Sample, Limits}
use thelio_fans.Stress.Guard.{guard}
use thelio_fans.Stress.Exec.{
  Load, cpu, gpu, has, GpuLoad, opened, missing, Event, sampled, started, live_line, timed_out, Env,
  Run, Outcome, ok, raised, out_of_fuel, M, call, fresh, monotonic, sample, start, stop, failure,
  release, gpu_load, print, print_live, then_do,
}

abbrev pub is_opened : GpuLoad → Bool
is_opened (opened d) = true
is_opened (missing r) = false

module _ {F : Type 0} where
  abbrev last_sampled : List (Event F) → Option (Sample F)
  last_sampled [] = none
  last_sampled (sampled s ∷ events) = some s
  last_sampled (_ ∷ events) = last_sampled events

  -- A `join` of the thread of a GPU load timed out.
  abbrev pub has_timed_out : List (Event F) → Bool
  has_timed_out [] = false
  has_timed_out (timed_out ∷ events) = true
  has_timed_out (_ ∷ events) = has_timed_out events

  -- No thread is alive that was told to stop, or a `join` timed out.
  abbrev pub IsExcused : Bool → List (Event F) → Type 0
  IsExcused late events = (late ≡ false) ⊎ (has_timed_out events ≡ true)

module _ {F : Type 0} ⦃f : Float F⦄ (limits : Limits F) (baseline : Option ℤ) where
  -- There is a sample, and `guard` lets the load run on at it.
  abbrev pub Passes : Option (Sample F) → Type 0
  Passes none = ⊥
  Passes (some s) = guard s limits baseline ≡ none

  -- A load was started only when the last sample before had passed the guard, and the line of a
  -- sample that did not pass was printed when every load had been stopped; a thread was alive then
  -- only if a `join` had timed out.
  abbrev pub IsGuarded : List (Event F) → Type 0
  IsGuarded [] = Unit
  IsGuarded (started l ∷ events) = Passes (last_sampled events) × IsGuarded events
  IsGuarded (live_line s c g late ∷ events) =
      ((guard s limits baseline ≡ none) ⊎ ((c ≡ false) × (g ≡ false) × IsExcused late events))
      × IsGuarded events
  IsGuarded (_ ∷ events) = IsGuarded events

  -- A running load is in `active`, and an open GPU load is held by the variable `gpu`.
  pub record IsControlled (s : Run F) : Type 0 where
    pub cpu_covered : s.cpu_on ≡ true → has cpu s.active ≡ true
    pub gpu_covered : s.gpu_on ≡ true → has gpu s.active ≡ true
    pub gpu_held : s.gpu_open ≡ true → s.holds_gpu ≡ true
    pub excused : IsExcused (s.gpu_late || s.gpu_left) s.trace
    pub guarded : IsGuarded s.trace

  -- After a call: the invariant holds whatever the outcome, and Q holds of a result.
  abbrev pub Post : {A : Type 0} → (A → Run F → Type 0) → Outcome A × Run F → Type 0
  Post Q (ok a, s) = IsControlled s × Q a s
  Post Q (raised e, s) = IsControlled s
  Post Q (out_of_fuel, s) = IsControlled s

  pub Post-bind :
      {A B : Type 0} (Q : A → Run F → Type 0) (R : B → Run F → Type 0) (k : A → M F B)
      (r : Outcome A × Run F)
      → Post Q r
      → ((a : A) (s : Run F) → IsControlled s → Q a s → Post R (k a s))
      → Post R (then_do k r)
  Post-bind Q R k (ok a, s) h g = g a s h.0 h.1
  Post-bind Q R k (raised e, s) h g = h
  Post-bind Q R k (out_of_fuel, s) h g = h

  pub Post-impl :
      {A : Type 0} (Q R : A → Run F → Type 0) (r : Outcome A × Run F)
      → Post Q r
      → ((a : A) (s : Run F) → Q a s → R a s)
      → Post R r
  Post-impl Q R (ok a, s) h g = (h.0, g a s h.1)
  Post-impl Q R (raised e, s) h g = h
  Post-impl Q R (out_of_fuel, s) h g = h

  -- Only the invariant.
  abbrev pub Kept : {A : Type 0} → Outcome A × Run F → Type 0
  Kept {A} = Post (λ (_ : A) _. Unit {0})

  Kept-of-Post : {A : Type 0} (Q : A → Run F → Type 0) (r : Outcome A × Run F) → Post Q r → Kept r
  Kept-of-Post Q r h = Post-impl Q (λ _ _. Unit {0}) r h (λ _ _ _. tt)

  pub Kept-bind :
      {A B : Type 0} (Q : A → Run F → Type 0) (k : A → M F B) (r : Outcome A × Run F)
      → Post Q r
      → ((a : A) (s : Run F) → IsControlled s → Q a s → Kept (k a s))
      → Kept (then_do k r)
  Kept-bind Q k r = Post-bind Q (λ _ _. Unit {0}) k r

  abbrev pub Passing : Run F → Type 0
  Passing s = Passes (last_sampled s.trace)

  abbrev pub Off : Run F → Type 0
  Off s = (s.cpu_on ≡ false) × (s.gpu_on ≡ false)

  -- What a call that acts on no load leaves as it was.
  pub record Same (s s' : Run F) : Type 0 where
    pub cpu_same : s'.cpu_on ≡ s.cpu_on
    pub gpu_same : s'.gpu_on ≡ s.gpu_on
    pub open_same : s'.gpu_open ≡ s.gpu_open
    pub holds_same : s'.holds_gpu ≡ s.holds_gpu
    pub active_same : s'.active ≡ s.active
    pub aborted_same : s'.aborted ≡ s.aborted
    pub last_same : last_sampled s'.trace ≡ last_sampled s.trace

  pub Same-trans : (r s t : Run F) → Same r s → Same s t → Same r t
  Same-trans r s t h k = ground arith

  -- An event that is no sample, no start and no line of a sample.
  abbrev IsPlain : Event F → Type 0
  IsPlain (sampled s) = ⊥
  IsPlain (started l) = ⊥
  IsPlain (live_line s c g late) = ⊥
  IsPlain _ = Unit

  module _ (env : Env F) where
    pub start_lem :
        (l : Load) (acts : List Load) (s : Run F)
        → IsControlled s
        → Passing s
        → s.active ≡ acts
        → has l acts ≡ true
        → Post (λ _ s'. Passing s' × (s'.active ≡ acts)) (start env l s)
    unfolding start
    start_lem cpu acts s c p a h = ground arith
    start_lem gpu acts s c p a h = ground arith

    pub monotonic_lem : (s : Run F) → IsControlled s → Post (λ _ s'. Same s s') (monotonic env s)
    unfolding monotonic
    monotonic_lem s c = ground arith

    pub fresh_lem : (s : Run F) → IsControlled s → Post (λ _ s'. Same s s') (fresh env s)
    unfolding fresh
    fresh_lem s c = ground arith

    pub failure_lem :
        (l : Load) (s : Run F) → IsControlled s → Post (λ _ s'. Same s s') (failure env l s)
    unfolding failure
    failure_lem l s c = ground arith

    pub print_lem :
        (e : Event F) (s : Run F)
        → IsPlain e
        → IsControlled s
        → Post (λ _ s'. Same s s') (print env e s)
    unfolding print call
    print_lem e s p c = ground arith

    -- The line of a sample that passes, or that is printed when no load runs.
    pub print_live_lem :
        (x : Sample F) (s : Run F)
        → IsControlled s
        → (guard x limits baseline ≡ none) ⊎ Off s
        → Post (λ _ s'. Same s s') (print_live env x s)
    unfolding print_live
    print_live_lem x s c h = ground arith

    -- What sampling leaves as it was, and the sample that it adds.
    pub record Sampled (x : Sample F) (s s' : Run F) : Type 0 where
      pub cpu_same : s'.cpu_on ≡ s.cpu_on
      pub gpu_same : s'.gpu_on ≡ s.gpu_on
      pub open_same : s'.gpu_open ≡ s.gpu_open
      pub holds_same : s'.holds_gpu ≡ s.holds_gpu
      pub active_same : s'.active ≡ s.active
      pub last_is : last_sampled s'.trace ≡ some x

    pub sample_lem :
        (phase : String) (s : Run F)
        → IsControlled s
        → Post (λ x s'. Sampled x s s') (sample env phase s)
    unfolding sample
    sample_lem phase s c = ground arith

    -- What stopping a list of loads does.
    pub record Stopped (ls : List Load) (s s' : Run F) : Type 0 where
      pub cpu_off : s'.cpu_on ≡ true → (s.cpu_on ≡ true) × (has cpu ls ≡ false)
      pub gpu_off : s'.gpu_on ≡ true → (s.gpu_on ≡ true) × (has gpu ls ≡ false)
      pub open_same : s'.gpu_open ≡ s.gpu_open
      pub holds_same : s'.holds_gpu ≡ s.holds_gpu
      pub active_same : s'.active ≡ s.active
      pub aborted_same : s'.aborted ≡ s.aborted
      pub last_same : last_sampled s'.trace ≡ last_sampled s.trace

    pub stop_lem :
        (l : Load) (s : Run F)
        → IsControlled s
        → Post (λ _ s'. Stopped (l ∷ []) s s') (stop env l s)
    unfolding stop
    stop_lem cpu s c = ground arith
    stop_lem gpu s c = ground arith

    pub release_lem :
        (s : Run F)
        → IsControlled s
        → Post
            (λ _ s'.
              (s'.gpu_open ≡ false)
              × (s'.gpu_on ≡ false)
              × (s'.cpu_on ≡ s.cpu_on)
              × (s'.active ≡ s.active)
              × (s'.aborted ≡ s.aborted))
            (release env s)
    unfolding release
    release_lem s c = ground arith

    pub gpu_load_lem :
        (s : Run F)
        → IsControlled s
        → s.gpu_open ≡ false
        → Post
            (λ got s'.
              (s'.cpu_on ≡ s.cpu_on)
              × (s'.gpu_on ≡ s.gpu_on)
              × (s'.active ≡ s.active)
              × (is_opened got ≡ false → s'.gpu_open ≡ false)
              × (last_sampled s'.trace ≡ last_sampled s.trace))
            (gpu_load env s)
    unfolding gpu_load
    gpu_load_lem s c h = ground arith
