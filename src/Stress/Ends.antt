-- ===== src/Stress/Ends.antt =====
-- stress.py, `run`: the calls and the loops over the loads do not run out of fuel.
use thelio_fans.Prelude.{
  ℕ, ◌≤◌, String, str_eq, ◌≢◌, Option, none, some, List, [], ◌∷◌, arith, if_elim,
}
use thelio_fans.Float.{Float}
use thelio_fans.Stress.Sampling.{Sample}
use thelio_fans.Stress.Exec.{
  Load, cpu, gpu, Aborted, Event, Env, Run, Outcome, ok, raised, out_of_fuel, M, fresh, monotonic,
  sample, start, stop, failure, release, gpu_load, print, print_live, then_do,
}
use thelio_fans.Stress.Looping.{start_all, stop_all, or_next, first_failure, stop_active}

module _ {F : Type 0} where
  -- The fuel did not run out, and a result comes after at least n calls.
  abbrev pub Ends : {A : Type 0} → ℕ → Outcome A × Run F → Type 0
  Ends n (ok a, s) = n ≤ s.step
  Ends n (raised e, s) = Unit
  Ends n (out_of_fuel, s) = ⊥

  pub Ends-bind :
      {A B : Type 0} (n : ℕ) (k : A → M F B) (r : Outcome A × Run F)
      → Ends n r
      → ((a : A) (s : Run F) → n ≤ s.step → Ends n (k a s))
      → Ends n (then_do k r)
  Ends-bind n k (ok a, s) h g = g a s h
  Ends-bind n k (raised e, s) h g = tt
  Ends-bind n k (out_of_fuel, s) h g = h

  pub Ends-bind_later :
      {A B : Type 0} (m n : ℕ) (k : A → M F B) (r : Outcome A × Run F)
      → Ends m r
      → ((a : A) (s : Run F) → m ≤ s.step → Ends n (k a s))
      → Ends n (then_do k r)
  Ends-bind_later m n k (ok a, s) h g = g a s h
  Ends-bind_later m n k (raised e, s) h g = tt
  Ends-bind_later m n k (out_of_fuel, s) h g = h

  pub Ends-ne : {A : Type 0} (n : ℕ) (r : Outcome A × Run F) → Ends n r → r.0 ≢ out_of_fuel
  Ends-ne n (ok a, s) h e = cc
  Ends-ne n (raised x, s) h e = cc
  Ends-ne n (out_of_fuel, s) h e = h

module _ {F : Type 0} ⦃f : Float F⦄ (env : Env F) where
  stop-Ends : (l : Load) (n : ℕ) (s : Run F) → n ≤ s.step → Ends n (stop env l s)
  unfolding stop
  stop-Ends cpu n s h = ground arith
  stop-Ends gpu n s h = ground arith

  start-Ends : (l : Load) (n : ℕ) (s : Run F) → n ≤ s.step → Ends n (start env l s)
  unfolding start
  start-Ends cpu n s h = ground arith
  start-Ends gpu n s h = ground arith

  failure-Ends : (l : Load) (n : ℕ) (s : Run F) → n ≤ s.step → Ends n (failure env l s)
  unfolding failure
  failure-Ends l n s h = ground arith

  pub monotonic-Ends : (n : ℕ) (s : Run F) → n ≤ s.step → Ends n (monotonic env s)
  unfolding monotonic
  monotonic-Ends n s h = ground arith

  fresh-Ends : (n : ℕ) (s : Run F) → n ≤ s.step → Ends n (fresh env s)
  unfolding fresh
  fresh-Ends n s h = ground arith

  pub print-Ends : (e : Event F) (n : ℕ) (s : Run F) → n ≤ s.step → Ends n (print env e s)
  unfolding print
  print-Ends e n s h = ground arith

  pub print_live-Ends :
      (x : Sample F) (n : ℕ) (s : Run F) → n ≤ s.step → Ends n (print_live env x s)
  unfolding print_live
  print_live-Ends x n s h = ground arith

  pub release-Ends : (n : ℕ) (s : Run F) → n ≤ s.step → Ends n (release env s)
  unfolding release
  release-Ends n s h = ground arith

  pub gpu_load-Ends : (n : ℕ) (s : Run F) → n ≤ s.step → Ends n (gpu_load env s)
  unfolding gpu_load
  gpu_load-Ends n s h = ground arith

  pub start_all-Ends :
      (ls : List Load) (n : ℕ) (s : Run F) → n ≤ s.step → Ends n (start_all env ls s)
  unfolding start_all
  start_all-Ends [] n s h = h
  start_all-Ends (l ∷ ls) n s h =
      Ends-bind n _ (start env l s) (start-Ends l n s h) (λ _ t h'. start_all-Ends ls n t h')

  pub stop_all-Ends : (ls : List Load) (n : ℕ) (s : Run F) → n ≤ s.step → Ends n (stop_all env ls s)
  unfolding stop_all
  stop_all-Ends [] n s h = h
  stop_all-Ends (l ∷ ls) n s h =
      Ends-bind n _ (stop env l s) (stop-Ends l n s h) (λ _ t h'. stop_all-Ends ls n t h')

  or_next-Ends :
      (why : Option String) (ls : List Load) (m : ℕ) (t : Run F)
      → Ends m (first_failure env ls t)
      → m ≤ t.step
      → Ends m (or_next env why (first_failure env ls) t)
  unfolding or_next
  or_next-Ends none ls m t e g = e
  or_next-Ends (some w) ls m t e g =
      if_elim (λ (k : M F (Option (Aborted F))). Ends m (k t)) (str_eq w "") _ _ (λ _. e) (λ _. g)

  pub first_failure-Ends :
      (ls : List Load) (n : ℕ) (s : Run F) → n ≤ s.step → Ends n (first_failure env ls s)
  unfolding first_failure
  first_failure-Ends [] n s h = h
  first_failure-Ends (l ∷ ls) n s h =
      Ends-bind n _ (failure env l s) (failure-Ends l n s h)
        (λ why t h'. or_next-Ends why ls n t (first_failure-Ends ls n t h') h')

  pub stop_active-Ends : (n : ℕ) (s : Run F) → n ≤ s.step → Ends n (stop_active env s)
  unfolding stop_active
  stop_active-Ends n s h =
      Ends-bind n _ (stop_all env s.active s) (stop_all-Ends s.active n s h) (λ _ t h'. h')

  pub sample-Ends : (phase : String) (n : ℕ) (s : Run F) → n ≤ s.step → Ends n (sample env phase s)
  unfolding sample
  sample-Ends phase n s h =
      Ends-bind n _ (fresh env s) (fresh-Ends n s h)
        (λ x t h'. Ends-bind n _ (monotonic env t) (monotonic-Ends n t h') (λ y u h''. h''))
