-- ===== src/Stress/Quiet.antt =====
-- stress.py, `run`: the invariant through a phase, and what is left running after the phases.
use mathlib.Core.Bool.{false≢true}
use thelio_fans.Prelude.{ℕ, ℤ, false, ◌≡◌, refl, sym, inl, ◌||◌, ◌∙◌, Option, arith, if_elim}
use thelio_fans.Float.{Float}
use thelio_fans.Stress.Sampling.{Limits}
use thelio_fans.Stress.Exec.{interrupt, error, Env, Run, Outcome, ok, raised, out_of_fuel, release}
use thelio_fans.Stress.Looping.{Args, stop_all}
use thelio_fans.Stress.Running.{phases_loop, handled, clean_up, supervised}
use thelio_fans.Stress.Control.{
  IsControlled, IsGuarded, IsExcused, Post, Post-bind, Post-impl, Kept, release_lem,
}
use thelio_fans.Stress.Rounds.{stop_all_lem}
use thelio_fans.Stress.Phased.{Idle, phases_loop_lem}

module _ {F : Type 0} ⦃f : Float F⦄ (limits : Limits F) (baseline : Option ℤ) (env : Env F) where
  clean_up_lem :
      (s : Run F)
      → IsControlled limits baseline s
      → Post limits baseline (λ (_ : Unit {0}) t. Idle limits baseline env t) (clean_up env s)
  unfolding clean_up
  clean_up_lem s c =
      Post-bind limits baseline _ (λ (_ : Unit {0}) t. Idle limits baseline env t) _
        (stop_all env s.active s) (stop_all_lem limits baseline env s.active s c)
        λ _ t c' q.
          if_elim (Post limits baseline (λ (_ : Unit {0}) u. Idle limits baseline env u))
            t.holds_gpu _ _
            (λ e.
              Post-impl limits baseline _ _ (release env t) (release_lem limits baseline env t c')
                (λ _ u r. ground arith))
            (λ e. (c', ground arith))

  Controlled-handled :
      (r : Outcome (Unit {0}) × Run F)
      → Kept limits baseline r
      → IsControlled limits baseline (handled env r).1
  unfolding handled
  Controlled-handled (ok a, s) h = h.0
  Controlled-handled (raised interrupt, s) h = ground arith
  Controlled-handled (raised (error e), s) h = h
  Controlled-handled (out_of_fuel, s) h = h

  -- The state in which the `try` statement of `run` is entered.
  pub record IsFresh (s : Run F) : Type 0 where
    pub cpu_off : s.cpu_on ≡ false
    pub gpu_off : s.gpu_on ≡ false
    pub gpu_ended : s.gpu_late ≡ false
    pub none_left : s.gpu_left ≡ false
    pub gpu_shut : s.gpu_open ≡ false
    pub guarded : IsGuarded limits baseline s.trace

  -- The body of the `try` statement, and then its handler.
  abbrev pub body : ℕ → Args F → Run F → Outcome (Unit {0}) × Run F
  body fuel args s = handled env (phases_loop env fuel args limits baseline args.phases s)

  body-IsControlled :
      (fuel : ℕ) (args : Args F) (s : Run F)
      → IsFresh s
      → IsControlled limits baseline (body fuel args s).1
  body-IsControlled fuel args s h =
      Controlled-handled (phases_loop env fuel args limits baseline args.phases s) (
        Post-impl limits baseline _ (λ _ _. Unit {0})
          (phases_loop env fuel args limits baseline args.phases s)
          (phases_loop_lem limits baseline env fuel args args.phases s
            (record {
              cpu_covered = λ e. absurd (false≢true (sym h.cpu_off ∙ e));
              gpu_covered = λ e. absurd (false≢true (sym h.gpu_off ∙ e));
              gpu_held = λ e. absurd (false≢true (sym h.gpu_shut ∙ e));
              excused = inl (rw (h.gpu_ended, h.none_left) refl);
              guarded = h.guarded;
            })
            ((h.cpu_off, h.gpu_off), h.gpu_shut))
          (λ _ _ _. tt))

  Post-state :
      {A : Type 0} (Q : A → Run F → Type 0) (r : Outcome A × Run F)
      → Post limits baseline Q r
      → IsControlled limits baseline r.1
  Post-state Q (ok a, s) h = h.0
  Post-state Q (raised e, s) h = h
  Post-state Q (out_of_fuel, s) h = h

  Post-result :
      {A : Type 0} (Q : A → Run F → Type 0) (r : Outcome A × Run F) {a : A}
      → Post limits baseline Q r
      → r.0 ≡ ok a
      → (b : A) × Q b r.1
  Post-result Q (ok a, s) h e = (a, h.1)
  Post-result Q (raised x, s) h e = cc
  Post-result Q (out_of_fuel, s) h e = cc

  -- Whatever the calls return, whichever of them raise and whatever the fuel: if the `try` statement
  -- of `run` is entered with no load running and no GPU load open, and no call of its `finally` block
  -- raises, then after it the CPU load does not run, the GPU load has been stopped since it was last
  -- started, and no GPU load is open; and no thread of a GPU load is left that was alive after its
  -- `stop`, unless a `join` of one timed out after ten seconds.
  pub supervised-Idle :
      (fuel : ℕ) (args : Args F) (s : Run F)
      → IsFresh s
      → (clean_up env (body fuel args s).1).0 ≡ ok tt
      → let t = (supervised env fuel args limits baseline s).1 in
        Idle limits baseline env t × IsExcused (t.gpu_late || t.gpu_left) t.trace
  unfolding supervised
  supervised-Idle fuel args s h e =
      let cleaned = clean_up_lem (body fuel args s).1 (body-IsControlled fuel args s h) in
      let quiet : Unit {0} → Run F → Type 0 = λ _ t. Idle limits baseline env t in
      (
        (Post-result quiet (clean_up env (body fuel args s).1) cleaned e).1,
        (Post-state quiet (clean_up env (body fuel args s).1) cleaned).excused,
      )

  -- Whatever the calls return and whichever of them raise, also in the `finally` block: each load
  -- was started only when the last sample before it had passed the guard, and the line of a sample
  -- that did not pass was printed when the CPU load was not running and the GPU load had been stopped
  -- since it was last started; a stopped GPU load's thread was alive then only if a `join` of one had
  -- timed out.
  pub supervised-IsGuarded :
      (fuel : ℕ) (args : Args F) (s : Run F)
      → IsFresh s
      → IsGuarded limits baseline (supervised env fuel args limits baseline s).1.trace
  unfolding supervised
  supervised-IsGuarded fuel args s h =
      (Post-state (λ (_ : Unit {0}) t. Idle limits baseline env t)
        (clean_up env (body fuel args s).1)
        (clean_up_lem (body fuel args s).1 (body-IsControlled fuel args s h))).guarded
