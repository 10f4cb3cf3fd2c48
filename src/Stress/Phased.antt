-- ===== src/Stress/Phased.antt =====
-- stress.py, `run`: between two phases no load runs and no GPU load is open.
use mathlib.Core.Path.{subst}
use mathlib.Core.Bool.{false≢true}
use thelio_fans.Prelude.{
  ℕ, zero, suc, ℤ, String, Bool, true, false, ◌&&◌, ◌≡◌, inl, inr, refl, sym, ◌∙◌, Option, none,
  some, is_some, List, [], ◌∷◌, concat, All, All-of_IsIn, IsIn, arith, if◌then◌else◌, if_elim,
  Bool-cases,
}
use thelio_fans.Float.{Float}
use thelio_fans.Stress.Sampling.{Sample, Limits}
use thelio_fans.Stress.Guard.{guard, uses_cpu, uses_gpu}
use thelio_fans.Stress.Exec.{
  Load, cpu, gpu, has, GpuLoad, opened, missing, Event, message, Env, Run, pure, assign, monotonic,
  sample, release, gpu_load, print,
}
use thelio_fans.Stress.Looping.{
  Args, truthy, or_else, start_all, stop_active, checked, tick, rounds,
}
use thelio_fans.Stress.Running.{
  release_held, load_phase, take_gpu, open_gpu, loaded_phase, phase_body, phases_loop,
}
use thelio_fans.Stress.Control.{
  IsControlled, Post, Post-bind, Kept, Kept-bind, Passing, Passes, Off, is_opened, monotonic_lem,
  sample_lem, print_lem, release_lem, gpu_load_lem,
}
use thelio_fans.Stress.Rounds.{start_all_lem, stop_active_lem, tick_lem}

has_self : (ls : List Load) → All (λ l. has l ls ≡ true) ls
has_self ls = All-of_IsIn (λ l. has l ls ≡ true) ls (λ l i. found l ls i)
  where
    found : (l : Load) (ks : List Load) → IsIn l ks → has l ks ≡ true
    found l [] i = absurd i
    found cpu (k ∷ ks) (inl e) = rw (← e) refl
    found gpu (k ∷ ks) (inl e) = rw (← e) refl
    found l (k ∷ ks) (inr i) = ground (arith, found l ks i)

module _ {F : Type 0} ⦃f : Float F⦄ (limits : Limits F) (baseline : Option ℤ) (env : Env F) where
  -- No load runs, and no GPU load is open.
  abbrev pub Idle : Run F → Type 0
  Idle s = Off limits baseline s × (s.gpu_open ≡ false)

  rounds_lem :
      (fuel : ℕ) (phase : String) (end : F) (s : Run F)
      → IsControlled limits baseline s
      → Kept limits baseline (rounds env fuel limits baseline phase end s)
  unfolding rounds
  rounds_lem zero phase end s c = c
  rounds_lem (suc fuel) phase end s c =
      Kept-bind limits baseline _ _ (monotonic env s) (monotonic_lem limits baseline env s c)
        λ now t c' _. elim (Bool-cases (f.lt now end)) [
          | inr e ↦ rw e (c', tt)
          | inl e ↦ rw e (
              Kept-bind limits baseline _ _ (tick env limits baseline phase t)
                (tick_lem limits baseline env phase t c')
                λ go_on u c'' _. elim (Bool-cases go_on) [
                  | inl g ↦ rw g (rounds_lem fuel phase end u c'')
                  | inr g ↦ rw g (c'', tt)
                ])
        ]

  release_held_lem :
      (s : Run F)
      → IsControlled limits baseline s
      → Off limits baseline s
      → Post limits baseline (λ (_ : Unit {0}) t. Idle t) (release_held env s)
  unfolding release_held
  release_held_lem s c o =
      if_elim (Post limits baseline (λ (_ : Unit {0}) t. Idle t)) s.holds_gpu _ _
        (λ e.
          Post-bind limits baseline _ _ (λ _. assign (λ r. record r { holds_gpu = false }))
            (release env s) (release_lem limits baseline env s c) (λ _ t c' q. ground arith))
        (λ e. (c, (o, ground arith)))

  load_phase_lem :
      (fuel : ℕ) (args : Args F) (phase : String) (s : Run F)
      → IsControlled limits baseline s
      → Passing limits baseline s
      → Post limits baseline
          (λ (_ : Bool) t. Idle t)
          (load_phase env fuel args limits baseline phase s)
  unfolding load_phase
  load_phase_lem fuel args phase s c p =
      Post-bind limits baseline _ _ _ (start_all env s.active s)
        (start_all_lem limits baseline env s.active s.active s c p refl (has_self s.active))
        λ _ s1 c1 _.
          Post-bind limits baseline _ _ _ (monotonic env s1)
            (monotonic_lem limits baseline env s1 c1)
            λ now s2 c2 _.
              Post-bind limits baseline _ _ _
                (rounds env fuel limits baseline phase (f.add now args.seconds) s2)
                (rounds_lem fuel phase (f.add now args.seconds) s2 c2)
                λ _ s3 c3 _.
                  Post-bind limits baseline _ _ _ (stop_active env s3)
                    (stop_active_lem limits baseline env s3 c3)
                    λ _ s4 c4 q.
                      Post-bind limits baseline _ _ _ (release_held env s4)
                        (release_held_lem s4 c4 q.0) λ _ s5 c5 i. (c5, i)

  -- The loads are off, the guard was passed, and no GPU load is open unless one is to be used.
  abbrev Ready : Bool → Run F → Type 0
  Ready ready t =
      Off limits baseline t × Passing limits baseline t × (ready ≡ false → t.gpu_open ≡ false)

  take_gpu_lem :
      (got : GpuLoad) (s : Run F)
      → IsControlled limits baseline s
      → Off limits baseline s
      → Passing limits baseline s
      → (is_opened got ≡ false → s.gpu_open ≡ false)
      → Post limits baseline Ready (take_gpu env got s)
  unfolding take_gpu
  take_gpu_lem (opened reason) s c o p n = ground arith
  take_gpu_lem (missing reason) s c o p n =
      let why = concat ("unavailable (" ∷ reason ∷ "), GPU phases skipped" ∷ []) in
      let t = record s { gpu_missing = some reason; gpu_desc = or_else s.gpu_desc why } in
      let line : Event F =
        message (concat ("GPU load unavailable: " ∷ reason ∷ "; skipping GPU phases" ∷ [])) in
      let c' : IsControlled limits baseline t = ground arith in
      Post-bind limits baseline _ Ready (λ _. pure false) (print env line t)
        (print_lem limits baseline env line t tt c')
        (λ _ u c'' q. (
          c'',
          (
            ground arith,
            subst (Passes limits baseline) (sym q.last_same) p,
            λ _. q.open_same ∙ n refl,
          ),
        ))

  -- A chosen GPU load is opened, with the loads still off.
  open_gpu_lem :
      (s : Run F)
      → IsControlled limits baseline s
      → Idle s
      → Passing limits baseline s
      → Post limits baseline Ready (open_gpu env s)
  unfolding open_gpu
  open_gpu_lem s c i p =
      Post-bind limits baseline _ Ready (take_gpu env) (gpu_load env s)
        (gpu_load_lem limits baseline env s c i.1)
        λ got t c' q.
          take_gpu_lem got t c' (ground arith) (subst (Passes limits baseline) (sym q.4) p) q.3

  loaded_phase_lem :
      (fuel : ℕ) (args : Args F) (phase : String) (s : Run F)
      → IsControlled limits baseline s
      → Idle s
      → Passing limits baseline s
      → Post limits baseline
          (λ (_ : Bool) t. Idle t)
          (loaded_phase env fuel args limits baseline phase s)
  unfolding loaded_phase
  loaded_phase_lem fuel args phase s c i p =
      let s1 = record s { active = if uses_cpu phase then cpu ∷ [] else [] } in
      let c1 : IsControlled limits baseline s1 = record {
        cpu_covered = λ e. absurd (false≢true (sym i.0.0 ∙ e));
        gpu_covered = λ e. absurd (false≢true (sym i.0.1 ∙ e));
        gpu_held = c.gpu_held;
        excused = c.excused;
        guarded = c.guarded;
      } in
      Post-bind limits baseline Ready (λ (_ : Bool) t. Idle t) _
        ((if uses_gpu phase then open_gpu env else pure true) s1)
        (if_elim (λ m. Post limits baseline Ready (m s1)) (uses_gpu phase) (open_gpu env)
          (pure true) (λ _. open_gpu_lem s1 c1 i p)
          (λ _. (c1, (i.0, p, λ e. absurd (false≢true (sym e))))))
        λ ready t c' q.
          if_elim (λ m. Post limits baseline (λ (_ : Bool) u. Idle u) (m t)) ready
            (load_phase env fuel args limits baseline phase) (pure true)
            (λ _. load_phase_lem fuel args phase t c' q.1) (λ e. (c', (q.0, q.2 e)))

  checked-none :
      (x : Sample F) → is_some (checked x limits baseline) ≡ false → guard x limits baseline ≡ none
  unfolding checked
  checked-none x h = ground arith

  phase_body_lem :
      (fuel : ℕ) (args : Args F) (phase : String) (s : Run F)
      → IsControlled limits baseline s
      → Idle s
      → Post limits baseline
          (λ (_ : Bool) t. Idle t)
          (phase_body env fuel args limits baseline phase s)
  unfolding phase_body
  phase_body_lem fuel args phase s c i =
      if_elim (Post limits baseline (λ (_ : Bool) t. Idle t))
        (uses_gpu phase && truthy s.gpu_missing) _ _ (λ _. (c, i))
        (λ _.
          Post-bind limits baseline _ (λ (_ : Bool) t. Idle t) _ (sample env phase s)
            (sample_lem limits baseline env phase s c)
            (λ x t c' q.
              let t1 = record t { aborted = checked x limits baseline } in
              let c1 : IsControlled limits baseline t1 = record {
                cpu_covered = c'.cpu_covered;
                gpu_covered = c'.gpu_covered;
                gpu_held = c'.gpu_held;
                excused = c'.excused;
                guarded = c'.guarded;
              } in
              let i1 : Idle t1 = ((q.cpu_same ∙ i.0.0, q.gpu_same ∙ i.0.1), q.open_same ∙ i.1) in
              if_elim (λ m. Post limits baseline (λ (_ : Bool) u. Idle u) (m t1))
                (is_some (checked x limits baseline)) (pure false)
                (loaded_phase env fuel args limits baseline phase) (λ _. (c1, i1))
                (λ e.
                  loaded_phase_lem fuel args phase t1 c1 i1
                    (subst (Passes limits baseline) (sym q.last_is) (checked-none x e)))))

  pub phases_loop_lem :
      (fuel : ℕ) (args : Args F) (phases : List String) (s : Run F)
      → IsControlled limits baseline s
      → Idle s
      → Post limits baseline
          (λ (_ : Unit {0}) t. Idle t)
          (phases_loop env fuel args limits baseline phases s)
  unfolding phases_loop
  phases_loop_lem fuel args [] s c i = (c, i)
  phases_loop_lem fuel args (phase ∷ phases) s c i =
      Post-bind limits baseline _ (λ (_ : Unit {0}) t. Idle t) _
        (phase_body env fuel args limits baseline phase s) (phase_body_lem fuel args phase s c i)
        λ go_on t c' j.
          if_elim (λ m. Post limits baseline (λ (_ : Unit {0}) u. Idle u) (m t)) go_on
            (phases_loop env fuel args limits baseline phases) (pure tt)
            (λ _. phases_loop_lem fuel args phases t c' j) (λ _. (c', j))
