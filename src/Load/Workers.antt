-- ===== src/Load/Workers.antt =====
-- load.py: no worker of `CpuLoad` is left running.
use thelio_fans.Prelude.{
  ℕ, zero, suc, ◌+◌, ◌≤◌, ◌<◌, true, false, not, ◌≡◌, ◌≢◌, refl, sym, ap, ◌∙◌, inl, inr, List, [],
  ◌∷◌, ◌++◌, ◌==◌, filter, length, length-append, All, All-of_IsIn, IsIn, if_elim, arith,
}
use mathlib.Core.Path.{subst}
use thelio_fans.Load.Cpu.{
  System, Cpu, Outcome, returned, raised, and_then, next, gone, call, kill, join, join_all, stop,
  started, start_workers, stopped_on_error, start,
}

-- Each outcome has its property.
abbrev pub Ends : (Cpu → Type 0) → (Cpu → Type 0) → Outcome → Type 0
Ends R E (returned s) = R s
Ends R E (raised s) = E s

and_then-Ends :
    (P R E : Cpu → Type 0) (o : Outcome) (k : Cpu → Outcome)
    → Ends P E o
    → ((s : Cpu) → P s → Ends R E (k s))
    → Ends R E (and_then o k)
and_then-Ends P R E (returned s) k h g = g s h
and_then-Ends P R E (raised s) k h g = h

-- Every live process is in the list.
abbrev Within : List ℕ → Cpu → Type 0
Within ps s = All (λ p. IsIn p ps) s.live

-- Every process that may be running is tracked.
abbrev pub IsTracked : Cpu → Type 0
IsTracked s = Within s.procs s

removed :
    (p : ℕ) (ps live : List ℕ)
    → All (λ q. IsIn q (p ∷ ps)) live
    → All (λ q. IsIn q ps) (filter (λ q. not (q == p)) live)
removed p ps [] h = tt
removed p ps (q ∷ live) (inl e, h) =
    let same : not (q == p) ≡ false = ground (arith, e) in rw same (removed p ps live h)
removed p ps (q ∷ live) (inr i, h) =
    if_elim (All (λ q. IsIn q ps)) (not (q == p)) _ _ (λ _. (i, removed p ps live h))
      (λ _. removed p ps live h)

kept :
    (P : ℕ → Type 0) (p : ℕ) (live : List ℕ) → All P live → All P (filter (λ q. not (q == p)) live)
kept P p [] h = tt
kept P p (q ∷ live) (i, h) =
    if_elim (All P) (not (q == p)) _ _ (λ _. (i, kept P p live h)) (λ _. kept P p live h)

Ends-impl :
    (R R' E E' : Cpu → Type 0) (o : Outcome)
    → ((s : Cpu) → R s → R' s)
    → ((s : Cpu) → E s → E' s)
    → Ends R E o
    → Ends R' E' o
Ends-impl R R' E E' (returned s) g h e = g s e
Ends-impl R R' E E' (raised s) g h e = h s e

none_within : (live : List ℕ) → All (λ p. IsIn p []) live → live ≡ []
none_within [] h = refl
none_within (p ∷ live) h = absurd h.0

-- A list is within itself.
self_within : (ps : List ℕ) → All (λ p. IsIn p ps) ps
self_within ps = All-of_IsIn (λ p. IsIn p ps) ps (λ p i. i)

module _ (sys : System) where
  -- A call raised, at step n or later.
  abbrev Faulty : ℕ → Cpu → Type 0
  Faulty n t = (k : ℕ) × (n ≤ k) × (k < t.step) × (sys.raises_at k ≡ true)

  -- From `s` to `t`, within `stop`: the live processes are tracked, and in `ps`.
  abbrev Held : List ℕ → Cpu → Cpu → Type 0
  Held ps s t =
      Within ps t
      × IsTracked t
      × (t.procs ≡ s.procs)
      × (t.workers ≡ s.workers)
      × (t.stopping ≡ s.stopping)
      × (s.step ≤ t.step)

  abbrev Failed : Cpu → Cpu → Type 0
  Failed s t = IsTracked t × Faulty s.step t

  call-Ends :
      (R E : Cpu → Type 0) (effect : Cpu → Cpu) (s : Cpu)
      → R (next (effect s))
      → (sys.raises_at s.step ≡ true → E (next s))
      → Ends R E (call sys effect s)
  unfolding call
  call-Ends R E effect s r e = if_elim (Ends R E) (sys.raises_at s.step) _ _ e (λ _. r)

  idle-Ends :
      (ps : List ℕ) (s t : Cpu) → Held ps s t → Ends (Held ps s) (Failed s) (call sys (λ u. u) t)
  idle-Ends ps s t (w, i, p, n, b, le) =
      call-Ends (Held ps s) (Failed s) (λ u. u) t (w, i, p, n, b, omega (arith, le))
        (λ e. (i, (t.step, le, omega arith, e)))

  gone-Ends :
      (q : ℕ) (ps : List ℕ) (s t : Cpu)
      → Held (q ∷ ps) s t
      → Ends (Held ps s) (Failed s) (call sys (gone q) t)
  gone-Ends q ps s t (w, i, p, n, b, le) =
      call-Ends (Held ps s) (Failed s) (gone q) t
        (removed q ps t.live w, kept (λ r. IsIn r t.procs) q t.live i, p, n, b, omega (arith, le))
        (λ e. (i, (t.step, le, omega arith, e)))

  kill-Ends :
      (q : ℕ) (ps : List ℕ) (s t : Cpu)
      → Held (q ∷ ps) s t
      → Ends (Held ps s) (Failed s) (kill sys q t)
  unfolding kill
  kill-Ends q ps s t h =
      and_then-Ends (Held ps s) (Held ps s) (Failed s) (call sys (gone q) t) _
        (gone-Ends q ps s t h) (idle-Ends ps s)

  join-Ends :
      (q : ℕ) (ps : List ℕ) (s t : Cpu)
      → Held (q ∷ ps) s t
      → Ends (Held ps s) (Failed s) (join sys q t)
  unfolding join
  join-Ends q ps s t h =
      and_then-Ends (Held (q ∷ ps) s) (Held ps s) (Failed s) (call sys (λ u. u) t) _
        (idle-Ends (q ∷ ps) s t h)
        (λ u h'.
          if_elim (Ends (Held ps s) (Failed s)) (sys.exited_at u.step) _ _
            (λ _. gone-Ends q ps s u h')
            (λ _.
              and_then-Ends (Held (q ∷ ps) s) (Held ps s) (Failed s) (call sys (λ v. v) u) _
                (idle-Ends (q ∷ ps) s u h') (kill-Ends q ps s)))

  join_all-Ends :
      (ps : List ℕ) (s t : Cpu)
      → Held ps s t
      → Ends (Held [] s) (λ u. Failed s u × (ps ≢ [])) (join_all sys ps t)
  unfolding join_all
  join_all-Ends [] s t h = h
  join_all-Ends (q ∷ ps) s t h =
      and_then-Ends (Held ps s) (Held [] s) (λ u. Failed s u × (q ∷ ps ≢ [])) (join sys q t) _
        (Ends-impl (Held ps s) (Held ps s) (Failed s) _ (join sys q t) (λ u k. k)
          (λ u e. (e, λ n. cc)) (join-Ends q ps s t h))
        (λ u h'.
          Ends-impl (Held [] s) (Held [] s) (λ v. Failed s v × (ps ≢ [])) _ (join_all sys ps u)
            (λ v k. k) (λ v e. (e.0, λ n. cc)) (join_all-Ends ps s u h'))

  -- After `stop`: no process is live or tracked, and the flag is set.
  abbrev pub IsStopped : Cpu → Cpu → Type 0
  IsStopped s t =
      (t.live ≡ [])
      × (t.procs ≡ [])
      × (t.stopping ≡ true)
      × (t.workers ≡ s.workers)
      × (s.step ≤ t.step)

  stop-Ends :
      (s : Cpu) → IsTracked s → Ends (IsStopped s) (λ t. Failed s t × (s.procs ≢ [])) (stop sys s)
  unfolding stop
  stop-Ends s i =
      let t = record s { stopping = true } in
      and_then-Ends (Held [] t) (IsStopped s) (λ u. Failed s u × (s.procs ≢ []))
        (join_all sys s.procs t) _ (join_all-Ends s.procs t t (i, i, refl, refl, refl, omega arith))
        (λ u (w, j, p, n, b, le). (none_within u.live w, refl, b, n, le))

  -- The processes tracked are those that may be running.
  abbrev Running : ℕ → Cpu → Cpu → Type 0
  Running n s t =
      (t.live ≡ t.procs)
      × (length t.procs ≡ length s.procs + n)
      × (t.workers ≡ s.workers)
      × (t.stopping ≡ s.stopping)
      × (s.step ≤ t.step)

  start_workers-Ends :
      (n : ℕ) (s : Cpu)
      → s.live ≡ s.procs
      → Ends (Running n s) (λ t. (t.live ≡ t.procs) × Faulty s.step t) (start_workers sys n s)
  unfolding start_workers
  start_workers-Ends zero s e = (e, omega arith, refl, refl, omega arith)
  start_workers-Ends (suc n) s e =
      and_then-Ends (Running 1 s) (Running (suc n) s) _ (call sys (started sys s.step) s) _
        (call-Ends (Running 1 s) _ (started sys s.step) s
          (
            ap (λ l. l ++ (s.step ∷ [])) e,
            length-append s.procs (s.step ∷ []),
            refl,
            refl,
            omega arith,
          )
          (λ r. (e, (s.step, omega arith, omega arith, r))))
        (λ t (e', size, w, b, le).
          Ends-impl (Running n t) (Running (suc n) s) (λ u. (u.live ≡ u.procs) × Faulty t.step u) _
            (start_workers sys n t)
            (λ u (e'', size', w', b', le').
              (e'', omega (arith, size, size'), w' ∙ w, b' ∙ b, omega (arith, le, le')))
            (λ u (e'', (k, ge, lt, r)). (e'', (k, omega (arith, le, ge), lt, r)))
            (start_workers-Ends n t e'))

  -- Of the calls, at most one raises.
  abbrev pub AtMostOne : Type 0
  AtMostOne = (j k : ℕ) → sys.raises_at j ≡ true → sys.raises_at k ≡ true → j ≡ k

  -- A start that raised leaves every process that may be running tracked, and none running if none
  -- was tracked before and the clean-up was not interrupted in turn.
  abbrev pub IsUnstarted : Cpu → Cpu → Type 0
  IsUnstarted s t = IsTracked t × (s.procs ≡ [] → AtMostOne → t.live ≡ [])

  running-IsTracked : (t : Cpu) → t.live ≡ t.procs → IsTracked t
  running-IsTracked t e = subst (λ l. All (λ p. IsIn p t.procs) l) (sym e) (self_within t.procs)

  stopped-IsTracked : (s t : Cpu) → IsStopped s t → IsTracked t
  stopped-IsTracked s t (l, p, b, w, le) = subst (All (λ q. IsIn q t.procs)) (sym l) tt

  cleaned-Ends :
      (R : Cpu → Type 0) (s : Cpu) (n : ℕ) (o : Outcome)
      → Ends R (λ t. (t.live ≡ t.procs) × Faulty n t) o
      → Ends R (IsUnstarted s) (stopped_on_error sys o)
  unfolding stopped_on_error
  cleaned-Ends R s n (returned t) h = h
  cleaned-Ends R s n (raised t) (e, (k, ge, lt, r)) =
      and_then-Ends (IsStopped t) R (IsUnstarted s) (stop sys t) raised
        (Ends-impl (IsStopped t) (IsStopped t) (λ u. Failed t u × (t.procs ≢ [])) (IsUnstarted s)
          (stop sys t) (λ u q. q)
          (λ u ((i, (m, ge', lt', r')), _).
            (i, λ _ once. absurd (omega (arith, once k m r r', lt, ge'))))
          (stop-Ends t (running-IsTracked t e)))
        (λ u q. (stopped-IsTracked t u q, λ _ _. q.0))

  -- `start` and `stop` of the CPU load, whichever calls raise, if every process that may be running
  -- was tracked. A stop that returns leaves none running or tracked, and the flag set. A start that
  -- returns leaves the flag clear and as many processes running as there are workers, all tracked.
  -- A start that raises leaves none running if none was tracked before and no second call raised.
  -- In any case, every process that may be running is tracked.
  pub cpu_load-IsTracked :
      (s : Cpu)
      → IsTracked s
      → Ends (IsStopped s) IsTracked (stop sys s)
        × Ends
            (λ t. (t.live ≡ t.procs) × (length t.procs ≡ s.workers) × (t.stopping ≡ false))
            (IsUnstarted s)
            (start sys s)
  unfolding start
  cpu_load-IsTracked s i =
      let stopping = stop-Ends s i in
      (
        Ends-impl (IsStopped s) (IsStopped s) _ IsTracked (stop sys s) (λ t q. q) (λ t e. e.0.0)
            stopping,
        and_then-Ends (IsStopped s) _ (IsUnstarted s) (stop sys s) _
            (Ends-impl (IsStopped s) (IsStopped s) _ (IsUnstarted s) (stop sys s) (λ t q. q)
              (λ t (e, some_process). (e.0, λ n. absurd (some_process n))) stopping)
            (λ t (l, p, b, w, le).
              let u = record t { stopping = false } in
              Ends-impl (λ v. Running t.workers u v) _ (IsUnstarted s) (IsUnstarted s) _
                (λ v (e, size, w', b', le'). (e, omega (arith, size, ap length p, w), b'))
                (λ v q. q)
                (cleaned-Ends (Running t.workers u) s u.step (start_workers sys t.workers u)
                  (start_workers-Ends t.workers u (l ∙ sym p)))),
      )
