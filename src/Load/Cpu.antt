-- ===== src/Load/Cpu.antt =====
-- load.py: `_spin` and `CpuLoad`. The operating system is an environment: whether the n-th call
-- raises, and whether a process asked for at that call has exited by itself. A process is named by
-- the call that started it, and one whose start raises does not run.
use thelio_fans.Prelude.{
  ℕ, zero, suc, ℤ, pos, pos_part, eq_ℤ, String, concat, Bool, true, false, not, Option, none, some,
  List, [], ◌∷◌, ◌++◌, ◌==◌, filter, if◌then◌else◌,
}
use thelio_fans.Float.{Float}
use thelio_fans.Show.{str_ℤ}

module _ {F : Type 0} ⦃f : Float F⦄ where
  -- `for _ in range(n): a = a * 1.0000001 + 0.1`
  unfoldable pub burn : ℕ → F → F
  burn zero a = a
  burn (suc n) a = burn n (f.add (f.mul a (f.decimal 10_000_001 7)) (f.decimal 1 1))

  -- A round of `_spin`; `huge` is the literal 1e300.
  unfoldable pub spin_round : F → F → F
  unfolding burn
  spin_round huge a = let b = burn 100_000 a in if f.lt huge b then f.decimal 10 1 else b

  -- `_spin`, where the n-th poll of the flag gives `is_set n`: the rounds done
  unfoldable pub spin : F → (ℕ → Bool) → ℕ → ℕ → F → Option ℕ
  unfolding spin_round
  spin huge is_set zero n a = none
  spin huge is_set (suc fuel) n a = elim (is_set n) [
    | true ↦ some n
    | false ↦ spin huge is_set fuel (suc n) (spin_round huge a)
  ]

pub record System : Type 0 where
  pub raises_at : ℕ → Bool
  pub exited_at : ℕ → Bool

-- The attributes of `CpuLoad`, and the processes that were started and neither seen to have exited
-- nor killed.
pub record Cpu : Type 0 where
  pub step : ℕ
  pub workers : ℕ
  pub stopping : Bool
  pub procs : List ℕ
  pub live : List ℕ

-- `workers or os.cpu_count() or 1`
abbrev pub or_count : Option ℤ → ℤ → ℤ
or_count none n = n
or_count (some w) n = if eq_ℤ w (pos 0) then n else w

-- `__init__`; `range` of a negative number is empty
unfoldable pub new_cpu : Option ℤ → Option ℤ → Cpu
new_cpu workers cpu_count = record {
  step = 0;
  workers = pos_part (or_count workers (or_count cpu_count (pos 1)));
  stopping = false;
  procs = [];
  live = [];
}

-- How a method ends.
pub data Outcome : Type 0 where
  returned : Cpu → Outcome
  raised : Cpu → Outcome

abbrev pub and_then : Outcome → (Cpu → Outcome) → Outcome
and_then (returned s) k = k s
and_then (raised s) k = raised s

abbrev pub next : Cpu → Cpu
next s = record s { step = suc s.step }

-- The process ended.
abbrev pub gone : ℕ → Cpu → Cpu
gone p s = record s { live = filter (λ q. not (q == p)) s.live }

module _ (sys : System) where
  -- A call that has no effect if it raises.
  unfoldable pub call : (Cpu → Cpu) → Cpu → Outcome
  call effect s = if sys.raises_at s.step then raised (next s) else returned (next (effect s))

  -- `p.kill(); p.join(timeout=5)`
  unfoldable pub kill : ℕ → Cpu → Outcome
  unfolding call
  kill p s = and_then (call (gone p) s) (call (λ t. t))

  -- The body of the loop of `stop`: `join`, and `kill` if the process is still alive.
  unfoldable pub join : ℕ → Cpu → Outcome
  unfolding call kill
  join p s =
      and_then (call (λ t. t) s)
        (λ t. if sys.exited_at t.step then call (gone p) t else and_then (call (λ u. u) t) (kill p))

  unfoldable pub join_all : List ℕ → Cpu → Outcome
  unfolding join
  join_all [] s = returned s
  join_all (p ∷ ps) s = and_then (join p s) (join_all ps)

  -- `stop`
  unfoldable pub stop : Cpu → Outcome
  unfolding join_all
  stop s =
      and_then (join_all s.procs (record s { stopping = true }))
        (λ t. returned (record t { procs = [] }))

  abbrev pub started : ℕ → Cpu → Cpu
  started p s = record s { procs = s.procs ++ (p ∷ []); live = s.live ++ (p ∷ []) }

  -- The loop of `start`.
  unfoldable pub start_workers : ℕ → Cpu → Outcome
  unfolding call
  start_workers zero s = returned s
  start_workers (suc n) s = and_then (call (started s.step) s) (start_workers n)

  -- `except BaseException: self.stop(); raise`
  unfoldable pub stopped_on_error : Outcome → Outcome
  unfolding stop
  stopped_on_error (returned s) = returned s
  stopped_on_error (raised s) = and_then (stop s) raised

  -- `start`
  unfoldable pub start : Cpu → Outcome
  unfolding stop start_workers stopped_on_error
  start s =
      and_then (stop s)
        (λ t. stopped_on_error (start_workers t.workers (record t { stopping = false })))

  -- The processes of a list that have exited; the n-th is asked at call `n`.
  unfoldable pub dead : ℕ → List ℕ → ℕ
  dead n [] = 0
  dead n (p ∷ ps) = let rest = dead (suc n) ps in if sys.exited_at n then suc rest else rest

  -- `failure`
  unfoldable pub failure : Cpu → Option String
  unfolding dead
  failure s =
      let n = dead s.step s.procs in
      if n == 0
      then none
      else some (concat (str_ℤ (pos n) ∷ " CPU load worker(s) exited early" ∷ []))
