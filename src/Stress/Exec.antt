-- ===== src/Stress/Exec.antt =====
-- stress.py, `run`: its local variables, the world that it acts on, and the calls that it makes.
-- Any call may raise: KeyboardInterrupt, or an error of the operating system or of OpenCL. The
-- environment says what the n-th call returns, whether it raises, and whether it took effect then.
use thelio_fans.Prelude.{
  ℕ, suc, ℤ, String, Bool, true, false, ◌||◌, ◌&&◌, Option, none, some, List, [], ◌∷◌,
  if◌then◌else◌,
}
use thelio_fans.Float.{Float}
use thelio_fans.Snapshot.{Snapshot}
use thelio_fans.Stress.Sampling.{Sample, Limits, sample_from}
use thelio_fans.Stress.Guard.{Reason}
use thelio_fans.Stress.Summary.{PhaseSummary}

-- The two loads of load.py.
pub data Load : Type 0 where
  cpu gpu : Load

abbrev same_load : Load → Load → Bool
same_load cpu cpu = true
same_load gpu gpu = true
same_load _ _ = false

abbrev pub has : Load → List Load → Bool
has l [] = false
has l (k ∷ ks) = same_load l k || has l ks

pub data Exception : Type 0 where
  interrupt : Exception
  error : String → Exception

-- Why the phases ended early.
pub data Aborted (F : Type 0) : Type 0 where
  guarded : Reason F → Aborted F
  load_failed : String → Aborted F
  interrupted : Aborted F

-- What `gpu_load()` returns: a load and its description, or the reason that there is none.
pub data GpuLoad : Type 0 where
  opened : String → GpuLoad
  missing : String → GpuLoad

-- What happened, newest first. A line of a sample carries whether the CPU load was running, the GPU
-- load had not been stopped, and a stopped GPU load's thread was still alive, when it was printed.
-- `timed_out` is the end of a `join` that waited its ten seconds for a thread in vain.
pub data Event (F : Type 0) : Type 0 where
  sampled : Sample F → Event F
  started : Load → Event F
  live_line : Sample F → Bool → Bool → Bool → Event F
  timed_out : Event F
  slept : F → Event F
  message : String → Event F
  limits_line : Limits F → Option ℤ → Event F
  blank_line : Event F
  report_text : String → Event F
  report_json : List (PhaseSummary F) → Option (Aborted F) → Option String → Event F

pub record Env (F : Type 0) : Type 0 where
  pub snapshot_at : ℕ → Snapshot F
  pub clock_at : ℕ → F
  pub gpu_at : ℕ → GpuLoad
  pub failure_at : ℕ → Load → Option String
  pub raises_at : ℕ → Option Exception
  pub took_effect_at : ℕ → Bool
  -- the thread of a GPU load that was started is alive, at a `start` or after the `join` of a `stop`
  pub alive_at : ℕ → Bool

pub record Run (F : Type 0) : Type 0 where
  pub step : ℕ
  pub trace : List (Event F)
  -- a process of the CPU load may be running
  pub cpu_on : Bool
  -- the GPU load has a thread, and no `stop` has returned since it was started
  pub gpu_on : Bool
  -- its thread was told to stop, and was alive when the last `stop` returned
  pub gpu_late : Bool
  -- so was the thread of an earlier GPU load, when it was released
  pub gpu_left : Bool
  pub gpu_open : Bool
  pub session_open : Bool
  -- the local variables of `run`; `holds_gpu` is `gpu is not None`
  pub samples : List (Sample F)
  pub aborted : Option (Aborted F)
  pub active : List Load
  pub holds_gpu : Bool
  pub gpu_desc : Option String
  pub gpu_missing : Option String

pub data Outcome (A : Type 0) : Type 0 where
  ok : A → Outcome A
  raised : Exception → Outcome A
  out_of_fuel : Outcome A

abbrev pub M : Type 0 → Type 0 → Type 0
M F A = Run F → Outcome A × Run F

module _ {F : Type 0} where
  abbrev pub then_do : {A B : Type 0} → (A → M F B) → Outcome A × Run F → Outcome B × Run F
  then_do k (ok a, s) = k a s
  then_do k (raised e, s) = (raised e, s)
  then_do k (out_of_fuel, s) = (out_of_fuel, s)

  infixl 5 ◌>>=◌ ◌>>◌
  abbrev pub ◌>>=◌ : {A B : Type 0} → M F A → (A → M F B) → M F B
  ◌>>=◌ m k s = then_do k (m s)

  abbrev pub ◌>>◌ : {B : Type 0} → M F (Unit {0}) → M F B → M F B
  m >> k = m >>= λ _. k

  abbrev pub pure : {A : Type 0} → A → M F A
  pure a s = (ok a, s)

  -- An assignment to a local variable: it raises nothing.
  abbrev pub assign : (Run F → Run F) → M F (Unit {0})
  assign g s = (ok tt, g s)

  abbrev pub next : Run F → Run F
  next s = record s { step = suc s.step }

  abbrev pub log : Event F → Run F → Run F
  log e s = record s { trace = e ∷ s.trace }

  abbrev set_on : Load → Bool → Run F → Run F
  set_on cpu on s = record s { cpu_on = on }
  set_on gpu on s = record s { gpu_on = on; gpu_late = false }

  -- What a `stop` does that runs to its end: the thread of the GPU load may outlive the `join`.
  abbrev pub stop_effect : Bool → Load → Run F → Run F
  stop_effect alive cpu s = record s { cpu_on = false }
  stop_effect alive gpu s =
      if alive && (s.gpu_on || s.gpu_late)
      then log timed_out (record s { gpu_on = false; gpu_late = true })
      else record s { gpu_on = false; gpu_late = false }

  -- `start` refuses to run a GPU load whose thread is alive.
  abbrev pub is_blocked : Bool → Load → Run F → Bool
  is_blocked alive cpu s = false
  is_blocked alive gpu s = alive && (s.gpu_on || s.gpu_late)

module _ {F : Type 0} ⦃f : Float F⦄ (env : Env F) where
  -- A call with an effect on the world.
  unfoldable pub call : {A : Type 0} → (Run F → Run F) → (ℕ → A) → M F A
  call effect answer s =
      let n = s.step in
      elim (env.raises_at n) [
        | none ↦ (ok (answer n), next (effect s))
        | some e ↦ (raised e, next (if env.took_effect_at n then effect s else s))
      ]

  -- `fresh()` and `time.monotonic()`
  unfoldable pub fresh : M F (Snapshot F)
  unfolding call
  fresh = call (λ s. s) env.snapshot_at

  unfoldable pub monotonic : M F F
  unfolding call
  monotonic = call (λ s. s) env.clock_at

  -- `sample(phase)`; the event stands for the value that it returns
  unfoldable pub sample : String → M F (Sample F)
  unfolding fresh monotonic
  sample phase = do
    snapshot ← fresh
    now ← monotonic
    let s = sample_from snapshot phase (some now)
    assign (log (sampled s))
    pure s

  -- `load.start()`: even if it raises, the load may have been left running
  unfoldable pub start : Load → M F (Unit {0})
  unfolding call
  start l s =
      if is_blocked (env.alive_at s.step) l s
      then (raised (error "GPU load is still running from a previous phase"), next s)
      else call (λ t. log (started l) (set_on l true t)) (λ _. tt) s

  -- `load.stop()`; one that raises before its end leaves the load as not stopped
  unfoldable pub stop : Load → M F (Unit {0})
  unfolding call
  stop l s = call (stop_effect (env.alive_at s.step) l) (λ _. tt) s

  -- `load.failure()`
  unfoldable pub failure : Load → M F (Option String)
  unfolding call
  failure l = call (λ s. s) (λ n. env.failure_at n l)

  -- `gpu.release()`: `stop`, whatever the thread does then, and the calls that free the objects
  unfoldable pub release : M F (Unit {0})
  unfolding stop call
  release = stop gpu >> call (λ s. record s { gpu_open = false }) (λ _. tt)

  abbrev open_effect : GpuLoad → Run F → Run F
  open_effect (opened d) s = record s {
    gpu_open = true;
    holds_gpu = true;
    gpu_late = false;
    gpu_left = s.gpu_left || s.gpu_late;
  }
  open_effect (missing r) s = record s { holds_gpu = false }

  -- `gpu, reason = gpu_load()`: a constructor that raises has released what it opened
  unfoldable pub gpu_load : M F GpuLoad
  gpu_load s =
      let n = s.step in
      elim (env.raises_at n) [
        | none ↦ (ok (env.gpu_at n), next (open_effect (env.gpu_at n) s))
        | some e ↦ (raised e, next s)
      ]

  unfoldable pub print : Event F → M F (Unit {0})
  unfolding call
  print e = call (log e) (λ _. tt)

  -- `print(_live_line(s), flush=True)`
  unfoldable pub print_live : Sample F → M F (Unit {0})
  unfolding call
  print_live x =
      call (λ s. log (live_line x s.cpu_on s.gpu_on (s.gpu_late || s.gpu_left)) s) (λ _. tt)
