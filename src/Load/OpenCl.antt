-- ===== src/Load/OpenCl.antt =====
-- load.py: `OpenClLoad`.
use thelio_fans.Prelude.{
  if◌then◌else◌, ℕ, zero, suc, ℤ, pos, eq_ℤ, ltb_ℤ, String, concat, Bool, true, false, not, Option,
  none, some, List, [], ◌∷◌, ◌&&◌, ◌==◌,
}
use thelio_fans.Float.{Float, whole, larger}
use thelio_fans.Text.{sanitize}
use thelio_fans.Show.{str_ℤ}
use thelio_fans.Load.State.{
  Slot, context, queue, program, kernel, buffer, created, released, Cl, ClLoad, Result, ok, failed,
  M, ◌>>=◌, ◌>>◌, pure, fail, modify, ask, put, log, present?,
}

abbrev calibrate_iterations : ℕ
calibrate_iterations = 200

abbrev pub min_iterations : ℕ
min_iterations = 100

abbrev pub max_iterations : ℕ
max_iterations = 100000

-- `max(MIN_ITERATIONS, min(MAX_ITERATIONS, scaled))`
unfoldable pub clamped : ℤ → ℤ
clamped scaled =
    let low = if ltb_ℤ scaled (pos max_iterations) then scaled else pos max_iterations in
    if ltb_ℤ (pos min_iterations) low then low else pos min_iterations

-- `_check`
unfoldable pub check : ℤ → String → M (Unit {0})
check err what =
    if eq_ℤ err (pos 0)
    then pure tt
    else fail (concat (what ∷ " failed with OpenCL error " ∷ str_ℤ err ∷ []))

-- `self.<slot> = self._created(...)`, for what a call with the error code `err` returned
unfoldable pub keep : Slot → Option ℕ → String → M (Unit {0})
keep slot (some (suc h)) what = modify (λ s. put slot (some (suc h)) (log (created slot (suc h)) s))
keep slot _ what = fail (concat (what ∷ " returned a null handle" ∷ []))

abbrev pub new_load : ClLoad
new_load = record {
  step = 0;
  trace = [];
  handle = λ _. none;
  device_name = "GPU";
  iterations = pos calibrate_iterations;
  thread = false;
  stopping = false;
  error = none;
}

-- A required object that a call stores: the platform or the device.
unfoldable pub require : Bool → String → M (Unit {0})
require found why = if found then pure tt else fail why

-- `failure`
unfoldable pub failure : ClLoad → Option String
failure s = s.error

-- `if handle:` in the loop of `release`: the object is released, and the attribute reset.
unfoldable pub free : Slot → Option ℕ → ClLoad → ClLoad
free slot none s = s
free slot (some zero) s = s
free slot (some (suc h)) s = put slot none (log (released slot (suc h)) s)

-- The loop of `release`, at one attribute.
unfoldable pub release_slot : Slot → ClLoad → ClLoad
unfolding free
release_slot slot s = free slot (s.handle slot) s

-- The order of `release`.
abbrev pub release_order : List Slot
release_order = buffer ∷ kernel ∷ program ∷ queue ∷ context ∷ []

unfoldable pub release_slots : List Slot → ClLoad → ClLoad
unfolding release_slot
release_slots [] s = s
release_slots (k ∷ ks) s = release_slots ks (release_slot k s)

module _ {F : Type 0} ⦃f : Float F⦄ (cl : Cl F) where
  -- A call that only returns an error code, under `_check`.
  unfoldable pub checked_call : String → M (Unit {0})
  unfolding check
  checked_call what = do err ← ask cl.error_at; check err what

  -- A call of a constructor of OpenCL, under `_created`.
  unfoldable pub create : Slot → String → M (Unit {0})
  unfolding check keep
  create slot what s =
      (do
        let err = cl.error_at s.step
        object ← ask cl.object_at
        check err what
        keep slot object what)
        s

  -- `_set_iterations`
  unfoldable pub set_iterations : ℤ → M (Unit {0})
  unfolding checked_call
  set_iterations n = do modify (λ s. record s { iterations = n }); checked_call "arg 1"

  -- `launch`
  unfoldable pub launch : M (Unit {0})
  unfolding checked_call
  launch = do checked_call "launch"; checked_call "finish"

  -- The name of the device, if the library gives it.
  unfoldable pub name_device : M (Unit {0})
  name_device s =
      (do
        let err = cl.error_at s.step
        name ← ask cl.name_at
        if eq_ℤ err (pos 0)
            then modify (λ s. record s { device_name = sanitize cl.is_printable name })
            else pure tt)
        s

  unfoldable pub find_platform : M (Unit {0})
  unfolding check require
  find_platform s =
      (do
        let err = cl.error_at s.step
        let count = cl.count_at s.step
        platform ← ask cl.object_at
        check err "platform"
        require (not (count == 0) && present? platform) "no OpenCL platform")
        s

  unfoldable pub find_gpu : M (Unit {0})
  unfolding check require
  find_gpu s =
      (do
        let err = cl.error_at s.step
        device ← ask cl.object_at
        check err "GPU device"
        require (present? device) "no OpenCL GPU")
        s

  -- The platform and the device.
  unfoldable pub find_device : M (Unit {0})
  unfolding find_platform find_gpu name_device
  find_device = do find_platform; find_gpu; name_device

  -- The five objects.
  unfoldable pub create_all : M (Unit {0})
  unfolding checked_call create
  create_all = do
    create context "context"
    create queue "queue"
    create program "program"
    checked_call "build"
    create kernel "kernel"
    create buffer "buffer"
    checked_call "arg 0"

  -- `int(CALIBRATE_ITERATIONS * TARGET_LAUNCH_S / took)`, took at least 1e-4
  abbrev pub scaled : F → F → ℤ
  scaled started now = cl.truncate (
      f.div (f.mul (whole calibrate_iterations) (f.decimal 5 2))
        (larger (f.decimal 1 4) (f.sub now started)))

  -- The first launch is timed, and sizes the later ones.
  unfoldable pub calibrate : M (Unit {0})
  unfolding set_iterations launch clamped
  calibrate = do
    set_iterations (pos calibrate_iterations)
    started ← ask cl.clock_at
    launch
    now ← ask cl.clock_at
    set_iterations (clamped (scaled started now))

  -- `_setup`
  unfoldable pub setup : M (Unit {0})
  unfolding find_device create_all calibrate
  setup = do find_device; create_all; calibrate

  -- `stop`: the thread is forgotten unless it outlives the join.
  unfoldable pub stop : ClLoad → ClLoad
  stop s =
      let stopped = record s { stopping = true } in
      if s.thread
      then record stopped { thread = cl.alive_at s.step; step = suc s.step }
      else stopped

  -- `start`
  unfoldable pub start : M (Unit {0})
  start s =
      let t = record s { step = suc s.step } in
      if s.thread && cl.alive_at s.step
      then (failed "GPU load is still running from a previous phase", t)
      else (ok tt, record t { stopping = false; error = none; thread = true })

  -- `release`
  unfoldable pub release : ClLoad → ClLoad
  unfolding stop release_slots
  release s = release_slots release_order (stop s)

  -- `except BaseException: self.release(); raise`
  unfoldable pub released_on_error : Result (Unit {0}) × ClLoad → Result (Unit {0}) × ClLoad
  unfolding release
  released_on_error (ok a, s) = (ok a, s)
  released_on_error (failed why, s) = (failed why, release s)

  -- `__init__`, with the library loaded
  unfoldable pub construct : Result (Unit {0}) × ClLoad
  unfolding setup released_on_error
  construct = released_on_error (setup new_load)

  -- `gpu_load`, with the library loaded: the load, or why there is none.
  unfoldable pub gpu_load : Result String × ClLoad
  unfolding construct
  gpu_load =
      let (r, s) = construct in
      elim r [
        | failed why ↦ (failed why, s)
        | ok _ ↦ (
          ok (
              concat (
                "OpenCL on "
                ∷ s.device_name
                ∷ ", "
                ∷ str_ℤ s.iterations
                ∷ " iterations per launch"
                ∷ [])),
          s,
        )
      ]
