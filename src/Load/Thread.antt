-- ===== src/Load/Thread.antt =====
-- load.py: the loop of the GPU thread, and `_open_library`.
use thelio_fans.Prelude.{
  ℕ, zero, suc, ◌+◌, ◌≤◌, ◌<◌, String, Bool, true, ◌≡◌, refl, ◌⊎◌, inl, inr, Option, none, some,
  List, [], ◌∷◌, if_elim, if◌then◌else◌, arith,
}
use thelio_fans.Float.{Float}
use thelio_fans.Load.State.{Cl, ClLoad, Result, ok, failed}
use thelio_fans.Load.OpenCl.{launch, failure, checked_call, check}

abbrev pub polled : ClLoad → ClLoad
polled s = record s { step = suc s.step }

module _ {F : Type 0} ⦃f : Float F⦄ (cl : Cl F) where
  -- What `_loop` does after a launch: it ends on an OpenClError, which it keeps.
  abbrev pub after_launch : Result (Unit {0}) × ClLoad → (ClLoad → Option ClLoad) → Option ClLoad
  after_launch (ok _, s) again = again s
  after_launch (failed why, s) again = some (record s { error = some why })

  -- `_loop`, where `is_set n` is what a poll of the flag at call `n` gives
  unfoldable pub loop : (ℕ → Bool) → ℕ → ClLoad → Option ClLoad
  unfolding launch
  loop is_set zero s = none
  loop is_set (suc fuel) s =
      let again = loop is_set fuel in
      if is_set s.step then some (polled s) else after_launch (launch cl (polled s)) again

  -- The last call was a poll that found the flag set, or the loop kept an error that `failure`
  -- returns.
  abbrev pub IsEnded : (ℕ → Bool) → ClLoad → Type 0
  IsEnded is_set t =
      ((n : ℕ) × (t.step ≡ suc n) × (is_set n ≡ true)) ⊎ ((why : String) × (failure t ≡ some why))

  abbrev Ended : (ℕ → Bool) → Option ClLoad → Type 0
  Ended is_set none = ⊥
  Ended is_set (some t) = IsEnded is_set t

  launch_later : (s : ClLoad) → s.step ≤ (launch cl s).1.step
  unfolding launch checked_call check
  launch_later s = ground arith

  after_launch-Ended :
      (is_set : ℕ → Bool) (r : Result (Unit {0}) × ClLoad) (again : ClLoad → Option ClLoad)
      → Ended is_set (again r.1)
      → Ended is_set (after_launch r again)
  unfolding failure
  after_launch-Ended is_set (ok u, s) again h = h
  after_launch-Ended is_set (failed why, s) again h = inr (why, refl)

  loop-Ended :
      (is_set : ℕ → Bool) (bound fuel : ℕ) (s : ClLoad)
      → ((n : ℕ) → bound ≤ n → is_set n ≡ true)
      → 0 < fuel
      → bound < s.step + fuel
      → Ended is_set (loop is_set fuel s)
  unfolding loop
  loop-Ended is_set bound zero s set pos_fuel enough = absurd (omega (arith, pos_fuel))
  loop-Ended is_set bound (suc fuel) s set pos_fuel enough =
      if_elim (Ended is_set) (is_set s.step) _ _ (λ e. inl (s.step, refl, e))
        (λ e.
          let early : s.step < bound = ground (arith, set s.step, e) in
          after_launch-Ended is_set (launch cl (polled s)) (loop is_set fuel) (
            loop-Ended is_set bound fuel (launch cl (polled s)).1 set (omega (arith, early, enough))
              (omega (arith, enough, launch_later (polled s)))))

  -- If the flag is found set from some call on, the loop of the GPU thread ends within as many
  -- rounds and one; its last call was a poll that found the flag set, or it met an OpenClError,
  -- which `failure` then returns.
  pub loop_ends :
      (is_set : ℕ → Bool) (bound fuel : ℕ) (s : ClLoad)
      → ((n : ℕ) → bound ≤ n → is_set n ≡ true)
      → bound < fuel
      → (t : ClLoad) × (loop is_set fuel s ≡ some t) × IsEnded is_set t
  loop_ends is_set bound fuel s set enough =
      ended (loop is_set fuel s)
        (loop-Ended is_set bound fuel s set (omega (arith, enough)) (omega (arith, enough)))
    where
      ended : (o : Option ClLoad) → Ended is_set o → (t : ClLoad) × (o ≡ some t) × IsEnded is_set t
      ended none h = absurd h
      ended (some t) h = (t, refl, h)

-- The names of `PROTOTYPES`.
abbrev pub prototypes : List String
prototypes =
    "clGetPlatformIDs" ∷ "clGetDeviceIDs" ∷ "clGetDeviceInfo" ∷ "clCreateContext"
    ∷ "clCreateCommandQueue" ∷ "clCreateProgramWithSource" ∷ "clBuildProgram" ∷ "clCreateKernel"
    ∷ "clCreateBuffer" ∷ "clSetKernelArg" ∷ "clEnqueueNDRangeKernel" ∷ "clFinish"
    ∷ "clReleaseMemObject" ∷ "clReleaseKernel" ∷ "clReleaseProgram" ∷ "clReleaseCommandQueue"
    ∷ "clReleaseContext" ∷ []

-- `ctypes.CDLL`: a handle, or none for an OSError; and whether a library has a function, where an
-- AttributeError says that it has not.
pub record Linker : Type 0 where
  pub load : String → Option ℕ
  pub has : ℕ → String → Bool

pub data Library : Type 0 where
  opened : ℕ → Library
  lacking : String → Library
  not_found : String → Library

-- The loop over `PROTOTYPES`.
unfoldable pub declare : Linker → ℕ → List String → Library
declare linker cl [] = opened cl
declare linker cl (fn ∷ fns) =
    let rest = declare linker cl fns in if linker.has cl fn then rest else lacking fn

unfoldable pub open_named : Linker → List String → Library
unfolding declare
open_named linker [] = not_found "libOpenCL.so not found; is the NVIDIA driver installed?"
open_named linker (name ∷ names) = elim (linker.load name) [
  | none ↦ open_named linker names
  | some cl ↦ declare linker cl prototypes
]

-- `_open_library`
unfoldable pub open_library : Linker → Library
unfolding open_named
open_library linker = open_named linker ("libOpenCL.so.1" ∷ "libOpenCL.so" ∷ [])
