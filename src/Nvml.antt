-- ===== src/Nvml.antt =====
-- src/fanwatch/gpu.py: the NVML session and the reading of a GPU. The library pynvml is an
-- environment: it says what the n-th call returns, or that it raises an Exception.
use Prim.Native.Char.{Char}
use thelio_fans.Prelude.{
  ℕ, zero, suc, ◌*◌, ◌/◌, ◌==◌, ℤ, pos, is_some, filter, String, str_eq, Bool, true, false, not,
  Option, none, some, List, [], ◌∷◌, map, default, if◌then◌else◌,
}
use mathlib.Core.Option
use Prim.Native.Nat.{bit_and}
use thelio_fans.Float.{Float, whole}
use thelio_fans.Snapshot.{Gpu, FanReading}
use thelio_fans.Text.{chars, of_chars, sanitize}
pub mod Balance
mod NvmlTests

-- The getters of a device, after the GPU's handle: none is a call that raises or is lacking.
pub record Getters : Type 0 where
  -- a getter of a c_uint or of a bit mask, by name, with its further arguments
  pub uint : String → List ℕ → Option ℕ
  -- `nvmlDeviceGetName`
  pub name : Option String
  -- the field `gpu` of the utilisation rates
  pub utilization : Option ℕ
  -- the fields `used` and `total` of the memory information, in bytes
  pub memory : Option (ℕ × ℕ)
  -- an `int` attribute of the library; none for one that is lacking or no `int`
  pub constant : String → Option ℕ

-- What a call does.
pub data Answer (A : Type 0) : Type 0 where
  returns : A → Answer A
  raises : Answer A

pub record Nvml : Type 0 where
  -- the binding is installed
  pub installed : Bool
  pub init_at : ℕ → Answer (Unit {0})
  pub handle_at : ℕ → Answer ℕ
  -- what the getters answer in a reading that starts at call n; an exception that `opt` does not
  -- catch (a malformed answer) is raised
  pub getters_at : ℕ → Answer Getters
  pub is_printable : Char → Bool

pub data NvmlCall : Type 0 where
  init shutdown : NvmlCall

-- The session's attributes, and the calls of nvmlInit that succeeded and of nvmlShutdown.
pub record Session : Type 0 where
  pub step : ℕ
  pub trace : List NvmlCall
  pub handle : Option ℕ
  pub initialised : Bool

abbrev pub new_session : Session
new_session = record { step = 0; trace = []; handle = none; initialised = false }

-- `name.removeprefix(prefix)`
unfoldable pub remove_prefix : String → String → String
remove_prefix prefix name = go (chars prefix) (chars name)
  where
    go : List Char → List Char → String
    go [] cs = of_chars cs
    go (p ∷ ps) [] = name
    go (p ∷ ps) (c ∷ cs) =
        let rest = go ps cs in if str_eq (of_chars (p ∷ [])) (of_chars (c ∷ [])) then rest else name

-- `_short_name`
unfoldable pub short_name : String → String
unfolding remove_prefix
short_name name = remove_prefix "NVIDIA " (remove_prefix "NVIDIA GeForce " name)

abbrev throttle_reasons : List (String × String)
throttle_reasons =
    ("nvmlClocksEventReasonHwThermalSlowdown", "hw thermal")
    ∷ ("nvmlClocksEventReasonSwThermalSlowdown", "thermal")
    ∷ ("nvmlClocksEventReasonSwPowerCap", "power cap")
    ∷ ("nvmlClocksEventReasonHwPowerBrakeSlowdown", "power brake")
    ∷ ("nvmlClocksEventReasonHwSlowdown", "hw slowdown")
    ∷ []

-- The name of the GPU.
unfoldable pub gpu_name : (Char → Bool) → Option String → String
unfolding short_name
gpu_name is_printable none = "GPU"
gpu_name is_printable (some name) =
    if str_eq name "" then "GPU" else sanitize is_printable (short_name name)

abbrev mebibytes : ℕ → ℤ
mebibytes bytes = pos (bytes / (1024 * 1024))

module _ (get : Getters) where
  -- `const`
  abbrev const : String → ℕ
  const name = default 0 (get.constant name)

  -- `opt`, for a getter of a number
  abbrev opt : String → List ℕ → Option ℤ
  opt name args = Option.map pos (get.uint name args)

  -- The loop over the fans, from an index: the binding reads the RPM of fan 0 only.
  unfoldable pub fans_from : ℕ → ℕ → List FanReading
  fans_from index zero = []
  fans_from index (suc count) =
      let rpm = if index == 0 then opt "nvmlDeviceGetFanSpeedRPM" [] else none in
      (opt "nvmlDeviceGetFanSpeed_v2" (index ∷ []), rpm) ∷ fans_from (suc index) count

  -- The reasons whose bit the mask has.
  unfoldable pub active_reasons : ℕ → List String
  active_reasons mask =
      map (λ r. r.1) (filter (λ r. not (bit_and mask (const r.0) == 0)) throttle_reasons)

module _ {F : Type 0} ⦃f : Float F⦄ where
  abbrev watts : ℕ → F
  watts milliwatts = f.div (whole milliwatts) (whole 1000)

  -- `_read`
  unfoldable pub reading : (Char → Bool) → Getters → Gpu F
  unfolding fans_from active_reasons gpu_name
  reading is_printable get = record {
    name = gpu_name is_printable get.name;
    temp_c = opt get "nvmlDeviceGetTemperature" (const get "NVML_TEMPERATURE_GPU" ∷ []);
    slowdown_c =
        opt get "nvmlDeviceGetTemperatureThreshold"
          (const get "NVML_TEMPERATURE_THRESHOLD_SLOWDOWN" ∷ []);
    shutdown_c =
        opt get "nvmlDeviceGetTemperatureThreshold"
          (const get "NVML_TEMPERATURE_THRESHOLD_SHUTDOWN" ∷ []);
    fans = fans_from get 0 (default 0 (get.uint "nvmlDeviceGetNumFans" []));
    util_pct = Option.map pos get.utilization;
    power_w = Option.map watts (get.uint "nvmlDeviceGetPowerUsage" []);
    power_limit_w = Option.map watts (get.uint "nvmlDeviceGetEnforcedPowerLimit" []);
    clock_mhz = opt get "nvmlDeviceGetClockInfo" (const get "NVML_CLOCK_GRAPHICS" ∷ []);
    clock_max_mhz = opt get "nvmlDeviceGetMaxClockInfo" (const get "NVML_CLOCK_GRAPHICS" ∷ []);
    mem_clock_mhz = opt get "nvmlDeviceGetClockInfo" (const get "NVML_CLOCK_MEM" ∷ []);
    mem_used_mb = Option.map (λ m. mebibytes m.0) get.memory;
    mem_total_mb = Option.map (λ m. mebibytes m.1) get.memory;
    pstate = opt get "nvmlDeviceGetPerformanceState" [];
    reasons =
        Option.map (active_reasons get) (get.uint "nvmlDeviceGetCurrentClocksEventReasons" []);
  }

-- `close`: an exception of nvmlShutdown is suppressed.
unfoldable pub close : Session → Session
close s =
    if s.initialised
    then record s { handle = none; initialised = false; trace = shutdown ∷ s.trace }
    else record s { handle = none }

module _ (nvml : Nvml) where
  abbrev pub advance : Session → Session
  advance s = record s { step = suc s.step }

  unfoldable pub take_handle : Answer ℕ → Session → Bool × Session
  unfolding close
  take_handle (returns h) s = (true, record s { handle = some h })
  take_handle raises s = (false, close s)

  -- From nvmlInit on.
  unfoldable pub initialise : Answer (Unit {0}) → Session → Bool × Session
  unfolding take_handle
  initialise raises s = (false, close s)
  initialise (returns _) s =
      take_handle (nvml.handle_at s.step)
        (advance (record s { initialised = true; trace = init ∷ s.trace }))

  -- `_open`
  unfoldable pub open_session : Session → Bool × Session
  unfolding initialise
  open_session s =
      if is_some s.handle
      then (true, s)
      else if not nvml.installed
      then (false, s)
      else initialise (nvml.init_at s.step) (advance s)

module _ {F : Type 0} ⦃f : Float F⦄ (nvml : Nvml) where
  -- What `read` does with the answers of the getters.
  unfoldable pub after_reading : Answer (Gpu F) → Session → Option (Gpu F) × Session
  unfolding close
  after_reading raises s = (none, close s)
  after_reading (returns gpu) s = (some gpu, if is_some gpu.temp_c then s else close s)

  abbrev pub answer_of : Answer Getters → Answer (Gpu F)
  answer_of raises = raises
  answer_of (returns get) = returns (reading nvml.is_printable get)

  -- `read`, once `_open` has been called
  unfoldable pub read_opened : Bool × Session → Option (Gpu F) × Session
  unfolding after_reading reading
  read_opened (false, s) = (none, s)
  read_opened (true, s) = after_reading (answer_of (nvml.getters_at s.step)) (advance nvml s)

  -- `read`
  unfoldable pub read : Session → Option (Gpu F) × Session
  unfolding open_session read_opened
  read s = read_opened (open_session nvml s)

  -- A sequence of readings.
  unfoldable pub reads : ℕ → Session → List (Option (Gpu F)) × Session
  unfolding read
  reads zero s = ([], s)
  reads (suc n) s = let (gpu, t) = read s in let (gpus, u) = reads n t in (gpu ∷ gpus, u)

  -- `read_gpu`
  unfoldable pub read_gpu : Option (Gpu F) × Session
  unfolding read close
  read_gpu = let (gpu, s) = read new_session in (gpu, close s)
