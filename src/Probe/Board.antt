-- ===== src/Probe/Board.antt =====
-- probe.py: `_collect_controllers`, `_collect_throttle`, `_add_gpu` and `collect`.
use thelio_fans.Prelude.{
  ℕ, suc, ◌+◌, ℤ, pos, leb_ℤ, ltb_ℤ, ◌+ℤ◌, String, str_eq, concat, join, Bool, true, false, not,
  ◌&&◌, Option, none, some, default, List, [], ◌∷◌, ◌++◌, map, filter, any, present, length,
  if◌then◌else◌, ◌==◌,
}
use thelio_fans.Float.{Float, max?}
use thelio_fans.Snapshot.{Fan, Controller, Throttle, Gpu, FanReading, Snapshot}
use thelio_fans.Probe.Reading.{Sysfs, under, read_text, read_int, label_or}
use thelio_fans.Probe.Status.{fan_status}
use thelio_fans.Show.{str_ℤ}

abbrev io_driver : String
io_driver = "system76-io"

module _ (fs : Sysfs) where
  -- The dictionary of the interfaces: a directory name is there once.
  unfoldable pub interfaces_of : String → List (String × Option String)
  interfaces_of usb =
      map (λ path. (fs.file_name path, fs.driver path))
        (fs.glob usb (concat (fs.file_name usb ∷ ":*" ∷ [])))

  -- `(vid, pid) != IO_USB_ID`, negated
  unfoldable pub is_io : String → Bool
  is_io usb =
      elim (read_text fs (under usb "idVendor")) [ none ↦ false | some vid ↦ str_eq vid "1209" ]
      && elim (read_text fs (under usb "idProduct")) [ none ↦ false | some pid ↦ str_eq pid "1776" ]

  unfoldable pub controller_at : String → Controller
  unfolding interfaces_of
  controller_at usb = record {
    port = fs.file_name usb;
    product = label_or (read_text fs (under usb "product")) "System76 Io";
    usb_id = "1209:1776";
    devnum = (read_int fs (under usb "devnum") false).0;
    interfaces = interfaces_of usb;
  }

  abbrev is_bound : String × Option String → Bool
  is_bound (name, none) = false
  is_bound (name, some driver) = str_eq driver io_driver

  -- `not interfaces or any(d != IO_DRIVER for d in interfaces.values())`
  unfoldable pub lacks_driver : List (String × Option String) → Bool
  lacks_driver [] = true
  lacks_driver (i ∷ is) = any (λ j. not (is_bound j)) (i ∷ is)

  -- The CPU directories that have throttle counters.
  unfoldable pub throttle_dirs : String → List String
  throttle_dirs root = filter fs.is_dir (
      map (λ c. under c "thermal_throttle") (fs.glob (under root "devices/system/cpu") "cpu[0-9]*"))

  -- `counts(name)`
  unfoldable pub counts : List String → String → List ℤ
  counts dirs name = present (map (λ d. (read_int fs (under d name) false).0) dirs)

  abbrev sum_ℤ : List ℤ → ℤ
  sum_ℤ [] = pos 0
  sum_ℤ (n ∷ ns) = n +ℤ sum_ℤ ns

  unfoldable pub throttle_of : String → List String → Throttle
  unfolding counts max?
  throttle_of root dirs =
      let freq = under root "devices/system/cpu/cpu0/cpufreq" in
      record {
        package_events = default (pos 0) (max? ltb_ℤ (counts dirs "package_throttle_count"));
        core_events = sum_ℤ (counts dirs "core_throttle_count");
        total_ms = default (pos 0) (max? ltb_ℤ (counts dirs "package_throttle_total_time_ms"));
        longest_ms = default (pos 0) (max? ltb_ℤ (counts dirs "package_throttle_max_time_ms"));
        cur_khz = (read_int fs (under freq "scaling_cur_freq") false).0;
        max_khz = (read_int fs (under freq "cpuinfo_max_freq") false).0;
      }

  -- `_collect_throttle`
  unfoldable pub collect_throttle : String → Option Throttle
  unfolding throttle_dirs throttle_of
  collect_throttle root = elim (throttle_dirs root) [
    | [] ↦ none
    | d ∷ ds ↦ some (throttle_of root (d ∷ ds))
  ]

-- `gpu.temp_c is not None and gpu.slowdown_c is not None and gpu.temp_c >= gpu.slowdown_c`
abbrev is_slowed : Option ℤ → Option ℤ → Bool
is_slowed (some t) (some limit) = leb_ℤ limit t
is_slowed _ _ = false

module _ {F : Type 0} ⦃f : Float F⦄ (fs : Sysfs) where
  unfoldable pub add_controller : String → Snapshot F → Snapshot F
  unfolding controller_at lacks_driver
  add_controller usb s = record s {
    controllers = s.controllers ++ (controller_at fs usb ∷ []);
    alerts =
        if lacks_driver fs (interfaces_of fs usb)
        then s.alerts
          ++ (concat
                ("USB " ∷ fs.file_name usb ∷ ": expected " ∷ io_driver ∷ " driver missing" ∷ [])
              ∷ [])
        else s.alerts;
  }

  unfoldable pub controllers_loop : List String → Snapshot F → Snapshot F
  unfolding add_controller is_io
  controllers_loop [] s = s
  controllers_loop (usb ∷ usbs) s =
      controllers_loop usbs (if is_io fs usb then add_controller usb s else s)

  -- `_collect_controllers`
  unfoldable pub collect_controllers : String → Snapshot F → Snapshot F
  unfolding controllers_loop
  collect_controllers root s = controllers_loop (fs.glob (under root "bus/usb/devices") "*") s

  -- The fan that `_add_gpu` appends for a reading at an index.
  unfoldable pub gpu_fan : Gpu F → ℕ → FanReading → Fan F
  gpu_fan gpu index (percent, rpm) =
      let i = str_ℤ (pos index) in
      let channel = concat ("fan" ∷ i ∷ []) in
      record {
        key = concat ("nvml:" ∷ gpu.name ∷ ":" ∷ i ∷ []);
        chip = "nvml";
        channel = channel;
        label = some (concat ("GPU" ∷ i ∷ []));
        name =
            if length gpu.fans == 1
            then "GPU FAN"
            else concat ("GPU FAN " ∷ str_ℤ (pos (index + 1)) ∷ []);
        rpm = rpm;
        duty = elim percent [ none ↦ none | some p ↦ some (f.of_int p) ];
        status = fan_status {F = F} rpm none none false true none;
        error = none;
        note = none;
        path = concat ("nvml:" ∷ channel ∷ []);
      }

  unfoldable pub gpu_fans_from : Gpu F → ℕ → List FanReading → List (Fan F)
  unfolding gpu_fan
  gpu_fans_from gpu index [] = []
  gpu_fans_from gpu index (r ∷ rs) = gpu_fan gpu index r ∷ gpu_fans_from gpu (suc index) rs

  abbrev int_of : Option ℤ → Option F
  int_of none = none
  int_of (some n) = some (f.of_int n)

  abbrev pub reasons_alert : Gpu F → Option (List String) → List String
  reasons_alert gpu none = []
  reasons_alert gpu (some []) = []
  reasons_alert gpu (some (r ∷ rs)) =
      concat ("GPU " ∷ gpu.name ∷ ": throttling (" ∷ join ", " (r ∷ rs) ∷ ")" ∷ []) ∷ []

  -- `_add_gpu`
  unfoldable pub add_gpu : Gpu F → Snapshot F → Snapshot F
  unfolding gpu_fans_from
  add_gpu gpu s = record s {
    gpu = some gpu;
    fans = s.fans ++ gpu_fans_from gpu 0 gpu.fans;
    temperatures =
        s.temperatures
        ++ (record {
          chip = "gpu";
          label = gpu.name;
          celsius = int_of gpu.temp_c;
          critical = int_of gpu.shutdown_c;
          maximum = int_of gpu.slowdown_c;
          error = none;
          key = concat ("gpu:" ∷ gpu.name ∷ []);
        }
            ∷ []);
    alerts =
        s.alerts
        ++ (if is_slowed gpu.temp_c gpu.slowdown_c
            then concat ("GPU " ∷ gpu.name ∷ ": at or above slowdown temperature" ∷ []) ∷ []
            else [])
        ++ reasons_alert gpu gpu.reasons;
  }
