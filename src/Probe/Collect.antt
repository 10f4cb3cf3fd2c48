-- ===== src/Probe/Collect.antt =====
-- probe.py, `collect`: one snapshot, and what it means that it has no alert.
use mathlib.Core.Path.{subst}
use mathlib.Core.Bool.{and-false}
use thelio_fans.Prelude.{
  ℕ, suc, String, str_eq, Bool, true, false, ◌≡◌, ◌≢◌, refl, sym, Option, none, some, List, [], ◌∷◌,
  ◌++◌, map, any, All, All-append, arith, if◌then◌else◌, if_elim,
}
use thelio_fans.Float.{Float}
use thelio_fans.Snapshot.{Fan, Gpu, FanReading, Controller, Snapshot, Value}
use thelio_fans.Probe.Reading.{Sysfs, under, read_text, label_or}
use thelio_fans.Probe.Indices.{fan_indices}
use thelio_fans.Probe.Fans.{fan_at, fan_alerts, is_alerted, collect_fans, collect_fans_lem}
use thelio_fans.Probe.Temperatures.{collect_temperatures, collect_temperatures_lem}
use thelio_fans.Probe.Board.{
  collect_controllers, controllers_loop, add_controller, collect_throttle, add_gpu, gpu_fans_from,
  is_io, lacks_driver, interfaces_of, reasons_alert,
}

append-nil_left : {A : Type 0} (xs ys : List A) → xs ++ ys ≡ [] → (xs ≡ []) × (ys ≡ [])
append-nil_left [] ys h = (refl, h)
append-nil_left (x ∷ xs) ys h = cc

module _ {F : Type 0} ⦃f : Float F⦄ (fs : Sysfs) where
  hwmon_loop : List String → Snapshot F → Snapshot F
  hwmon_loop [] s = s
  hwmon_loop (hw ∷ hws) s =
      let chip = label_or (read_text fs (under hw "name")) (fs.file_name hw) in
      hwmon_loop hws (collect_temperatures fs hw chip (collect_fans fs hw chip s))

  abbrev add_gpu? : Option (Gpu F) → Snapshot F → Snapshot F
  add_gpu? none s = s
  add_gpu? (some gpu) s = add_gpu fs gpu s

  abbrev pub is_io_fan : Fan F → Bool
  is_io_fan fan = str_eq fan.chip "system76_io"

  no_board_alert : Snapshot F → List String
  no_board_alert s = elim s.controllers [
    | [] ↦ "System76 Io USB controller (1209:1776) not detected" ∷ []
    | _ ∷ _ ↦ []
  ]

  no_fans_alert : List (Fan F) → List Controller → List String
  no_fans_alert [] boards = "No fan sensors available; rotation cannot be verified" ∷ []
  no_fans_alert (fan ∷ fans) [] = []
  no_fans_alert (fan ∷ fans) (_ ∷ _) =
      if any is_io_fan (fan ∷ fans)
      then []
      else "System76 controller detected but its fan readings are unavailable" ∷ []

  -- The alerts at the end of `collect`.
  last_alerts : Snapshot F → Snapshot F
  unfolding no_board_alert no_fans_alert
  last_alerts s = record s {
    alerts = (s.alerts ++ no_board_alert s) ++ no_fans_alert s.fans s.controllers;
  }

  -- The snapshot at the start.
  abbrev empty_snapshot : String → F → Snapshot F
  empty_snapshot root time = record {
    timestamp = time;
    machine = label_or (read_text fs (under root "class/dmi/id/product_name")) "Linux device";
    fans = [];
    temperatures = [];
    controllers = [];
    alerts = [];
    throttle = none;
    gpu = none;
    controller = none;
  }

  -- All of `collect` but its last three tests.
  unfoldable pub gathered :
      String → F → Option (Gpu F) → Option (List (String × Value F)) → Snapshot F
  unfolding hwmon_loop
  gathered root time gpu state =
      let s₁ =
        hwmon_loop (fs.glob (under root "class/hwmon") "hwmon*") (empty_snapshot root time) in
      let s₂ = collect_controllers fs root s₁ in
      let s₃ = add_gpu? gpu (record s₂ { throttle = collect_throttle fs root }) in
      record s₃ { controller = state }

  -- `collect`, with the clock's time, what the GPU reader returns, and what `read_state` returns.
  unfoldable pub collect :
      String → F → Option (Gpu F) → Option (List (String × Value F)) → Snapshot F
  unfolding gathered last_alerts
  collect root time gpu state = last_alerts (gathered root time gpu state)

  -- While there is no alert, no fan calls for one.
  abbrev IsQuiet : Snapshot F → Type 0
  IsQuiet s = s.alerts ≡ [] → All (λ fan. is_alerted fs fan ≡ false) s.fans

  fan_alerts_none :
      (fans : List (Fan F)) → fan_alerts fs fans ≡ [] → All (λ fan. is_alerted fs fan ≡ false) fans
  fan_alerts_none [] h = tt
  fan_alerts_none (fan ∷ fans) h = ground (arith, fan_alerts_none fans)

  collect_fans-IsQuiet :
      (hw chip : String) (s : Snapshot F) → IsQuiet s → IsQuiet (collect_fans fs hw chip s)
  collect_fans-IsQuiet hw chip s q =
      let fans = map (fan_at fs hw chip) (fan_indices (fs.children hw)) in
      subst IsQuiet (sym (collect_fans_lem fs hw chip s).0) λ e.
        let (old, new) = append-nil_left s.alerts (fan_alerts fs fans) e in
        All-append (λ fan. is_alerted fs fan ≡ false) s.fans fans (q old) (fan_alerts_none fans new)

  collect_temperatures-IsQuiet :
      (hw chip : String) (s : Snapshot F) → IsQuiet s → IsQuiet (collect_temperatures fs hw chip s)
  collect_temperatures-IsQuiet hw chip s q =
      subst IsQuiet (sym (collect_temperatures_lem fs hw chip s).0)
        λ e. q (append-nil_left s.alerts _ e).0

  hwmon_loop-IsQuiet : (hws : List String) (s : Snapshot F) → IsQuiet s → IsQuiet (hwmon_loop hws s)
  unfolding hwmon_loop
  hwmon_loop-IsQuiet [] s q = q
  hwmon_loop-IsQuiet (hw ∷ hws) s q =
      hwmon_loop-IsQuiet hws _ (collect_temperatures-IsQuiet hw _ _ (collect_fans-IsQuiet hw _ s q))

  add_controller-IsQuiet :
      (usb : String) (s : Snapshot F) → IsQuiet s → IsQuiet (add_controller fs usb s)
  unfolding add_controller
  add_controller-IsQuiet usb s q e = q (
      if_elim (λ a. a ≡ [] → s.alerts ≡ []) (lacks_driver fs (interfaces_of fs usb)) _ _
        (λ _ h. (append-nil_left s.alerts _ h).0) (λ _ h. h) e)

  controllers_loop-IsQuiet :
      (usbs : List String) (s : Snapshot F) → IsQuiet s → IsQuiet (controllers_loop fs usbs s)
  unfolding controllers_loop
  controllers_loop-IsQuiet [] s q = q
  controllers_loop-IsQuiet (usb ∷ usbs) s q =
      controllers_loop-IsQuiet usbs _
        (if_elim IsQuiet (is_io fs usb) _ s (λ _. add_controller-IsQuiet usb s q) (λ _. q))

  gpu_fans_quiet :
      (gpu : Gpu F) (index : ℕ) (rs : List FanReading)
      → All (λ fan. is_alerted fs fan ≡ false) (gpu_fans_from fs gpu index rs)
  unfolding gpu_fans_from
  gpu_fans_quiet gpu index [] = tt
  gpu_fans_quiet gpu index ((percent, rpm) ∷ rs) = (and-false _, gpu_fans_quiet gpu (suc index) rs)

  add_gpu-IsQuiet : (gpu : Option (Gpu F)) (s : Snapshot F) → IsQuiet s → IsQuiet (add_gpu? gpu s)
  unfolding add_gpu
  add_gpu-IsQuiet none s q e = q e
  add_gpu-IsQuiet (some gpu) s q e =
      let (old, _) = append-nil_left _ (reasons_alert fs gpu gpu.reasons) e in
      All-append (λ fan. is_alerted fs fan ≡ false) s.fans (gpu_fans_from fs gpu 0 gpu.fans)
        (q (append-nil_left s.alerts _ old).0) (gpu_fans_quiet gpu 0 gpu.fans)

  no_board_lem : (s : Snapshot F) → no_board_alert s ≡ [] → s.controllers ≢ []
  unfolding no_board_alert
  no_board_lem s h e = ground arith

  no_fans_lem :
      (fans : List (Fan F)) (boards : List Controller)
      → no_fans_alert fans boards ≡ []
      → boards ≢ []
      → any is_io_fan fans ≡ true
  unfolding no_fans_alert
  no_fans_lem [] boards h b = cc
  no_fans_lem (fan ∷ fans) [] h b = absurd (b refl)
  no_fans_lem (fan ∷ fans) (c ∷ boards) h b = ground arith

  last_alerts_silent :
      (s : Snapshot F)
      → IsQuiet s
      → (last_alerts s).alerts ≡ []
      → (s.controllers ≢ [])
        × (any is_io_fan s.fans ≡ true)
        × All (λ fan. is_alerted fs fan ≡ false) s.fans
  unfolding last_alerts
  last_alerts_silent s q e =
      let (early, late) = append-nil_left (s.alerts ++ no_board_alert s) _ e in
      let (old, board) = append-nil_left s.alerts (no_board_alert s) early in
      let boards = no_board_lem s board in
      (boards, no_fans_lem s.fans s.controllers late boards, q old)

  collect_controllers-IsQuiet :
      (root : String) (s : Snapshot F) → IsQuiet s → IsQuiet (collect_controllers fs root s)
  unfolding collect_controllers
  collect_controllers-IsQuiet root s q =
      controllers_loop-IsQuiet (fs.glob (under root "bus/usb/devices") "*") s q

  gathered-IsQuiet :
      (root : String) (time : F) (gpu : Option (Gpu F)) (state : Option (List (String × Value F)))
      → IsQuiet (gathered root time gpu state)
  unfolding gathered
  gathered-IsQuiet root time gpu state =
      let s₀ = empty_snapshot root time in
      let s₁ = hwmon_loop (fs.glob (under root "class/hwmon") "hwmon*") s₀ in
      let s₂ = collect_controllers fs root s₁ in
      add_gpu-IsQuiet gpu (record s₂ { throttle = collect_throttle fs root })
        (collect_controllers-IsQuiet root s₁
          (hwmon_loop-IsQuiet (fs.glob (under root "class/hwmon") "hwmon*") s₀ (λ _. tt)))

  -- A snapshot without an alert has an Io board and a fan of the Io board, and none of its fans is
  -- UNKNOWN, FAULT or ALARM, but for those of chips that stop at idle.
  pub collect_silent :
      (root : String) (time : F) (gpu : Option (Gpu F)) (state : Option (List (String × Value F)))
      → (collect root time gpu state).alerts ≡ []
      → let s = collect root time gpu state in
        (s.controllers ≢ [])
        × (any is_io_fan s.fans ≡ true)
        × All (λ fan. is_alerted fs fan ≡ false) s.fans
  unfolding collect
  collect_silent root time gpu state e =
      last_alerts_silent (gathered root time gpu state) (gathered-IsQuiet root time gpu state) e
