-- ===== src/Probe/Fans.antt =====
-- probe.py: `_collect_fans`, and the fans of `_add_gpu`.
use thelio_fans.Prelude.{
  ℤ, pos, leb_ℤ, String, concat, Bool, true, false, not, ◌||◌, ◌&&◌, ◌≡◌, inl, inr, refl, sym,
  Option, none, some, is_some, is_negative, List, [], ◌∷◌, ◌++◌, map, All, All-map, All-of_IsIn,
  arith, if◌then◌else◌, Bool-cases,
}
use mathlib.Core.Path.{subst}
use mathlib.Core.List.{append-nil, append_assoc}
use thelio_fans.Float.{Float, whole}
use thelio_fans.Snapshot.{
  Status, rotating, idle, stopped, empty, unknown, fault, alarm, Fan, Snapshot,
}
use thelio_fans.Probe.Reading.{
  Sysfs, under, read_text, read_int, read_int_nonnegative, known_channel, known_empty,
  idle_stop_chip, label_or, describe,
}
use thelio_fans.Probe.Status.{fan_status}
use thelio_fans.Probe.Indices.{fan_indices}

-- `status.lower()`
unfoldable pub lower : Status → String
lower rotating = "rotating"
lower idle = "idle"
lower stopped = "stopped"
lower empty = "empty"
lower unknown = "unknown"
lower fault = "fault"
lower alarm = "alarm"

-- `status in ("UNKNOWN", "FAULT", "ALARM")`
abbrev is_trouble : Status → Bool
is_trouble unknown = true
is_trouble fault = true
is_trouble alarm = true
is_trouble _ = false

-- `{"UNKNOWN": error or "reading unavailable"}.get(status, "hardware flag asserted")`
unfoldable pub detail : Status → Option String → String
detail unknown error = label_or error "reading unavailable"
detail _ error = "hardware flag asserted"

module _ {F : Type 0} ⦃f : Float F⦄ (fs : Sysfs) where
  -- `pwm / 255 * 100 if pwm is not None and pwm <= 255 else None`
  unfoldable pub duty_of : Option ℤ → Option F
  duty_of none = none
  duty_of (some pwm) =
      if leb_ℤ pwm (pos 255)
      then some (f.mul (f.div (f.of_int pwm) (whole 255)) (whole 100))
      else none

  -- The fan that a round of `_collect_fans` appends.
  unfoldable pub fan_at : String → String → String → Fan F
  unfolding duty_of
  fan_at hw chip i =
      let channel = concat ("fan" ∷ i ∷ []) in
      let (rpm, error) = read_int fs (under hw (concat (channel ∷ "_input" ∷ []))) true in
      let (pwm, _) = read_int fs (under hw (concat ("pwm" ∷ i ∷ []))) true in
      let (fault_flag, _) = read_int fs (under hw (concat (channel ∷ "_fault" ∷ []))) false in
      let (alarm_flag, _) = read_int fs (under hw (concat (channel ∷ "_alarm" ∷ []))) false in
      let label = read_text fs (under hw (concat (channel ∷ "_label" ∷ []))) in
      let (name, note) = describe chip channel label in
      let expected = is_some label || is_some (known_channel chip channel) in
      let duty = duty_of pwm in
      record {
        key = concat (fs.device hw ∷ ":" ∷ chip ∷ ":" ∷ i ∷ []);
        chip = chip;
        channel = channel;
        label = label;
        name = name;
        rpm = rpm;
        duty = duty;
        status =
            fan_status rpm fault_flag alarm_flag (known_empty chip (label_or label channel))
              expected duty;
        error = error;
        note = note;
        path = under hw (concat (channel ∷ "_input" ∷ []));
      }

  -- The alert of a fan.
  unfoldable pub fan_alert : Fan F → String
  unfolding lower detail
  fan_alert fan = concat (
      label_or fan.label fan.channel
      ∷ " on "
      ∷ fan.chip
      ∷ ": "
      ∷ lower fan.status
      ∷ " — "
      ∷ detail fan.status fan.error
      ∷ [])

  -- `if status in (…) and chip not in IDLE_STOP_CHIPS`
  abbrev pub is_alerted : Fan F → Bool
  is_alerted fan = is_trouble fan.status && not (idle_stop_chip fan.chip)

  add_fan : Fan F → Snapshot F → Snapshot F
  add_fan fan s = record s {
    fans = s.fans ++ (fan ∷ []);
    alerts = if is_alerted fan then s.alerts ++ (fan_alert fan ∷ []) else s.alerts;
  }

  fans_loop : String → String → List String → Snapshot F → Snapshot F
  unfolding add_fan
  fans_loop hw chip [] s = s
  fans_loop hw chip (i ∷ is) s = fans_loop hw chip is (add_fan (fan_at hw chip i) s)

  -- `_collect_fans`
  unfoldable pub collect_fans : String → String → Snapshot F → Snapshot F
  unfolding fans_loop
  collect_fans hw chip s = fans_loop hw chip (fan_indices (fs.children hw)) s

  -- The alerts of a list of fans.
  abbrev pub fan_alerts : List (Fan F) → List String
  fan_alerts [] = []
  fan_alerts (fan ∷ fans) =
      if is_alerted fan then fan_alert fan ∷ fan_alerts fans else fan_alerts fans

  fans_loop_lem :
      (hw chip : String) (is : List String) (s : Snapshot F)
      → fans_loop hw chip is s ≡ record s {
        fans = s.fans ++ map (fan_at hw chip) is;
        alerts = s.alerts ++ fan_alerts (map (fan_at hw chip) is);
      }
  unfolding fans_loop
  fans_loop_lem hw chip [] s = simp append-nil
  fans_loop_lem hw chip (i ∷ is) s = elim (Bool-cases (is_alerted (fan_at hw chip i))) [
    | inl e ↦ rw e (simp (fans_loop_lem hw chip is, append_assoc))
    | inr e ↦ rw e (simp (fans_loop_lem hw chip is, append_assoc))
  ]

  -- A fan of the chip; without an RPM its status is trouble, and an RPM is not negative.
  abbrev pub IsSound : String → Fan F → Type 0
  IsSound chip fan =
      (fan.chip ≡ chip)
      × (fan.rpm ≡ none → is_trouble fan.status ≡ true)
      × ((n : ℤ) → fan.rpm ≡ some n → is_negative n ≡ false)

  status_without_rpm :
      (fault_flag alarm_flag : Option ℤ) (empty' labelled : Bool) (duty : Option F)
      → is_trouble (fan_status none fault_flag alarm_flag empty' labelled duty) ≡ true
  unfolding fan_status
  status_without_rpm fault_flag alarm_flag empty' labelled duty = ground arith

  fan_at-IsSound : (hw chip i : String) {fan : Fan F} → fan ≡ fan_at hw chip i → IsSound chip fan
  unfolding fan_at
  fan_at-IsSound hw chip i same =
      subst (IsSound chip) (sym same)
        (refl, λ e. rw e (status_without_rpm _ _ _ _ _), λ n e. read_int_nonnegative fs _ n e)

  -- `_collect_fans` appends one fan for each channel found, in the order of the channel numbers, and
  -- one alert for each of these whose status is UNKNOWN, FAULT or ALARM, unless the chip is one of
  -- those that stop at idle; nothing else of the snapshot changes. Each fan is of the chip, has
  -- such a status if it has no RPM, and has no negative RPM.
  pub collect_fans_lem :
      (hw chip : String) (s : Snapshot F)
      → let fans = map (fan_at hw chip) (fan_indices (fs.children hw)) in
        (collect_fans hw chip s
          ≡ record s { fans = s.fans ++ fans; alerts = s.alerts ++ fan_alerts fans })
        × All (IsSound chip) fans
  unfolding collect_fans
  collect_fans_lem hw chip s = (
    fans_loop_lem hw chip (fan_indices (fs.children hw)) s,
    All-map (IsSound chip) (fan_at hw chip) (fan_indices (fs.children hw)) (
        All-of_IsIn (λ i. IsSound chip (fan_at hw chip i)) (fan_indices (fs.children hw))
          (λ i _. fan_at-IsSound hw chip i refl)),
  )
