-- ===== src/Probe/Status.antt =====
-- probe.py: `fan_status`.
use thelio_fans.Prelude.{
  ℤ, pos, ltb_ℤ, leb_ℤ, eq_ℤ, Bool, true, false, not, ◌||◌, ◌≡◌, ◌⊎◌, ◌↔◌, Option, none, some,
  arith, if◌then◌else◌,
}
use thelio_fans.Float.{Float, whole}
use thelio_fans.Snapshot.{Status, rotating, idle, stopped, empty, unknown, fault, alarm}

-- `if fault:` on an `int | None`
abbrev truthy_int : Option ℤ → Bool
truthy_int none = false
truthy_int (some n) = not (eq_ℤ n (pos 0))

module _ {F : Type 0} ⦃f : Float F⦄ where
  abbrev pub is_zero : Option F → Bool
  is_zero none = false
  is_zero (some duty) = f.eq duty (whole 0)

  of_rpm : Option ℤ → Bool → Bool → Option F → Status
  of_rpm none known_empty labelled duty = unknown
  of_rpm (some rpm) known_empty labelled duty =
      if ltb_ℤ (pos 0) rpm
      then rotating
      else if known_empty || not labelled
      then empty
      else if is_zero duty
      then idle
      else stopped

  unfoldable pub fan_status : Option ℤ → Option ℤ → Option ℤ → Bool → Bool → Option F → Status
  unfolding of_rpm
  fan_status rpm fault_flag alarm_flag known_empty labelled duty =
      if truthy_int fault_flag
      then fault
      else if truthy_int alarm_flag
      then alarm
      else of_rpm rpm known_empty labelled duty

  -- When a status is right: what has to be true of the reading.
  abbrev pub IsStatus : Status → Option ℤ → Option ℤ → Option ℤ → Bool → Bool → Option F → Type 0
  IsStatus fault rpm flag alarm' empty' labelled duty = truthy_int flag ≡ true
  IsStatus alarm rpm flag alarm' empty' labelled duty =
      (truthy_int flag ≡ false) × (truthy_int alarm' ≡ true)
  IsStatus unknown rpm flag alarm' empty' labelled duty =
      (truthy_int flag ≡ false) × (truthy_int alarm' ≡ false) × (rpm ≡ none)
  IsStatus rotating (some n) flag alarm' empty' labelled duty =
      (truthy_int flag ≡ false) × (truthy_int alarm' ≡ false) × (ltb_ℤ (pos 0) n ≡ true)
  IsStatus empty (some n) flag alarm' empty' labelled duty =
      (truthy_int flag ≡ false)
      × (truthy_int alarm' ≡ false)
      × (leb_ℤ n (pos 0) ≡ true)
      × ((empty' ≡ true) ⊎ (labelled ≡ false))
  IsStatus idle (some n) flag alarm' empty' labelled duty =
      (truthy_int flag ≡ false)
      × (truthy_int alarm' ≡ false)
      × (leb_ℤ n (pos 0) ≡ true)
      × (empty' ≡ false)
      × (labelled ≡ true)
      × (is_zero duty ≡ true)
  IsStatus stopped (some n) flag alarm' empty' labelled duty =
      (truthy_int flag ≡ false)
      × (truthy_int alarm' ≡ false)
      × (leb_ℤ n (pos 0) ≡ true)
      × (empty' ≡ false)
      × (labelled ≡ true)
      × (is_zero duty ≡ false)
  IsStatus _ none flag alarm' empty' labelled duty = ⊥

  -- `fan_status` gives a status exactly when it is right: FAULT and ALARM by the hardware flags,
  -- FAULT first; UNKNOWN without an RPM; ROTATING above zero; at zero or below EMPTY if the channel
  -- is known to be empty or has no label, else IDLE at a commanded duty of 0, else STOPPED.
  pub fan_status_iff :
      (s : Status) (rpm fault_flag alarm_flag : Option ℤ) (known_empty labelled : Bool)
      (duty : Option F)
      → (fan_status rpm fault_flag alarm_flag known_empty labelled duty ≡ s)
        ↔ IsStatus s rpm fault_flag alarm_flag known_empty labelled duty
  unfolding fan_status
  fan_status_iff s rpm flag alarm' empty' labelled duty = (there s rpm, back s rpm)
    where
      there :
          (s : Status) (rpm : Option ℤ)
          → fan_status rpm flag alarm' empty' labelled duty ≡ s
          → IsStatus s rpm flag alarm' empty' labelled duty
      there s none h = ground arith
      there s (some n) h = ground arith

      back :
          (s : Status) (rpm : Option ℤ)
          → IsStatus s rpm flag alarm' empty' labelled duty
          → fan_status rpm flag alarm' empty' labelled duty ≡ s
      back s none h = ground arith
      back s (some n) h = ground arith
