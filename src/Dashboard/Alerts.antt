-- ===== src/Dashboard/Alerts.antt =====
-- dashboard.py: `_stalled`, `alerts_for` and `throttling_now`.
use thelio_fans.Prelude.{
  ℕ, zero, suc, ◌-◌, ◌≤◌, ℤ, pos, negsuc, eq_ℤ, String, str_eq, concat, Bool, true, false, not,
  ◌&&◌, ◌||◌, ◌≡◌, ◌↔◌, refl, ap, ◌∙◌, inl, inr, replicate, length-append, length-take_last, Option,
  none, some, default, List, [], ◌∷◌, ◌++◌, all, length, take, drop, take_last, leb, lookup,
  if◌then◌else◌, Bool-cases, arith,
}
use mathlib.Core.Bool.{false≢true}
use thelio_fans.Float.{Float}
use thelio_fans.Snapshot.{Snapshot, Fan, is_stopped}
use thelio_fans.Probe.Reading.{idle_stop_chip}
use thelio_fans.Dashboard.Histories.{History, Histories}

-- `STALL_SAMPLES` of probe.py
abbrev pub stall_samples : ℕ
stall_samples = 8

abbrev pub is_zero : Option ℤ → Bool
is_zero none = false
is_zero (some n) = eq_ℤ n (pos 0)

module _ {F : Type 0} where
  -- `_stalled`
  unfoldable pub stalled : Fan F → History → Bool
  stalled fan history =
      if not (is_stopped fan.status) || idle_stop_chip fan.chip
      then false
      else let recent = take_last stall_samples history in
        leb stall_samples (length recent) && all is_zero recent

-- The history of a key, where a missing key has an empty one.
abbrev pub history_of : String → Histories → History
history_of key histories = default [] (lookup key histories)

-- `fan.label or fan.channel`
abbrev pub tag_of : Option String → String → String
tag_of none channel = channel
tag_of (some label) channel = if str_eq label "" then channel else label

module _ {F : Type 0} ⦃f : Float F⦄ where
  abbrev pub commanded : Option F → String
  commanded none = "commanded on"
  commanded (some duty) = concat ("commanded " ∷ f.show 0 duty ∷ "%" ∷ [])

  abbrev stall_alert : Fan F → String
  stall_alert fan = concat (
      tag_of fan.label fan.channel
      ∷ " on "
      ∷ fan.chip
      ∷ ": STALLED — "
      ∷ commanded fan.duty
      ∷ " but not turning"
      ∷ [])

  unfoldable pub stall_alerts : Histories → List (Fan F) → List String
  unfolding stalled
  stall_alerts histories [] = []
  stall_alerts histories (fan ∷ fans) =
      let rest = stall_alerts histories fans in
      if stalled fan (history_of fan.key histories) then stall_alert fan ∷ rest else rest

  -- `alerts_for`
  unfoldable pub alerts_for : Snapshot F → Histories → List String
  unfolding stall_alerts
  alerts_for snapshot histories = snapshot.alerts ++ stall_alerts histories snapshot.fans

abbrev pub zero_rpm : Option ℤ
zero_rpm = some (pos 0)

is_zero-eq : (v : Option ℤ) → is_zero v ≡ true → v ≡ zero_rpm
is_zero-eq none h = absurd (false≢true h)
is_zero-eq (some (pos zero)) h = refl
is_zero-eq (some (pos (suc n))) h = absurd (ground (arith, h))
is_zero-eq (some (negsuc n)) h = absurd (ground (arith, h))

all-zeros : (l : History) → all is_zero l ≡ true → l ≡ replicate (length l) zero_rpm
all-zeros [] h = refl
all-zeros (v ∷ l) h =
    let first : is_zero v ≡ true = ground (arith, h) in
    let rest : all is_zero l ≡ true = ground (arith, h) in cc (is_zero-eq v first, all-zeros l rest)

take-drop : (n : ℕ) (l : History) → l ≡ take n l ++ drop n l
take-drop zero l = refl
take-drop (suc n) [] = refl
take-drop (suc n) (v ∷ l) = ap (◌∷◌ v) (take-drop n l)

drop-append : (l m : History) → drop (length l) (l ++ m) ≡ m
drop-append [] m = refl
drop-append (v ∷ l) m = drop-append l m

take_last-append : (older : History) (zs : History) → length zs ≡ 8 → take_last 8 (older ++ zs) ≡ zs
take_last-append older zs e =
    let n : length (older ++ zs) - 8 ≡ length older = omega (arith, length-append older zs, e) in
    rw n (drop-append older zs)

-- The last eight samples are all zero exactly when the history ends in eight zeros.
recent_iff :
    (history : History)
    → ((leb 8 (length (take_last 8 history)) && all is_zero (take_last 8 history)) ≡ true)
      ↔ ((older : History) × (history ≡ older ++ replicate 8 zero_rpm))
recent_iff history = (
  (λ h.
      let recent = take_last 8 history in
      let full : leb 8 (length recent) ≡ true = ground (arith, h) in
      let zeros : all is_zero recent ≡ true = ground (arith, h) in
      let at_least : 8 ≤ length recent = ground (arith, full) in
      let eight : length recent ≡ 8 = omega (arith, length-take_last 8 history, at_least) in
      (
        take (length history - 8) history,
        take-drop (length history - 8) history
            ∙ ap (λ l. take (length history - 8) history ++ l)
                (all-zeros recent zeros ∙ ap (λ n. replicate n zero_rpm) eight),
      )),
  (λ (older, e). rw (e, take_last-append older (replicate 8 zero_rpm) refl) refl),
)

module _ {F : Type 0} where
  -- A fan is stalled exactly when it has the status STOPPED, its chip is none of those that stop
  -- their fans when idle, and its history ends in eight samples at zero RPM.
  pub stalled_iff :
      (fan : Fan F) (history : History)
      → (stalled fan history ≡ true) ↔ (
          (is_stopped fan.status ≡ true)
          × (idle_stop_chip fan.chip ≡ false)
          × ((older : History) × (history ≡ older ++ replicate 8 zero_rpm)))
  unfolding stalled
  stalled_iff fan history = (
    (λ h. elim (Bool-cases (not (is_stopped fan.status) || idle_stop_chip fan.chip)) [
      | inl e ↦ absurd (ground (arith, h, e))
      | inr e ↦
          (ground (arith, e), ground (arith, e), (recent_iff history).0 (ground (arith, h, e)))
    ]),
    (λ (stop, busy, zeros). rw (stop, busy) ((recent_iff history).1 zeros)),
  )
