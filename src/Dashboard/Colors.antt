-- ===== src/Dashboard/Colors.antt =====
-- dashboard.py: the colours of fans and temperatures, `throttling_now` and `status_line`.
use thelio_fans.Prelude.{
  ℕ, suc, ℤ, pos, eq_ℤ, String, str_eq, concat, join, Bool, true, false, not, ◌&&◌, ◌≡◌, ◌↔◌, refl,
  ap, ◌∙◌, ◌==◌, Option, none, some, is_some, List, [], ◌∷◌, ◌++◌, length, if◌then◌else◌, if_elim,
  arith, default,
}
use mathlib.Core.Bool.{false≢true}
use thelio_fans.Float.{Float}
use thelio_fans.Show.{str_ℤ}
use thelio_fans.Snapshot.{
  Status, rotating, idle, stopped, empty, unknown, fault, alarm, Snapshot, Temperature, Controller,
  Gpu,
}
use thelio_fans.Dashboard.Histories.{History, Histories, throttle_key}
use thelio_fans.Dashboard.Alerts.{history_of}

pub data Color : Type 0 where
  normal cyan green yellow red muted blue magenta : Color

-- `_status_color`
unfoldable pub status_color : Status → Color
status_color rotating = green
status_color fault = red
status_color alarm = red
status_color empty = muted
status_color idle = muted
status_color stopped = yellow
status_color unknown = yellow

module _ {F : Type 0} ⦃f : Float F⦄ where
  abbrev reaches : F → Option F → Bool
  reaches c none = false
  reaches c (some limit) = f.le limit c

  -- The tests of `_temp_color` on a reading.
  unfoldable pub heat_color : Option F → Option F → Option F → Color
  heat_color none critical maximum = yellow
  heat_color (some c) critical maximum =
      if reaches c critical then red else if reaches c maximum then yellow else normal

  -- `_temp_color`
  unfoldable pub temp_color : Temperature F → Color
  unfolding heat_color
  temp_color t = heat_color t.celsius t.critical t.maximum

abbrev same_value : Option ℤ → Option ℤ → Bool
same_value none none = true
same_value none (some n) = false
same_value (some m) none = false
same_value (some m) (some n) = eq_ℤ m n

-- `len(history) >= 2 and history[-1] != history[-2]`
unfoldable pub last_two_differ : History → Bool
last_two_differ [] = false
last_two_differ (a ∷ []) = false
last_two_differ (a ∷ b ∷ []) = not (same_value b a)
last_two_differ (a ∷ b ∷ c ∷ rest) = last_two_differ (b ∷ c ∷ rest)

-- The interfaces that the driver is bound on.
abbrev bound_interfaces : List (String × Option String) → ℕ
bound_interfaces [] = 0
bound_interfaces ((_, none) ∷ is) = bound_interfaces is
bound_interfaces ((_, some d) ∷ is) =
    let rest = bound_interfaces is in if str_eq d "system76-io" then suc rest else rest

abbrev devnum_text : Option ℤ → String
devnum_text none = "None"
devnum_text (some n) = str_ℤ n

-- What the header says of the Io board.
unfoldable pub board_text : List Controller → String
board_text [] = "Io absent"
board_text (usb ∷ rest) = concat (
    "Io "
    ∷ usb.port
    ∷ " devnum "
    ∷ devnum_text usb.devnum
    ∷ " · system76-io bound on "
    ∷ str_ℤ (pos (bound_interfaces usb.interfaces))
    ∷ " interfaces"
    ∷ [])

-- The end of `status_line`, on the alerts.
unfoldable pub alert_line : List String → String → String × Color
alert_line [] io = (concat ("  ● no alerts · " ∷ io ∷ []), green)
alert_line (a ∷ alerts) io =
    let n = length (a ∷ alerts) in
    (
      concat (
          "  ! "
          ∷ str_ℤ (pos n)
          ∷ " alert"
          ∷ (if n == 1 then "" else "s")
          ∷ " · "
          ∷ io
          ∷ " · "
          ∷ a
          ∷ []),
      yellow,
    )

module _ {F : Type 0} where
  -- `throttling_now`
  unfoldable pub throttling_now : Snapshot F → Histories → Bool
  unfolding last_two_differ
  throttling_now snapshot histories =
      is_some snapshot.throttle && last_two_differ (history_of throttle_key histories)

  -- `snapshot.gpu.reasons`, where there is a GPU and they are known
  abbrev pub reasons_of : Option (Gpu F) → List String
  reasons_of none = []
  reasons_of (some gpu) = default [] gpu.reasons

  -- `status_line` with the alerts given
  unfoldable pub status_line : Snapshot F → Bool → List String → String × Color
  unfolding alert_line board_text
  status_line snapshot live alerts =
      if live
      then ("  ! CPU THROTTLING NOW · thermal limit reached", red)
      else elim (reasons_of snapshot.gpu) [
        | [] ↦ alert_line alerts (board_text snapshot.controllers)
        | r ∷ rs ↦ (concat ("  ! GPU THROTTLING · " ∷ join ", " (r ∷ rs) ∷ []), red)
      ]

skip_first :
    (x : Option ℤ) (l : History) (a b : Option ℤ)
    → last_two_differ (x ∷ l ++ (a ∷ b ∷ [])) ≡ last_two_differ (l ++ (a ∷ b ∷ []))
unfolding last_two_differ
skip_first x [] a b = refl
skip_first x (y ∷ []) a b = refl
skip_first x (y ∷ z ∷ l) a b = refl

last_two-append :
    (l : History) (a b : Option ℤ) → last_two_differ (l ++ (a ∷ b ∷ [])) ≡ not (same_value b a)
unfolding last_two_differ
last_two-append [] a b = refl
last_two-append (x ∷ l) a b = skip_first x l a b ∙ last_two-append l a b

-- The history ends in two values, and these differ.
abbrev pub EndsInChange : History → Type 0
EndsInChange h =
    (older : History) × (a : Option ℤ) × (b : Option ℤ) × (h ≡ older ++ (a ∷ b ∷ []))
    × (same_value b a ≡ false)

last_two-EndsInChange : (h : History) → last_two_differ h ≡ true → EndsInChange h
unfolding last_two_differ
last_two-EndsInChange [] e = absurd (false≢true e)
last_two-EndsInChange (a ∷ []) e = absurd (false≢true e)
last_two-EndsInChange (a ∷ b ∷ []) e = ([], a, b, refl, ground (arith, e))
last_two-EndsInChange (a ∷ b ∷ c ∷ rest) e =
    let (older, x, y, q, d) = last_two-EndsInChange (b ∷ c ∷ rest) e in
    (a ∷ older, x, y, ap (◌∷◌ a) q, d)

module _ {F : Type 0} where
  -- The CPU throttles now exactly when the snapshot has throttle counters and the history of the
  -- package counter ends in two values that differ.
  pub throttling_now_iff :
      (snapshot : Snapshot F) (histories : Histories)
      → (throttling_now snapshot histories ≡ true)
        ↔ ((is_some snapshot.throttle ≡ true) × EndsInChange (history_of throttle_key histories))
  unfolding throttling_now
  throttling_now_iff snapshot histories =
      let h = history_of throttle_key histories in
      (
        (λ e. (ground (arith, e), last_two-EndsInChange h (ground (arith, e)))),
        (λ (t, (older, a, b, q, d)).
            let moved : last_two_differ h ≡ true =
              ap last_two_differ q ∙ last_two-append older a b ∙ ap not d in
            rw (t, moved) refl),
      )

  -- The status line is red when the CPU or the GPU throttles now, and otherwise yellow when there
  -- are alerts and green when there are none.
  pub status_line_lem :
      (snapshot : Snapshot F) (live : Bool) (reason alert : String) (reasons alerts : List String)
      → ((status_line snapshot true alerts).1 ≡ red)
        × (reasons_of snapshot.gpu ≡ reason ∷ reasons → (status_line snapshot live alerts).1 ≡ red)
        × (reasons_of snapshot.gpu ≡ []
            → ((status_line snapshot false (alert ∷ alerts)).1 ≡ yellow)
              × ((status_line snapshot false []).1 ≡ green))
  unfolding status_line alert_line
  status_line_lem snapshot live reason alert reasons alerts = (
    refl,
    (λ e. if_elim (λ (l : String × Color). l.1 ≡ red) live _ _ (λ _. refl) (λ _. rw e refl)),
    (λ e. (rw e refl, rw e refl)),
  )
