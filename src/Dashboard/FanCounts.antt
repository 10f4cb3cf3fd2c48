-- ===== src/Dashboard/FanCounts.antt =====
-- dashboard.py, `_fan_lines`: every fan has a row or stands in the line of its chip.
use Prim.Native.Char.{Char}
use thelio_fans.Prelude.{ℕ, ◌+◌, String, str_eq, List, [], ◌∷◌, map, filter, length}
use thelio_fans.Float.{Float}
use thelio_fans.Snapshot.{Fan, Snapshot}
use thelio_fans.Dashboard.Histories.{Histories}
use thelio_fans.Dashboard.FanTable.{Grouped}

-- The number of channels of all the groups.
abbrev pub grouped : Grouped → ℕ
grouped [] = 0
grouped ((chip, channels) ∷ groups) = length channels + grouped groups

module _ {F : Type 0} where
  -- The channels of the fans of a chip.
  abbrev pub channels_of : String → List (Fan F) → List String
  channels_of chip fans = map (λ fan. fan.channel) (filter (λ fan. str_eq fan.chip chip) fans)
