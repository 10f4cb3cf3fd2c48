-- ===== src/Dashboard/TempOrder.antt =====
-- dashboard.py, `_temperature_lines`: which temperatures have a line, and in which order.
use thelio_fans.Prelude.{ℕ, ◌+◌, not, List, [], ◌∷◌, filter, length}
use thelio_fans.Float.{Float}
use thelio_fans.Snapshot.{Snapshot, Temperature}
use thelio_fans.Dashboard.TempRows.{is_core}

module _ {F : Type 0} ⦃f : Float F⦄ where
  -- One line for all the cores, if there are any.
  abbrev pub core_lines : List (Temperature F) → ℕ
  core_lines [] = 0
  core_lines (c ∷ cs) = 1

  -- A line for each temperature that is no core, and one for the cores; or one line if there is no
  -- temperature.
  abbrev pub lines_needed : List (Temperature F) → ℕ
  lines_needed [] = 1
  lines_needed (t ∷ ts) =
      length (filter (λ u. not (is_core u)) (t ∷ ts)) + core_lines (filter is_core (t ∷ ts))
