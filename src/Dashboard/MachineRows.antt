-- ===== src/Dashboard/MachineRows.antt =====
-- dashboard.py: `_throttle_row` and `_gpu_rows`.
use Prim.Native.Char.{Char, code}
use thelio_fans.Prelude.{
  ◌-◌, leb, ℤ, pos, eq_ℤ, String, concat, join, Bool, ◌&&◌, Option, none, some, default, List, [],
  ◌∷◌, map, if◌then◌else◌,
}
use thelio_fans.Float.{Float, whole}
use thelio_fans.Show.{str_ℤ}
use thelio_fans.Text.{chars, of_chars}
use thelio_fans.Format.{left_field}
use thelio_fans.Snapshot.{Throttle, Gpu}
use thelio_fans.Dashboard.Colors.{normal, yellow, red, muted}
use thelio_fans.Dashboard.FanRows.{Line, name_w}
use thelio_fans.Chart.Grid.{chr}

module _ (F : Type 0) ⦃f : Float F⦄ where
  abbrev pub gigahertz : ℤ → String
  gigahertz khz = f.show 1 (f.div (f.of_int khz) (whole 1_000_000))

  abbrev pub seconds_text : ℤ → String
  seconds_text ms = f.show 1 (f.div (f.of_int ms) (whole 1000))

  abbrev pub freq_text : Option ℤ → Option ℤ → String
  freq_text none top = ""
  freq_text (some cur) none = ""
  freq_text (some cur) (some top) =
      concat (" · " ∷ gigahertz cur ∷ "/" ∷ gigahertz top ∷ " GHz" ∷ [])

  -- `_throttle_row`
  unfoldable pub throttle_row : Throttle → Bool → Line
  unfolding left_field
  throttle_row t live =
      let freq = freq_text t.cur_khz t.max_khz in
      let name = concat ("  " ∷ left_field name_w "CPU throttling" ∷ " " ∷ []) in
      let events =
        concat
          (str_ℤ t.package_events ∷ " events · " ∷ seconds_text t.total_ms ∷ " s total" ∷ []) in
      let longest = concat (" · longest " ∷ seconds_text t.longest_ms ∷ " s" ∷ []) in
      if eq_ℤ t.package_events (pos 0) && eq_ℤ t.core_events (pos 0)
      then (concat (name ∷ "none since boot" ∷ freq ∷ []), muted)
      else if live
      then (concat (name ∷ "THROTTLING NOW · " ∷ events ∷ longest ∷ freq ∷ []), red)
      else (concat (name ∷ events ∷ longest ∷ freq ∷ []), yellow)

  abbrev pub throttle_rows : Option Throttle → Bool → List Line
  throttle_rows none live = []
  throttle_rows (some t) live = throttle_row t live ∷ []

  -- `num(v)`, of an int and of a float
  abbrev pub int_text : Option ℤ → String
  int_text none = "?"
  int_text (some n) = f.show 0 (f.of_int n)

-- `str.upper`, of the small letters that the reasons consist of
abbrev pub upper_char : Char → Char
upper_char c = if leb 97 (code c) && leb (code c) 122 then default c (chr (code c - 32)) else c

unfoldable pub upper : String → String
unfolding chr
upper s = of_chars (map upper_char (chars s))

abbrev pub pstate_text : Option ℤ → String
pstate_text none = "?"
pstate_text (some n) = concat ("P" ∷ str_ℤ n ∷ [])

-- The row of the reasons.
unfoldable pub reasons_row : Option (List String) → Line
unfolding left_field upper
reasons_row none = (concat ("  " ∷ left_field name_w "GPU throttling" ∷ " unavailable" ∷ []), muted)
reasons_row (some []) = (concat ("  " ∷ left_field name_w "GPU throttling" ∷ " none" ∷ []), muted)
reasons_row (some (r ∷ rs)) = (
  concat ("  " ∷ left_field name_w "GPU throttling" ∷ " " ∷ join " · " (map upper (r ∷ rs)) ∷ []),
  red,
)

module _ {F : Type 0} ⦃f : Float F⦄ where
  abbrev pub float_text : Option F → String
  float_text none = "?"
  float_text (some x) = f.show 0 x

  -- `_gpu_rows`
  unfoldable pub gpu_rows : Gpu F → List Line
  unfolding reasons_row left_field
  gpu_rows gpu =
      (
        concat (
            "  "
            ∷ left_field name_w "GPU state"
            ∷ " "
            ∷ pstate_text gpu.pstate
            ∷ " · "
            ∷ int_text F gpu.util_pct
            ∷ "% load · "
            ∷ float_text gpu.power_w
            ∷ "/"
            ∷ float_text gpu.power_limit_w
            ∷ " W · "
            ∷ int_text F gpu.clock_mhz
            ∷ "/"
            ∷ int_text F gpu.clock_max_mhz
            ∷ " MHz · "
            ∷ int_text F gpu.mem_used_mb
            ∷ "/"
            ∷ int_text F gpu.mem_total_mb
            ∷ " MiB"
            ∷ []),
        normal,
      )
      ∷ reasons_row gpu.reasons
      ∷ []

  abbrev pub rows_of_gpu : Option (Gpu F) → List Line
  rows_of_gpu none = []
  rows_of_gpu (some gpu) = gpu_rows gpu
