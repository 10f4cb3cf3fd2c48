-- ===== src/Dashboard/FrameTests.antt =====
-- Runs and witnesses for the table, the charts and the loop of dashboard.py.
use Prim.Native.Char.{Char, code}
use thelio_fans.Prelude.{
  pos, String, concat, Bool, true, false, ◌≡◌, refl, none, some, default, List, [], ◌∷◌, length,
  ◌==◌, leb, arith, ◌-ℤ◌, ◌≤◌,
}
use thelio_fans.Float.Millis.{millis_float, Millis}
use thelio_fans.Show.{str_ℤ}
use thelio_fans.Snapshot.{Snapshot, Fan, Temperature, rotating, empty, Value}
use thelio_fans.Dashboard.Histories.{record_all}
use thelio_fans.Dashboard.Colors.{green}
use thelio_fans.Dashboard.FanRows.{Line, fan_row}
use thelio_fans.Dashboard.Cores.{core_number, IsSpacing, core_number_lem}
use thelio_fans.Dashboard.View.{View, page_of, refresh, pause}
use thelio_fans.Dashboard.Screen.{Written}
use thelio_fans.Dashboard.Palette.{Curses, init_colors, attr_for}
use thelio_fans.Dashboard.Layout.{charts}
use thelio_fans.Dashboard.Fit.{Drawn, charts-Drawn}
use thelio_fans.Dashboard.Frame.{Terminal, frame}
use thelio_fans.Dashboard.Bounds.{Inside, frame-Inside}
use thelio_fans.Dashboard.Histories.{IsBounded}
use thelio_fans.Dashboard.Reach.{Reached, IsCurrent, Reached-IsRecorded, sampled-paused}
use thelio_fans.Dashboard.Loop.{Live, Input, goes_on, begin, sampled, iteration, refresh_samples}

abbrev intake : Fan Millis
intake = record {
  key = "it87:fan1";
  chip = "it87";
  channel = "fan1";
  label = some "INTAKE";
  name = "INTAKE";
  rpm = some (pos 1234);
  duty = some (some 50_000);
  status = rotating;
  error = none;
  note = none;
  path = "/sys";
}

abbrev header : Fan Millis
header = record intake { key = "it87:fan2"; channel = "fan2"; label = none; status = empty }

abbrev fans : List (Fan Millis)
fans = header ∷ intake ∷ record header { key = "it87:fan3"; channel = "fan3" } ∷ []

intake_row :
    fan_row intake []
    ≡ ("  INTAKE                       it87 INTAKE      1,234 number% ━━━━━━┄┄┄┄┄┄", green)
unfolding fan_row str_ℤ ◌-ℤ◌
intake_row = refl

abbrev temperature : String → String → Temperature Millis
temperature chip label = record {
  chip = chip;
  label = label;
  celsius = some (some 40_000);
  critical = none;
  maximum = none;
  error = none;
  key = concat (chip ∷ ":" ∷ label ∷ []);
}

abbrev machine : Snapshot Millis
machine = record {
  timestamp = some 0;
  machine = "thelio";
  fans = fans;
  temperatures =
      temperature "nvme" "Composite"
      ∷ temperature "coretemp" "Core 0"
      ∷ temperature "coretemp" "Package id 0"
      ∷ [];
  controllers = [];
  alerts = [];
  throttle = none;
  gpu = none;
  controller = none;
}

-- `str(value)`, of a machine that has no controller's state
abbrev no_text : Value Millis → String
no_text v = ""

is_space : Char → Bool
is_space c = code c == 32

is_printable : Char → Bool
is_printable c = leb 32 (code c)

ascii-IsSpacing : IsSpacing is_space
unfolding is_space
ascii-IsSpacing = record { visible = λ c h. ground (arith, h); blank = refl }

core_number_lem_example : core_number is_space "Core 12" ≡ some (pos 12)
unfolding str_ℤ
core_number_lem_example = core_number_lem is_space ascii-IsSpacing 12

charts-Drawn_example :
    Drawn is_printable 30 80
      (λ top. 11 ≤ page_of 30 top)
      (charts {F = Millis} is_space is_printable 30 80 (some 1000) machine [])
charts-Drawn_example = charts-Drawn is_space is_printable 30 80 (some 1000) machine [] (omega arith)

abbrev terminal : Terminal Millis
terminal = record {
  height = 5;
  width = 24;
  is_space = is_space;
  is_printable = is_printable;
  show_value = λ v. "";
  wrap = λ n s. s ∷ [];
  now = some 0;
  stamp = λ t. "00:00:00";
  interval_text = λ t. "1";
}

abbrev view : View Millis
view = record { paused = true; offset = pos 0; due = some 5000 }

abbrev small_frame : List Written × View Millis × List Line
small_frame = default ([], view, []) (frame terminal (some 1000) machine [] view [])

draws_small : frame terminal (some 1000) machine [] view [] ≡ some small_frame
unfolding frame
draws_small = refl

frame-Inside_example : Inside terminal (some 1000) small_frame.0
frame-Inside_example = frame-Inside terminal (some 1000) machine [] view [] small_frame draws_small

abbrev pressing_r : Input Millis
pressing_r = record {
  fresh = machine;
  now = some 1000;
  later = some 1000;
  terminal = terminal;
  key = refresh;
}

abbrev paused : Live Millis
paused = record { snapshot = some machine; histories = []; view = view; lines = [] }

abbrev unpaused : Live Millis
unpaused = record paused { view = record { paused = false; offset = pos 0; due = some 0 } }

goes_on_unpaused : iteration (some 1000) pressing_r paused ≡ goes_on small_frame.0 unpaused
unfolding iteration
goes_on_unpaused = refl

refresh_samples_example :
    ((sampled (some 1000) pressing_r unpaused).snapshot ≡ some machine)
    × ((sampled (some 1000) pressing_r unpaused).histories ≡ record_all [] machine)
refresh_samples_example =
    refresh_samples (some 1000) pressing_r pressing_r paused unpaused small_frame.0 refl
      goes_on_unpaused refl

abbrev pressing_space : Input Millis
pressing_space = record pressing_r { key = pause }

-- The first iteration, in which the space bar is pressed.
abbrev frozen : Live Millis
frozen = record {
  snapshot = some machine;
  histories = record_all [] machine;
  view = record { paused = true; offset = pos 0; due = some 0 };
  lines = [];
}

abbrev first_view : View Millis
first_view = record { paused = false; offset = pos 0; due = some 2000 }

abbrev first_frame : List Written × View Millis × List Line
first_frame =
    default ([], view, [])
      (frame terminal (some 1000) machine (record_all [] machine) first_view [])

goes_on_frozen : iteration (some 1000) pressing_space begin ≡ goes_on first_frame.0 frozen
unfolding iteration
goes_on_frozen = refl

frozen-Reached : Reached (some 1000) frozen
frozen-Reached =
    Reached.goes_to pressing_space begin frozen first_frame.0 Reached.at_start goes_on_frozen

Reached-IsRecorded_example :
    IsBounded (record_all [] machine) × IsCurrent (some machine) (record_all [] machine)
Reached-IsRecorded_example = Reached-IsRecorded (some 1000) frozen frozen-Reached

sampled-paused_example : sampled (some 1000) pressing_r frozen ≡ frozen
sampled-paused_example = sampled-paused (some 1000) frozen pressing_r frozen-Reached refl

abbrev eight_colors : Curses
eight_colors = record { has_colors = true; colors = 8; has_default = true; accepts = λ pair. true }

-- Seven pairs and the sixteen of the gradient.
sets_all_pairs : length (default [] (init_colors eight_colors)) ≡ 23
unfolding init_colors
sets_all_pairs = refl

dims_muted : (attr_for eight_colors (pos 5) false).is_dim ≡ true
unfolding attr_for
dims_muted = refl
