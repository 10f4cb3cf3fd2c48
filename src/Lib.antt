-- ===== src/Lib.antt =====
-- Verification library of fanwatch, the fan monitor and stress test of a Thelio workstation
-- (src/fanwatch/*.py of the repository).
--
-- The program's parts. `probe.collect` reads the fans, temperatures, the Io board and the CPU's
-- throttle counters from sysfs, and the GPU through the session of gpu.py, into a `Snapshot`.
-- Three clients use it: the dashboard (dashboard.py, drawing with chart.py), the change log
-- (cli.py), and the stress test (stress.py), which loads the machine (load.py) in phases under a
-- guard and reports how the fans answered. text.py cleans every text that comes from outside.
-- state.py reads the status file of fanctl, a service in Rust.
--
-- What models what.
-- - Snapshot: the data of probe.py and gpu.py. A `float` is of a type F with the operations of
--   Float, and an `int` a ℤ; Float/Order states the laws of the order, Float/Millis is a concrete
--   F that the witnesses evaluate.
-- - Text: src/fanwatch/text.py. Show: the text of an `int`, and `int` of a text of digits. Format:
--   the slices and fields that lay a text out.
-- - Prelude: lists, dictionaries, `sorted` with a key (Sorting), and Option as the result of code
--   that may raise (Partial).
-- - Probe: src/fanwatch/probe.py, over an interface Sysfs to the file system. Reading has
--   read_text, read_int and describe; Status has fan_status; Indices has _fan_indices; Fans has
--   _collect_fans; Temperatures has _collect_temperatures; Board has _collect_controllers,
--   _collect_throttle and _add_gpu; Collect has collect; Collector has the class Collector.
-- - Nvml: src/fanwatch/gpu.py, NvmlSession and _read, over the answers of pynvml.
-- - Load: src/fanwatch/load.py. Cpu has _spin and CpuLoad over a System, which says what each call
--   of the operating system does, and Workers proves which processes it leaves. Load/State has the
--   attributes of OpenClLoad, OpenCl its methods over the answers of the OpenCL library, and
--   Thread its loop and _open_library; Ownership, Setup and Release prove what is released.
-- - Stress: src/fanwatch/stress.py. Words and Parsing have parse_args and Validity is about it;
--   Sampling has _package_c, _number and sample_from; Guard has guard; Summary has summarise and
--   what it calls; Report has render and _live_line; Exec has the state of run and the calls that
--   it makes; Looping has the sampling loop and Running the rest of run. The modules beside them
--   prove: Phases and Totality about summarise, Verdicts about _fan_summary, Safety about guard,
--   Control, Rounds, Phased and Quiet about what a run leaves running, Ends and Progress about its
--   end.
-- - Log: src/fanwatch/cli.py, _log_state, log_line, LogTracker and _run_log. Cli: its parse_args
--   and main, and Cli/Status what it returns.
-- - Dashboard: src/fanwatch/dashboard.py. Histories has _record; Alerts has _stalled and
--   alerts_for; Colors has _status_color, _temp_color, throttling_now and status_line. FanRows and
--   FanTable have _fan_row, _controller_row and _fan_lines; TempRows has _temperature_lines;
--   MachineRows has _throttle_row and _gpu_rows; Table has build_lines. Groups has the chart
--   groups and Cores core_readings. Screen has put, put_spans and draw_chart, as functions to the
--   list of what is written; Palette has _init_colors and attr_for; Layout has the charts of a frame, Frame all of a frame, View the keys
--   and the scrolling, and Loop an iteration of _run. FanCounts, TempOrder, Fit, Bounds and Reach
--   prove.
-- - Chart: src/fanwatch/chart.py. Chart has _scale, heat_level, _merge, legend and core_strip;
--   Chart/Grid has render_chart and Axis x_labels; Scales, Merge, Canonical, Canvas and
--   Framed prove.
-- - State: src/fanwatch/state.py, read_state.
--
-- State and errors. Code that changes state is a function on a record of that state; in Stress/Exec
-- and Load/State it is a small monad, whose result is a value or an exception. The outside world
-- is an environment, a function of the number of the call: what the n-th call returns, whether it
-- raises, and, in Stress/Exec, whether it took effect when it raised and whether the thread
-- of a GPU load is alive after the ten seconds that its `stop` waits for it. So a KeyboardInterrupt
-- may come at any call of `run`. In chart.py and dashboard.py an exception is none.
--
-- Fuel. `summarise` splits its samples with one unit of fuel a phase, as much as there are samples.
-- The sampling loop of `run` has fuel, since it ends by the clock: under the hypothesis that a clock
-- passes any bound within a number of calls, more fuel than that is enough. The loops of
-- the GPU thread and of a worker have fuel for their polls of the flag: for the thread, more fuel
-- than the call from which on the flag is set is enough.
--
-- Not modelled: argparse, which is given as the values that it read; the JSON output, whose text is
-- a parameter; a resize within a frame, and a write to the screen that fails; the arithmetic of the OpenCL
-- kernel; the `main` of stress.py, which calls `run` with what parse_args returns. An integer in a
-- text is read as digits with a sign, where Python's `int` also takes underscores and spaces.
-- `str.isprintable`, `str.isspace`, `textwrap.wrap`, `time.strftime`, pathlib, pynvml, OpenCL and
-- curses are not part of the repository, and are parameters where the model uses them. Interrupts
-- within a call of pynvml or OpenCL are not modelled. fanctl is written in Rust, and only its status
-- file meets this program.
pub mod Prelude
pub mod Float
pub mod Format
pub mod Dashboard
pub mod Chart
pub mod Snapshot
pub mod Stress
pub mod State
pub mod Load
pub mod Log
pub mod Nvml
pub mod Text
pub mod Show
pub mod Probe
pub mod Cli
