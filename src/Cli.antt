-- ===== src/Cli.antt =====
-- src/fanwatch/cli.py: `parse_args` and `main`. What argparse read is given, as are the text that
-- json.dumps makes of a snapshot, and how the interactive dashboard ends.
use Prim.Native.Char.{Char}
use thelio_fans.Prelude.{
  ℕ, pos, String, concat, join, Bool, true, false, not, ◌&&◌, ◌||◌, Option, none, some, default,
  List, [], ◌∷◌, map, if◌then◌else◌,
}
use thelio_fans.Float.{Float, whole}
use thelio_fans.Snapshot.{Snapshot, Value}
use thelio_fans.Log.{run_log}
use thelio_fans.Dashboard.Table.{build_lines}
pub mod Status
mod CliTests

-- The options; argparse refuses two of the three modes.
pub record Command (F : Type 0) : Type 0 where
  pub interval : Option F
  pub once : Bool
  pub json : Bool
  pub log : Bool

-- `parser.error(message)`, or the namespace with its interval
pub data Parsed (F : Type 0) : Type 0 where
  usage : String → Parsed F
  parsed : F → Command F → Parsed F

module _ {F : Type 0} ⦃f : Float F⦄ where
  -- The bounds of the interval, less the `not`s.
  abbrev pub good_interval : F → Bool
  good_interval x = f.is_finite x && (f.le (f.decimal 2 1) x && f.le x (f.decimal 36_000 1))

  -- `parse_args`
  unfoldable pub parse_args : Command F → Parsed F
  parse_args c =
      let interval = default (whole 1) c.interval in
      if not (good_interval interval)
      then usage "--interval must be between 0.2 and 3600 seconds"
      else parsed interval c

pub data Printed : Type 0 where
  out err : String → Printed

-- How `curses.wrapper(dashboard.run, …)` ends; another exception ends the program.
pub data Ending : Type 0 where
  finished interrupted : Ending
  curses_error : String → Ending

pub record Console (F : Type 0) : Type 0 where
  pub is_stdin_tty : Bool
  pub is_stdout_tty : Bool
  pub is_printable : Char → Bool
  pub show_value : Value F → String
  pub wrap : ℕ → String → List String
  pub dumps : Snapshot F → String
  pub stamp : F → String
  pub now : F
  -- what `collect` returns, and the snapshots of the log before the interrupt
  pub collected : Snapshot F
  pub fresh : List (Snapshot F)
  pub ending : F → Ending

-- The end of the interactive mode: what it prints, and the exit status.
abbrev pub ended : Ending → List Printed × ℕ
ended finished = ([], 0)
ended interrupted = ([], 0)
ended (curses_error message) =
    (err (concat ("Cannot initialize terminal: " ∷ message ∷ ". Try --once." ∷ [])) ∷ [], 2)

module _ {F : Type 0} ⦃f : Float F⦄ (console : Console F) where
  -- The plain report of `--once`.
  unfoldable pub plain_report : Snapshot F → List Printed
  unfolding build_lines
  plain_report snapshot =
      out (concat ("FAN WATCH / " ∷ snapshot.machine ∷ []))
      ∷ out (
          join "\n" (
            map (λ l. l.0)
              (build_lines console.is_printable console.show_value console.wrap console.now snapshot
                [] (pos 120))))
      ∷ []

  -- `main`, from the namespace on
  unfoldable pub dispatch : F → Command F → List Printed × ℕ
  unfolding plain_report run_log
  dispatch interval c =
      if c.log
      then (map out (run_log console.stamp none console.fresh).0, 0)
      else if c.once || c.json
      then (
        (if c.json
            then out (console.dumps console.collected) ∷ []
            else plain_report console.collected),
        0,
      )
      else if not console.is_stdin_tty || not console.is_stdout_tty
      then (err "The dashboard needs a terminal. Use --once, --json or --log." ∷ [], 2)
      else ended (console.ending interval)

  -- `main`; argparse prints a usage error, after a line on the usage, and exits with 2
  unfoldable pub main : Command F → List Printed × ℕ
  unfolding parse_args dispatch
  main c = elim (parse_args c) [
    | usage message ↦ (err message ∷ [], 2)
    | parsed interval given ↦ dispatch interval given
  ]
