-- ===== src/Cli/Status.antt =====
-- cli.py: the exit status of `main`, and what it prints to the standard error.
use thelio_fans.Prelude.{
  ℕ, String, Bool, true, false, ◌≡◌, refl, ◌||◌, ◌&&◌, not, none, default, List, [], ◌∷◌, map, any,
  if◌then◌else◌,
}
use thelio_fans.Float.{Float, whole}
use thelio_fans.Log.{run_log}
use thelio_fans.Cli.{
  Command, Console, Printed, out, err, Ending, finished, interrupted, curses_error, ended, usage,
  parsed, good_interval, parse_args, plain_report, dispatch, main,
}

abbrev pub is_err : Printed → Bool
is_err (out text) = false
is_err (err text) = true

abbrev pub is_failed : Ending → Bool
is_failed finished = false
is_failed interrupted = false
is_failed (curses_error message) = true

out_only : (texts : List String) → any is_err (map out texts) ≡ false
out_only [] = refl
out_only (t ∷ texts) = out_only texts

-- The status 0 and nothing on the standard error, or the status 2 and something there.
abbrev pub Answers : Bool → List Printed × ℕ → Type 0
Answers good (printed, status) =
    (status ≡ (if good then 0 else 2)) × (any is_err printed ≡ not good)

ended-Answers : (e : Ending) → Answers (not (is_failed e)) (ended e)
ended-Answers finished = (refl, refl)
ended-Answers interrupted = (refl, refl)
ended-Answers (curses_error message) = (refl, refl)

live-Answers :
    (stdin stdout : Bool) (e : Ending)
    → Answers (stdin && (stdout && not (is_failed e))) (
        if not stdin || not stdout
        then (err "The dashboard needs a terminal. Use --once, --json or --log." ∷ [], 2)
        else ended e)
live-Answers true true e = ended-Answers e
live-Answers true false e = (refl, refl)
live-Answers false true e = (refl, refl)
live-Answers false false e = (refl, refl)

modes-Answers :
    (log once json : Bool) (lines : List String) (dump : String) (report : List Printed)
    (rest : List Printed × ℕ) (live : Bool)
    → any is_err report ≡ false
    → Answers live rest
    → Answers (log || (once || json) || live) (
        if log
        then (map out lines, 0)
        else if once || json
        then ((if json then out dump ∷ [] else report), 0)
        else rest)
modes-Answers true once json lines dump report rest live p r = (refl, out_only lines)
modes-Answers false true true lines dump report rest live p r = (refl, refl)
modes-Answers false false true lines dump report rest live p r = (refl, refl)
modes-Answers false true false lines dump report rest live p r = (refl, p)
modes-Answers false false false lines dump report rest live p r = r

module _ {F : Type 0} ⦃f : Float F⦄ (console : Console F) where
  -- Both streams are terminals, and curses did not fail.
  abbrev pub runs_live : F → Bool
  runs_live interval =
      console.is_stdin_tty && (console.is_stdout_tty && not (is_failed (console.ending interval)))

  abbrev pub has_mode : Command F → Bool
  has_mode c = c.log || (c.once || c.json)

  dispatch-Answers :
      (interval : F) (c : Command F)
      → Answers (has_mode c || runs_live interval) (dispatch console interval c)
  unfolding dispatch plain_report
  dispatch-Answers interval c =
      modes-Answers c.log c.once c.json (run_log console.stamp none console.fresh).0
        (console.dumps console.collected) (plain_report console console.collected) _
        (runs_live interval) refl
        (live-Answers console.is_stdin_tty console.is_stdout_tty (console.ending interval))

  parsed-Answers :
      (good live : Bool) (message : String) (interval : F) (c : Command F)
      → Answers live (dispatch console interval c)
      → Answers (good && live) (elim (if not good then usage message else parsed interval c) [
        | usage m ↦ (err m ∷ [], 2)
        | parsed i given ↦ dispatch console i given
      ])
  parsed-Answers true live message interval c h = h
  parsed-Answers false live message interval c h = (refl, refl)

  -- `main` returns 0 and prints nothing to the standard error exactly when the interval is in range
  -- and a mode was chosen or the dashboard ran: both streams are terminals and curses did not fail.
  -- Else it returns 2 and prints something there.
  pub main_lem :
      (c : Command F)
      → let interval = default (whole 1) c.interval in
        Answers (good_interval interval && (has_mode c || runs_live interval)) (main console c)
  unfolding main parse_args
  main_lem c = parsed-Answers _ _ _ _ c (dispatch-Answers (default (whole 1) c.interval) c)
