-- ===== src/Cli/CliTests.antt =====
-- Runs of `main`, and a witness.
use thelio_fans.Prelude.{true, false, ◌≡◌, refl, none, some, [], ◌∷◌}
use thelio_fans.Float.Millis.{millis_float, Millis}
use thelio_fans.Snapshot.{Snapshot}
use thelio_fans.Cli.Status.{Answers, main_lem}
use thelio_fans.Cli.{Command, Console, curses_error, err, out, main}

abbrev bare : Command Millis
bare = record { interval = none; once = false; json = false; log = false }

abbrev machine : Snapshot Millis
machine = record {
  timestamp = some 0;
  machine = "Thelio";
  fans = [];
  temperatures = [];
  controllers = [];
  alerts = [];
  throttle = none;
  gpu = none;
  controller = none;
}

abbrev console : Console Millis
console = record {
  is_stdin_tty = true;
  is_stdout_tty = false;
  is_printable = λ c. true;
  show_value = λ v. "";
  wrap = λ w s. s ∷ [];
  dumps = λ s. s.machine;
  stamp = λ t. "12:00:00";
  now = some 0;
  collected = machine;
  fresh = machine ∷ machine ∷ [];
  ending = λ i. curses_error "no";
}

needs_a_terminal :
    main console bare ≡ (err "The dashboard needs a terminal. Use --once, --json or --log." ∷ [], 2)
unfolding main
needs_a_terminal = refl

tries_curses :
    main (record console { is_stdout_tty = true }) bare
    ≡ (err "Cannot initialize terminal: no. Try --once." ∷ [], 2)
unfolding main
tries_curses = refl

dumps_json : main console (record bare { json = true }) ≡ (out "Thelio" ∷ [], 0)
unfolding main
dumps_json = refl

logs_a_change : main console (record bare { log = true }) ≡ (out "12:00:00 IO ABSENT" ∷ [], 0)
unfolding main
logs_a_change = refl

refuses_an_interval :
    main console (record bare { interval = some (some 100) })
    ≡ (err "--interval must be between 0.2 and 3600 seconds" ∷ [], 2)
unfolding main
refuses_an_interval = refl

main_lem_example : Answers false (main console bare)
main_lem_example = main_lem console bare
