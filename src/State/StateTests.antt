-- ===== src/State/StateTests.antt =====
-- Runs and witnesses for state.py.
use thelio_fans.Prelude.{◌≡◌, ◌↔◌, refl, some, is_some, true, [], ◌∷◌}
use thelio_fans.Float.Millis.{Millis}
use thelio_fans.Snapshot.{end, object}
use thelio_fans.State.{
  StateFile, fstat_call, read_call, close_call, read_state, IsClosed, IsAccepted, read_state_lem,
}

-- A regular file of two bytes that decodes as the empty object.
abbrev file : StateFile Millis
file = record {
  opened = some 3;
  regular = some true;
  read = λ n. some (123 ∷ 125 ∷ []);
  loads = λ raw. some (object end);
}

empty_object : read_state file ≡ (some end, fstat_call 3 ∷ read_call 3 ∷ close_call 3 ∷ [])
unfolding read_state
empty_object = refl

read_state_lem_example :
    IsClosed file.opened (read_state file).1
    × (((read_state file).0 ≡ some end) ↔ ((is_some file.opened ≡ true) × IsAccepted file end))
read_state_lem_example = read_state_lem file end
