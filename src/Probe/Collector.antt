-- ===== src/Probe/Collector.antt =====
-- probe.py, `Collector`: snapshots that share one NVML session. The clock and the status file are
-- read anew for each.
use thelio_fans.Prelude.{String, ◌≡◌, refl, Option, List, [], ◌∷◌, length}
use thelio_fans.Float.{Float}
use thelio_fans.Snapshot.{Snapshot, Value}
use thelio_fans.Nvml.{Nvml, Session, new_session, close, read, reads}
use thelio_fans.Nvml.Balance.{IsPaired, IsShut, reads-IsPaired}
use thelio_fans.Probe.Reading.{Sysfs}
use thelio_fans.Probe.Collect.{collect}

-- What a snapshot finds: the file system, the time, and what `read_state` returns.
pub record Moment (F : Type 0) : Type 0 where
  pub fs : Sysfs
  pub time : F
  pub state : Option (List (String × Value F))

module _ {F : Type 0} ⦃f : Float F⦄ (nvml : Nvml) (root : String) where
  -- `__call__`
  unfoldable pub fresh : Moment F → Session → Snapshot F × Session
  unfolding read collect
  fresh m s = let (gpu, t) = read nvml s in (collect m.fs root m.time gpu m.state, t)

  -- A client's calls, from `__enter__` on.
  unfoldable pub polled : List (Moment F) → Session → List (Snapshot F) × Session
  unfolding fresh
  polled [] s = ([], s)
  polled (m ∷ ms) s =
      let (snapshot, t) = fresh m s in let (snapshots, u) = polled ms t in (snapshot ∷ snapshots, u)

  -- The block of `with Collector() as fresh`, whose end calls `close`.
  unfoldable pub with_collector : List (Moment F) → List (Snapshot F) × Session
  unfolding polled close
  with_collector ms = let (snapshots, s) = polled ms new_session in (snapshots, close s)

  polled-reads :
      (ms : List (Moment F)) (s : Session) → (polled ms s).1 ≡ (reads {F = F} nvml (length ms) s).1
  unfolding polled fresh reads
  polled-reads [] s = refl
  polled-reads (m ∷ ms) s = polled-reads ms (read {F = F} nvml s).1

  -- Whatever the snapshots find, NVML is initialised and shut down by turns in a block of
  -- `with Collector()`, and is shut at its end.
  pub with_collector-IsPaired :
      (ms : List (Moment F)) → IsPaired (with_collector ms).1.trace × IsShut (with_collector ms).1
  unfolding with_collector
  with_collector-IsPaired ms =
      let (paired, shut, _) = reads-IsPaired F nvml (length ms) in
      rw (polled-reads ms new_session) (paired, shut)
