-- ===== src/Dashboard/Loop.antt =====
-- dashboard.py: the loop of `_run`. What an iteration meets outside is its input: the snapshot that
-- `fresh()` would return, the clock, the terminal and the key pressed.
use thelio_fans.Prelude.{
  ℕ, pos, Bool, true, false, ◌≡◌, refl, sym, ap, ◌∙◌, Option, none, some, is_some, List, [],
  if◌then◌else◌, if_elim,
}
use mathlib.Core.Path.{subst}
use mathlib.Core.Bool.{false≢true}
use thelio_fans.Float.{Float}
use thelio_fans.Snapshot.{Snapshot}
use thelio_fans.Dashboard.Histories.{Histories, record_all}
use thelio_fans.Dashboard.FanRows.{Line}
use thelio_fans.Dashboard.View.{View, Key, refresh, takes_sample, page_of, pressed}
use thelio_fans.Dashboard.Layout.{charts}
use thelio_fans.Dashboard.Screen.{Written}
use thelio_fans.Dashboard.Frame.{Terminal, frame}

-- The local variables of `_run`.
pub record Live (F : Type 0) : Type 0 where
  pub snapshot : Option (Snapshot F)
  pub histories : Histories
  pub view : View F
  pub lines : List Line

pub record Input (F : Type 0) : Type 0 where
  pub fresh : Snapshot F
  -- the clock at the start, and after a sample
  pub now : F
  pub later : F
  pub terminal : Terminal F
  pub key : Key

-- How an iteration ends.
pub data Step (F : Type 0) : Type 0 where
  returned : Step F
  raised : Step F
  goes_on : List Written → Live F → Step F

module _ {F : Type 0} ⦃f : Float F⦄ where
  abbrev pub begin : Live F
  begin = record {
    snapshot = none;
    histories = [];
    view = record { paused = false; offset = pos 0; due = f.decimal 0 1 };
    lines = [];
  }

module _ {F : Type 0} ⦃f : Float F⦄ (interval : F) where
  -- The sample at the start of an iteration, if it is due.
  unfoldable pub sampled : Input F → Live F → Live F
  unfolding takes_sample record_all
  sampled i s =
      if takes_sample (is_some s.snapshot) s.view i.now
      then record s {
        snapshot = some i.fresh;
        histories = record_all s.histories i.fresh;
        view = record s.view { due = f.add i.later interval };
      }
      else s

  -- What the key does, and the lines kept.
  unfoldable pub after_key : Input F → Live F → ℕ → List Written × View F × List Line → Step F
  unfolding pressed
  after_key i s page (written, view, lines) = elim (pressed i.key page view) [
    | none ↦ returned
    | some next ↦ goes_on written (record s { view = next; lines = lines })
  ]

  -- The rows that the charts leave to the table, for the keys that turn a page.
  abbrev pub page_at : Terminal F → Snapshot F → Histories → ℕ
  page_at t snapshot histories =
      elim (charts t.is_space t.is_printable t.height t.width interval snapshot histories) [
        | none ↦ 1
        | some charted ↦ page_of t.height charted.1
      ]

  -- The drawing and the key, with a snapshot.
  unfoldable pub drawn_and_pressed : Input F → Live F → Snapshot F → Step F
  unfolding frame after_key page_of charts
  drawn_and_pressed i s snapshot =
      elim (frame i.terminal interval snapshot s.histories s.view s.lines) [
        | none ↦ raised
        | some r ↦ after_key i s (page_at i.terminal snapshot s.histories) r
      ]

  abbrev pub with_snapshot : Input F → Live F → Option (Snapshot F) → Step F
  with_snapshot i s none = raised
  with_snapshot i s (some snapshot) = drawn_and_pressed i s snapshot

  -- An iteration of the loop.
  unfoldable pub iteration : Input F → Live F → Step F
  unfolding sampled drawn_and_pressed
  iteration i s = let t = sampled i s in with_snapshot i t t.snapshot

module _ {F : Type 0} ⦃f : Float F⦄ (interval : F) where
  -- An iteration that goes on leaves the view unpaused, and the next sample due at once.
  abbrev IsDue : Step F → Type 0
  IsDue returned = Unit
  IsDue raised = Unit
  IsDue (goes_on written s) = (s.view.paused ≡ false) × (s.view.due ≡ f.of_int (pos 0))

  after_key-IsDue :
      (i : Input F) (s : Live F) (page : ℕ) (r : List Written × View F × List Line)
      → i.key ≡ refresh
      → IsDue (after_key interval i s page r)
  unfolding after_key pressed
  after_key-IsDue i s page (written, view, lines) e = rw e (refl, refl)

  -- A drawing raises, or ends with a key.
  pub drawn_and_pressed_all :
      (P : Step F → Type 0) (i : Input F) (s : Live F) (snapshot : Snapshot F)
      → P raised
      → ((page : ℕ) (r : List Written × View F × List Line) → P (after_key interval i s page r))
      → P (drawn_and_pressed interval i s snapshot)
  unfolding drawn_and_pressed
  drawn_and_pressed_all P i s snapshot h k =
      ended (frame i.terminal interval snapshot s.histories s.view s.lines)
    where
      ended :
          (o : Option (List Written × View F × List Line))
          → P (elim o [
            | none ↦ raised
            | some r ↦ after_key interval i s (page_at interval i.terminal snapshot s.histories) r
          ])
      ended none = h
      ended (some r) = k (page_at interval i.terminal snapshot s.histories) r

  with_snapshot-IsDue :
      (i : Input F) (s : Live F) (o : Option (Snapshot F))
      → i.key ≡ refresh
      → IsDue (with_snapshot interval i s o)
  with_snapshot-IsDue i s none e = tt
  with_snapshot-IsDue i s (some snapshot) e =
      drawn_and_pressed_all IsDue i s snapshot tt (λ page r. after_key-IsDue i s page r e)

  is_due :
      (has : Bool) (v : View F) (now : F)
      → v.paused ≡ false
      → f.le v.due now ≡ true
      → takes_sample has v now ≡ true
  unfolding takes_sample
  is_due true v now p d = rw (p, d) refl
  is_due false v now p d = refl

  samples_when_due :
      (j : Input F) (s : Live F)
      → s.view.paused ≡ false
      → f.le s.view.due j.now ≡ true
      → ((sampled interval j s).snapshot ≡ some j.fresh)
        × ((sampled interval j s).histories ≡ record_all s.histories j.fresh)
  unfolding sampled
  samples_when_due j s p d =
      if_elim
        (λ (t : Live F).
          (t.snapshot ≡ some j.fresh) × (t.histories ≡ record_all s.histories j.fresh))
        (takes_sample (is_some s.snapshot) s.view j.now) _ _ (λ _. (refl, refl))
        (λ e. absurd (false≢true (sym e ∙ is_due (is_some s.snapshot) s.view j.now p d)))

  -- After `r` is pressed in an iteration that goes on, even while paused, the next iteration takes a
  -- sample and records it, if the clock is not negative then.
  pub refresh_samples :
      (i j : Input F) (s next : Live F) (written : List Written)
      → i.key ≡ refresh
      → iteration interval i s ≡ goes_on written next
      → f.le (f.of_int (pos 0)) j.now ≡ true
      → ((sampled interval j next).snapshot ≡ some j.fresh)
        × ((sampled interval j next).histories ≡ record_all next.histories j.fresh)
  unfolding iteration
  refresh_samples i j s next written e go clock =
      let t = sampled interval i s in
      let (unpaused, due) = subst IsDue go (with_snapshot-IsDue i t t.snapshot e) in
      samples_when_due j next unpaused (ap (λ d. f.le d j.now) due ∙ clock)
