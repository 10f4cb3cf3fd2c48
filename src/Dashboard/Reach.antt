-- ===== src/Dashboard/Reach.antt =====
-- dashboard.py: the states that the loop of `_run` reaches.
use mathlib.Core.Path.{subst}
use thelio_fans.Prelude.{
  ℕ, true, false, ◌≡◌, refl, sym, ◌∙◌, ap, Option, none, some, is_some, List, [], All, if_elim,
}
use mathlib.Core.Bool.{true≢false, false≢true}
use thelio_fans.Float.{Float}
use thelio_fans.Snapshot.{Snapshot}
use thelio_fans.Dashboard.FanRows.{Line}
use thelio_fans.Dashboard.Histories.{Histories, IsBounded, is_live, live_keys, record_all-IsBounded}
use thelio_fans.Dashboard.View.{View, pressed, takes_sample}
use thelio_fans.Dashboard.Screen.{Written}
use thelio_fans.Dashboard.Loop.{
  Live, Input, Step, returned, raised, goes_on, begin, sampled, after_key, with_snapshot, iteration,
  drawn_and_pressed_all,
}

-- The states at the start of an iteration.
pub data Reached {F : Type 0} ⦃f : Float F⦄ (interval : F) : Live F → Type 0 where
  at_start : Reached interval begin
  goes_to :
      (i : Input F) (s next : Live F) (written : List Written)
      → Reached interval s
      → iteration interval i s ≡ goes_on written next
      → Reached interval next

module _ {F : Type 0} where
  -- Every history is of a fan or a temperature of the snapshot, or the throttle counter's.
  abbrev pub IsCurrent : Option (Snapshot F) → Histories → Type 0
  IsCurrent none histories = histories ≡ []
  IsCurrent (some snapshot) histories = All (λ e. is_live (live_keys snapshot) e ≡ true) histories

  abbrev IsRecorded : Live F → Type 0
  IsRecorded s = IsBounded s.histories × IsCurrent s.snapshot s.histories

  -- An iteration that goes on has a snapshot, and keeps it and the histories.
  abbrev Keeps : Live F → Step F → Type 0
  Keeps t returned = Unit
  Keeps t raised = Unit
  Keeps t (goes_on written next) =
      (next.snapshot ≡ t.snapshot) × (next.histories ≡ t.histories) × (is_some next.snapshot ≡ true)

module _ {F : Type 0} ⦃f : Float F⦄ (interval : F) where
  after_key-Keeps :
      (i : Input F) (t : Live F) (page : ℕ) (r : List Written × View F × List Line)
      → is_some t.snapshot ≡ true
      → Keeps t (after_key interval i t page r)
  unfolding after_key
  after_key-Keeps i t page (written, view, lines) e = ended (pressed i.key page view)
    where
      ended :
          (o : Option (View F))
          → Keeps t (elim o [
            | none ↦ returned
            | some next ↦ goes_on written (record t { view = next; lines = lines })
          ])
      ended none = tt
      ended (some next) = (refl, refl, e)

  with_snapshot-Keeps :
      (i : Input F) (t : Live F) (o : Option (Snapshot F))
      → t.snapshot ≡ o
      → Keeps t (with_snapshot interval i t o)
  with_snapshot-Keeps i t none e = tt
  with_snapshot-Keeps i t (some snapshot) e =
      drawn_and_pressed_all interval (Keeps t) i t snapshot tt
        (λ page r. after_key-Keeps i t page r (ap is_some e))

  iteration-Keeps :
      (i : Input F) (s next : Live F) (written : List Written)
      → iteration interval i s ≡ goes_on written next
      → Keeps (sampled interval i s) (goes_on written next)
  unfolding iteration
  iteration-Keeps i s next written go =
      let t = sampled interval i s in subst (Keeps t) go (with_snapshot-Keeps i t t.snapshot refl)

  sampled-IsRecorded : (i : Input F) (s : Live F) → IsRecorded s → IsRecorded (sampled interval i s)
  unfolding sampled
  sampled-IsRecorded i s h =
      if_elim IsRecorded (takes_sample (is_some s.snapshot) s.view i.now) _ s
        (λ _. record_all-IsBounded s.histories i.fresh h.0) (λ _. h)

  -- In every state that the loop reaches, no history is longer than 600 samples, and every history
  -- is of a fan or a temperature of the last snapshot, or the throttle counter's.
  pub Reached-IsRecorded :
      (s : Live F) → Reached interval s → IsBounded s.histories × IsCurrent s.snapshot s.histories
  Reached-IsRecorded _ at_start = (tt, refl)
  Reached-IsRecorded _ (goes_to i s next written before go) =
      let (snapshots, histories, _) = iteration-Keeps i s next written go in
      rw (snapshots, histories) (sampled-IsRecorded i s (Reached-IsRecorded s before))

  Reached-paused :
      (s : Live F) → Reached interval s → s.view.paused ≡ true → is_some s.snapshot ≡ true
  Reached-paused _ at_start e = absurd (false≢true e)
  Reached-paused _ (goes_to i s next written before go) e =
      let (_, _, has) = iteration-Keeps i s next written go in has

  paused_keeps :
      (s : Live F) (i : Input F)
      → s.view.paused ≡ true
      → is_some s.snapshot ≡ true
      → takes_sample (is_some s.snapshot) s.view i.now ≡ false
  unfolding takes_sample
  paused_keeps s i p h = rw (h, p) refl

  -- In a state that the loop reaches while it is paused, the next iteration takes no sample, however
  -- late it is: snapshot, histories and view stay as they are.
  pub sampled-paused :
      (s : Live F) (i : Input F)
      → Reached interval s
      → s.view.paused ≡ true
      → sampled interval i s ≡ s
  unfolding sampled
  sampled-paused s i r p =
      if_elim (λ t. t ≡ s) (takes_sample (is_some s.snapshot) s.view i.now) _ s
        (λ e. absurd (true≢false (sym e ∙ paused_keeps s i p (Reached-paused s r p)))) (λ _. refl)
