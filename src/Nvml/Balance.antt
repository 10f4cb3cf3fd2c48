-- ===== src/Nvml/Balance.antt =====
-- gpu.py: NVML is initialised and shut down by turns, and shut down after a reading that failed.
use thelio_fans.Prelude.{
  ℕ, zero, suc, Bool, true, false, not, ◌≡◌, refl, sym, ◌∙◌, Option, none, some, is_some, List, [],
  ◌∷◌, if_elim,
}
use mathlib.Core.Bool.{true≢false, false≢true}
use thelio_fans.Float.{Float}
use thelio_fans.Snapshot.{Gpu}
use thelio_fans.Nvml.{
  Nvml, Answer, returns, raises, NvmlCall, init, shutdown, Session, new_session, close, advance,
  take_handle, initialise, open_session, after_reading, answer_of, read_opened, read, reads,
}

abbrev is_open : List NvmlCall → Bool
is_open [] = false
is_open (init ∷ calls) = true
is_open (shutdown ∷ calls) = false

-- NVML is initialised only while it is shut, and shut only while it is initialised.
abbrev pub IsPaired : List NvmlCall → Type 0
IsPaired [] = Unit
IsPaired (init ∷ calls) = (is_open calls ≡ false) × IsPaired calls
IsPaired (shutdown ∷ calls) = (is_open calls ≡ true) × IsPaired calls

none_of : {A : Type 0} (o : Option A) → is_some o ≡ false → o ≡ none
none_of none e = refl
none_of (some a) e = absurd (true≢false e)

-- The calls are paired, and `_initialised` says whether NVML is open.
record IsTracked (trace : List NvmlCall) (initialised : Bool) : Type 0 where
  paired : IsPaired trace
  tracks : is_open trace ≡ initialised

abbrev Tracked : Session → Type 0
Tracked s = IsTracked s.trace s.initialised

-- Between calls there is a handle as well exactly while NVML is open.
record IsSession (s : Session) : Type 0 where
  tracked : Tracked s
  backed : is_some s.handle ≡ s.initialised

new_session-IsSession : IsSession new_session
new_session-IsSession = record { tracked = record { paired = tt; tracks = refl }; backed = refl }

-- NVML is shut, and there is no handle.
abbrev pub IsShut : Session → Type 0
IsShut s = (is_open s.trace ≡ false) × (s.handle ≡ none)

abbrev IsClosed : Session → Type 0
IsClosed s = IsSession s × IsShut s

close-IsClosed : (s : Session) → Tracked s → IsClosed (close s)
unfolding close
close-IsClosed s i =
    if_elim IsClosed s.initialised
      (record s { handle = none; initialised = false; trace = shutdown ∷ s.trace })
      (record s { handle = none })
      (λ e. (
        record {
          tracked = record { paired = (i.tracks ∙ e, i.paired); tracks = refl };
          backed = refl;
        },
        (refl, refl),
      ))
      (λ e. (record { tracked = i; backed = sym e }, (i.tracks ∙ e, refl)))

-- After `_open`: a handle, or a shut session.
abbrev IsOpened : Bool × Session → Type 0
IsOpened (true, s) = IsSession s × (is_some s.handle ≡ true)
IsOpened (false, s) = IsClosed s

module _ (nvml : Nvml) where
  take_handle-IsOpened :
      (a : Answer ℕ) (s : Session)
      → Tracked s
      → s.initialised ≡ true
      → IsOpened (take_handle nvml a s)
  unfolding take_handle
  take_handle-IsOpened (returns h) s i e = (record { tracked = i; backed = sym e }, refl)
  take_handle-IsOpened raises s i e = close-IsClosed s i

  initialise-IsOpened :
      (a : Answer (Unit {0})) (s : Session)
      → Tracked s
      → s.initialised ≡ false
      → IsOpened (initialise nvml a s)
  unfolding initialise
  initialise-IsOpened raises s i e = close-IsClosed s i
  initialise-IsOpened (returns u) s i e =
      take_handle-IsOpened (nvml.handle_at s.step)
        (advance nvml (record s { initialised = true; trace = init ∷ s.trace }))
        (record { paired = (i.tracks ∙ e, i.paired); tracks = refl }) refl

  open_session-IsOpened : (s : Session) → IsSession s → IsOpened (open_session nvml s)
  unfolding open_session
  open_session-IsOpened s i =
      if_elim IsOpened (is_some s.handle) (true, s) _ (λ e. (i, e))
        (λ e.
          if_elim IsOpened (not nvml.installed) (false, s) _
            (λ _. (i, (i.tracked.tracks ∙ sym i.backed ∙ e, none_of s.handle e)))
            (λ _.
              initialise-IsOpened (nvml.init_at s.step) (advance nvml s) i.tracked
                (sym i.backed ∙ e)))

module _ {F : Type 0} where
  -- The reading has the one value that a session is kept for.
  abbrev has_temp : Option (Gpu F) → Bool
  has_temp none = false
  has_temp (some gpu) = is_some gpu.temp_c

  -- After `read`: without a temperature the session is shut, and with one it is kept.
  abbrev pub IsKept : Option (Gpu F) × Session → Type 0
  IsKept (gpu, s) =
      (has_temp gpu ≡ false → IsShut s)
      × (has_temp gpu ≡ true → (is_open s.trace ≡ true) × (is_some s.handle ≡ true))

module _ (F : Type 0) ⦃f : Float F⦄ (nvml : Nvml) where
  abbrev IsRead : Option (Gpu F) × Session → Type 0
  IsRead r = IsSession r.1 × IsKept r

  after_reading-IsRead :
      (a : Answer (Gpu F)) (s : Session)
      → IsSession s
      → is_some s.handle ≡ true
      → IsRead (after_reading nvml a s)
  unfolding after_reading
  after_reading-IsRead raises s i e =
      let (c, shut) = close-IsClosed s i.tracked in (c, ((λ _. shut), (λ h. absurd (false≢true h))))
  after_reading-IsRead (returns gpu) s i e =
      if_elim (λ t. IsRead (some gpu, t)) (is_some gpu.temp_c) s (close s)
        (λ h. (
          i,
          ((λ n. absurd (true≢false (sym h ∙ n))), (λ _. (i.tracked.tracks ∙ sym i.backed ∙ e, e))),
        ))
        (λ h.
          let (c, shut) = close-IsClosed s i.tracked in
          (c, ((λ _. shut), (λ n. absurd (true≢false (sym n ∙ h))))))

  read_opened-IsRead : (o : Bool × Session) → IsOpened o → IsRead (read_opened {F = F} nvml o)
  unfolding read_opened
  read_opened-IsRead (false, s) (i, shut) = (i, ((λ _. shut), (λ h. absurd (false≢true h))))
  read_opened-IsRead (true, s) (i, e) =
      after_reading-IsRead (answer_of nvml (nvml.getters_at s.step)) (advance nvml s)
        (record { tracked = i.tracked; backed = i.backed }) e

  read-IsRead : (s : Session) → IsSession s → IsRead (read {F = F} nvml s)
  unfolding read
  read-IsRead s i = read_opened-IsRead (open_session nvml s) (open_session-IsOpened nvml s i)

  reads-IsSession : (n : ℕ) (s : Session) → IsSession s → IsSession (reads {F = F} nvml n s).1
  unfolding reads
  reads-IsSession zero s i = i
  reads-IsSession (suc n) s i = reads-IsSession n (read {F = F} nvml s).1 (read-IsRead s i).0

  -- Whatever NVML answers, a session initialises it only while it is shut and shuts it down only
  -- while it is initialised; a reading without a temperature leaves it shut, one with a temperature
  -- leaves it open with a handle; and closing the session leaves it shut.
  pub reads-IsPaired :
      (n : ℕ)
      → let s = (reads {F = F} nvml n new_session).1 in
        IsPaired (close s).trace × IsShut (close s) × IsKept {F = F} (read nvml s)
  reads-IsPaired n =
      let i = reads-IsSession n new_session new_session-IsSession in
      let (c, shut) = close-IsClosed _ i.tracked in (c.tracked.paired, shut, (read-IsRead _ i).1)
