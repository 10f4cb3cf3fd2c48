-- ===== src/Load/Ownership.antt =====
-- load.py: the attributes of `OpenClLoad` hold its live objects, and what keeps that so.
use thelio_fans.Prelude.{
  ℕ, zero, suc, ℤ, pos, eq_ℤ, leb_ℤ, String, Bool, true, false, ◌≡◌, refl, ap, ◌∙◌, inl, inr,
  Option, none, some, List, [], ◌∷◌, All, if◌then◌else◌, if_elim, Bool-cases, arith,
}
use thelio_fans.Load.State.{
  Slot, same_slot, ClEvent, created, released, ClLoad, Result, ok, failed, M, then_do, put, log,
}
use thelio_fans.Load.OpenCl.{
  check, keep, require, clamped, new_load, min_iterations, max_iterations,
}

-- The object of a slot that has been created and not released, by the events.
abbrev pub live : Slot → List ClEvent → Option ℕ
live k [] = none
live k (created j h ∷ es) = if same_slot j k then some h else live k es
live k (released j h ∷ es) = if same_slot j k then none else live k es

-- An object is created where the slot has none, and the object released is the one that is there.
abbrev pub IsOwned : List ClEvent → Type 0
IsOwned [] = Unit
IsOwned (created k h ∷ es) = (live k es ≡ none) × IsOwned es
IsOwned (released k h ∷ es) = (live k es ≡ some h) × IsOwned es

-- No NULL is kept.
abbrev pub IsReal : Option ℕ → Type 0
IsReal (some zero) = ⊥
IsReal _ = Unit

-- The attributes hold the live objects.
pub record IsTracked (trace : List ClEvent) (handle : Slot → Option ℕ) : Type 0 where
  pub owned : IsOwned trace
  pub holds : (k : Slot) → live k trace ≡ handle k
  pub real : (k : Slot) → IsReal (handle k)

abbrev pub Tracked : ClLoad → Type 0
Tracked s = IsTracked s.trace s.handle

abbrev pub Empty : List Slot → ClLoad → Type 0
Empty ks s = All (λ k. s.handle k ≡ none) ks

pub new_load-Tracked : Tracked new_load
new_load-Tracked = record { owned = tt; holds = λ k. refl; real = λ k. tt }

-- One slot changes with its event.
created-Tracked :
    (k : Slot) (h : ℕ) (s : ClLoad)
    → Tracked s
    → s.handle k ≡ none
    → Tracked (put k (some (suc h)) (log (created k (suc h)) s))
created-Tracked k h s i e = record {
  owned = (i.holds k ∙ e, i.owned);
  holds = λ j. ap (λ o. if same_slot k j then some (suc h) else o) (i.holds j);
  real = λ j. if_elim IsReal (same_slot k j) (some (suc h)) (s.handle j) (λ _. tt) (λ _. i.real j);
}

pub released-Tracked :
    (k : Slot) (h : ℕ) (s : ClLoad)
    → Tracked s
    → s.handle k ≡ some h
    → Tracked (put k none (log (released k h) s))
released-Tracked k h s i e = record {
  owned = (i.holds k ∙ e, i.owned);
  holds = λ j. ap (λ o. if same_slot k j then none else o) (i.holds j);
  real = λ j. if_elim IsReal (same_slot k j) none (s.handle j) (λ _. tt) (λ _. i.real j);
}

-- Whatever the outcome, the attributes hold the live objects; on success, `P` as well.
abbrev pub Holds : {A : Type 0} → (ClLoad → Type 0) → Result A × ClLoad → Type 0
Holds P (ok a, s) = Tracked s × P s
Holds P (failed why, s) = Tracked s

module _ {A B : Type 0} (P Q : ClLoad → Type 0) where
  pub then_do-Holds :
      (r : Result A × ClLoad) (k : A → M B)
      → Holds P r
      → ((a : A) (s : ClLoad) → Tracked s → P s → Holds Q (k a s))
      → Holds Q (then_do k r)
  then_do-Holds (ok a, s) k h g = g a s h.0 h.1
  then_do-Holds (failed why, s) k h g = h

module _ (P : ClLoad → Type 0) where
  pub check-Holds :
      (err : ℤ) (what : String) (s : ClLoad) → Tracked s → P s → Holds P (check err what s)
  unfolding check
  check-Holds err what s i p = elim (Bool-cases (eq_ℤ err (pos 0))) [
    | inl e ↦ rw e (i, p)
    | inr e ↦ rw e i
  ]

  pub require-Holds :
      (found : Bool) (why : String) (s : ClLoad) → Tracked s → P s → Holds P (require found why s)
  unfolding require
  require-Holds true why s i p = (i, p)
  require-Holds false why s i p = i

pub keep-Holds :
    (P : ClLoad → Type 0) (k : Slot) (o : Option ℕ) (what : String) (s : ClLoad)
    → Tracked s
    → s.handle k ≡ none
    → ((h : ℕ) → P (put k (some (suc h)) (log (created k (suc h)) s)))
    → Holds P (keep k o what s)
unfolding keep
keep-Holds P k none what s i e p = i
keep-Holds P k (some zero) what s i e p = i
keep-Holds P k (some (suc h)) what s i e p = (created-Tracked k h s i e, p h)

-- The range of the iterations of a launch.
abbrev pub InRange : ℤ → Type 0
InRange n = (leb_ℤ (pos min_iterations) n ≡ true) × (leb_ℤ n (pos max_iterations) ≡ true)

pub clamped-InRange : (n : ℤ) → InRange (clamped n)
unfolding clamped
clamped-InRange n = ground arith

pub Holds-impl :
    {A : Type 0} (P Q : ClLoad → Type 0) (r : Result A × ClLoad)
    → ((s : ClLoad) → P s → Q s)
    → Holds P r
    → Holds Q r
Holds-impl P Q (ok a, s) g h = (h.0, g s h.1)
Holds-impl P Q (failed why, s) g h = h

pub put-Empty :
    (k : Slot) (ks : List Slot) (o : Option ℕ) (s : ClLoad)
    → All (λ j. same_slot k j ≡ false) ks
    → Empty ks s
    → Empty ks (put k o s)
put-Empty k [] o s d e = tt
put-Empty k (j ∷ ks) o s d e = (rw d.0 e.0, put-Empty k ks o s d.1 e.1)
