-- ===== src/Dashboard/Histories.antt =====
-- dashboard.py: `_record`, and the bound on what it keeps.
use thelio_fans.Prelude.{
  ℕ, ◌≤◌, ℤ, String, str_eq, concat, Bool, true, ◌≡◌, Option, none, some, default, List, [], ◌∷◌,
  ◌++◌, any, filter, length, take_last, length-take_last, All, lookup, insert, lookup-insert,
  if◌then◌else◌, if_elim,
}
use mathlib.Core.Option
use thelio_fans.Float.{Float}
use thelio_fans.Snapshot.{Snapshot, Fan, Temperature, Throttle}

-- Samples kept for a key.
abbrev pub max_history : ℕ
max_history = 600

abbrev pub throttle_key : String
throttle_key = "throttle"

-- A history, oldest first.
abbrev pub History : Type 0
History = List (Option ℤ)

abbrev pub Histories : Type 0
Histories = List (String × History)

-- `histories[key].append(value)`, on a `deque(maxlen=HISTORY)` that a missing key makes
unfoldable pub append : String → Option ℤ → Histories → Histories
unfolding insert lookup
append key value histories =
    insert key (take_last max_history (default [] (lookup key histories) ++ (value ∷ []))) histories

abbrev duty_key : String → String
duty_key key = concat (key ∷ ":duty" ∷ [])

module _ {F : Type 0} ⦃f : Float F⦄ where
  unfoldable pub record_fans : List (Fan F) → Histories → Histories
  unfolding append
  record_fans [] h = h
  record_fans (fan ∷ fans) h =
      record_fans fans
        (append (duty_key fan.key) (Option.map f.round fan.duty) (append fan.key fan.rpm h))

  unfoldable pub record_temperatures : List (Temperature F) → Histories → Histories
  unfolding append
  record_temperatures [] h = h
  record_temperatures (t ∷ ts) h =
      record_temperatures ts (append t.key (Option.map f.round t.celsius) h)

module _ {F : Type 0} where
  -- The set `live`.
  unfoldable pub live_keys : Snapshot F → List String
  live_keys snapshot =
      throttle_key ∷ fan_keys snapshot.fans ++ temperature_keys snapshot.temperatures
    where
      fan_keys : List (Fan F) → List String
      fan_keys [] = []
      fan_keys (fan ∷ fans) = fan.key ∷ duty_key fan.key ∷ fan_keys fans

      temperature_keys : List (Temperature F) → List String
      temperature_keys [] = []
      temperature_keys (t ∷ ts) = t.key ∷ temperature_keys ts

unfoldable pub record_throttle : Option Throttle → Histories → Histories
unfolding append
record_throttle none h = h
record_throttle (some t) h = append throttle_key (some t.package_events) h

abbrev pub is_live : List String → String × History → Bool
is_live live e = any (str_eq e.0) live

module _ {F : Type 0} ⦃f : Float F⦄ where
  -- `_record`
  unfoldable pub record_all : Histories → Snapshot F → Histories
  unfolding record_fans record_temperatures record_throttle live_keys
  record_all histories snapshot = filter (is_live (live_keys snapshot)) (
      record_throttle snapshot.throttle
        (record_temperatures snapshot.temperatures (record_fans snapshot.fans histories)))

-- No history is longer than 600 samples.
abbrev pub IsBounded : Histories → Type 0
IsBounded = All (λ e. length e.1 ≤ 600)

insert-IsBounded :
    (key : String) (v : History) (h : Histories)
    → length v ≤ 600
    → IsBounded h
    → IsBounded (insert key v h)
unfolding insert
insert-IsBounded key v [] b i = (b, tt)
insert-IsBounded key v ((j, w) ∷ h) b i =
    if_elim IsBounded (str_eq j key) ((j, v) ∷ h) ((j, w) ∷ insert key v h) (λ _. (b, i.1))
      (λ _. (i.0, insert-IsBounded key v h b i.1))

append-IsBounded :
    (key : String) (v : Option ℤ) (h : Histories) → IsBounded h → IsBounded (append key v h)
unfolding append
append-IsBounded key v h i =
    insert-IsBounded key _ h (length-take_last max_history (default [] (lookup key h) ++ (v ∷ [])))
      i

filter-All {κ} :
    {A : Type 0} (P : A → Type κ) (q : A → Bool) (l : List A) → All P l → All P (filter q l)
filter-All P q [] h = tt
filter-All P q (x ∷ l) h =
    if_elim (All P) (q x) (x ∷ filter q l) (filter q l) (λ _. (h.0, filter-All P q l h.1))
      (λ _. filter-All P q l h.1)

filter-true : {A : Type 0} (q : A → Bool) (l : List A) → All (λ x. q x ≡ true) (filter q l)
filter-true q [] = tt
filter-true q (x ∷ l) =
    if_elim (All (λ x. q x ≡ true)) (q x) (x ∷ filter q l) (filter q l) (λ e. (e, filter-true q l))
      (λ _. filter-true q l)

-- The history of a key ends in the value appended, after what it held, less the oldest values if
-- it would have more than 600; the other histories stay.
pub append-lookup :
    (key k : String) (value : Option ℤ) (histories : Histories)
    → lookup k (append key value histories) ≡ (
        if str_eq key k
        then some (take_last 600 (default [] (lookup key histories) ++ (value ∷ [])))
        else lookup k histories)
unfolding append
append-lookup key k value histories = lookup-insert key k _ histories

record_throttle-IsBounded :
    (t : Option Throttle) (h : Histories) → IsBounded h → IsBounded (record_throttle t h)
unfolding record_throttle
record_throttle-IsBounded none h i = i
record_throttle-IsBounded (some t) h i = append-IsBounded throttle_key _ h i

module _ {F : Type 0} ⦃f : Float F⦄ where
  record_fans-IsBounded :
      (fans : List (Fan F)) (h : Histories) → IsBounded h → IsBounded (record_fans fans h)
  unfolding record_fans
  record_fans-IsBounded [] h i = i
  record_fans-IsBounded (fan ∷ fans) h i =
      record_fans-IsBounded fans _
        (append-IsBounded (duty_key fan.key) _ _ (append-IsBounded fan.key fan.rpm h i))

  record_temperatures-IsBounded :
      (ts : List (Temperature F)) (h : Histories)
      → IsBounded h
      → IsBounded (record_temperatures ts h)
  unfolding record_temperatures
  record_temperatures-IsBounded [] h i = i
  record_temperatures-IsBounded (t ∷ ts) h i =
      record_temperatures-IsBounded ts _ (append-IsBounded t.key _ h i)

  -- If no history was longer than 600 samples, then none is after a snapshot has been recorded,
  -- and every history left is of a fan or a temperature of that snapshot, or the throttle counter's.
  pub record_all-IsBounded :
      (histories : Histories) (snapshot : Snapshot F)
      → IsBounded histories
      → IsBounded (record_all histories snapshot)
        × All (λ e. is_live (live_keys snapshot) e ≡ true) (record_all histories snapshot)
  unfolding record_all
  record_all-IsBounded histories snapshot i =
      let kept =
        record_throttle snapshot.throttle
          (record_temperatures snapshot.temperatures (record_fans snapshot.fans histories)) in
      (
        filter-All (λ e. length e.1 ≤ 600) (is_live (live_keys snapshot)) kept
            (record_throttle-IsBounded snapshot.throttle _ (
              record_temperatures-IsBounded snapshot.temperatures _
                (record_fans-IsBounded snapshot.fans histories i))),
        filter-true (is_live (live_keys snapshot)) kept,
      )
