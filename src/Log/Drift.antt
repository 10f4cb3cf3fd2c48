-- ===== src/Log/Drift.antt =====
-- cli.py: what a printed line, and the absence of one, say of the machine.
use thelio_fans.Prelude.{
  ℤ, pos, eq_ℤ, eq_ℤ_refl, sub_self, String, str_eq, str_eq_refl, Bool, true, false, ◌≡◌, ◌↔◌, refl,
  sym, ◌∙◌, inl, inr, Option, none, some, is_some, default, List, [], ◌∷◌, all, any, All, lookup,
  IsDict, dict-IsDict, lookup-entries, All-lookup, str_eq_iff, Bool-cases, Option-cases, arith,
}
use mathlib.Core.Path.{subst}
use thelio_fans.Float.{Float}
use thelio_fans.Snapshot.{Snapshot}
use thelio_fans.Log.{
  FanState, LogState, log_state, fan_states, percent, rpm_changed, moved, changed, log_line,
  observe,
}

module _ {F : Type 0} (f : Float F) where
  -- A change of 0, in percent of a whole number other than 0, is not 5 or more.
  abbrev pub IsStill : Type 0
  IsStill =
      (n : ℤ)
      → eq_ℤ n (pos 0) ≡ false
      → f.le (f.of_int (pos 5)) (f.mul (f.div (f.of_int (pos 0)) (f.of_int n)) (f.of_int (pos 100)))
        ≡ false

same_keys_self :
    (m l : List (String × FanState))
    → All (λ e. lookup e.0 m ≡ some e.1) l
    → all (λ e. is_some (lookup e.0 m)) l ≡ true
same_keys_self m [] h = refl
same_keys_self m (e ∷ l) h = rw h.0 (same_keys_self m l h.1)

module _ (F : Type 0) where
  log_state-IsDict : (s : Snapshot F) → IsDict (log_state s).1
  unfolding log_state
  log_state-IsDict s = dict-IsDict (fan_states s.fans)

module _ (F : Type 0) ⦃f : Float F⦄ (still : IsStill f) where
  rpm_changed_self : (n : Option ℤ) → rpm_changed F n n ≡ false
  unfolding rpm_changed percent
  rpm_changed_self none = refl
  rpm_changed_self (some n) = elim (Bool-cases (eq_ℤ n (pos 0))) [
    | inl e ↦ rw (e, eq_ℤ_refl n) refl
    | inr e ↦ rw (e, percent, sub_self n) (still n e)
  ]

  moved_self : (s : FanState) → moved F s s ≡ false
  unfolding moved
  moved_self s = rw (str_eq_refl s.0, rpm_changed_self s.1) refl

  any-moved_self :
      (m l : List (String × FanState))
      → All (λ e. lookup e.0 m ≡ some e.1) l
      → any (λ e. moved F (default ("", none) (lookup e.0 m)) e.1) l ≡ false
  any-moved_self m [] h = refl
  any-moved_self m (e ∷ l) h = rw (h.0, moved_self e.1) (any-moved_self m l h.1)

  changed_self : (t : LogState) → IsDict t.1 → changed F t t ≡ false
  unfolding changed
  changed_self t d =
      let found = lookup-entries t.1 d in
      rw (str_eq_refl t.0, same_keys_self t.1 t.1 found, any-moved_self t.1 t.1 found) refl

  log_line_self : (stamp : F → String) (s : Snapshot F) → log_line stamp (some s) s ≡ none
  unfolding log_line
  log_line_self stamp s = rw (changed_self (log_state s) (log_state-IsDict F s)) refl

  -- If the floats find a change of 0, in percent of a whole number other than 0, to be below 5, then
  -- once a snapshot has been observed, with a line for it or not, `log_line` gives no line for it
  -- against the baseline that the tracker now has.
  pub observe_settled :
      (stamp : F → String) (baseline : Option (Snapshot F)) (current : Snapshot F)
      → log_line stamp (observe stamp baseline current).1 current ≡ none
  unfolding observe
  observe_settled stamp baseline current = elim (Option-cases (log_line stamp baseline current)) [
    | inl e ↦ rw (e, e) refl
    | inr (line, e) ↦ rw e (log_line_self stamp current)
  ]

-- Two states between which no line is printed: the board, the throttling and the set of fans are
-- the same, and each fan has kept its status, and its RPM within the jitter.
pub record IsSteady (F : Type 0) ⦃f : Float F⦄ (before after : LogState) : Type 0 where
  pub same_io : after.0 ≡ before.0
  pub same_fans : (k : String) → is_some (lookup k after.1) ≡ is_some (lookup k before.1)
  pub same_state :
      (k : String) (b a : FanState)
      → lookup k before.1 ≡ some b
      → lookup k after.1 ≡ some a
      → (a.0 ≡ b.0) × (rpm_changed F b.1 a.1 ≡ false)

All-of_all : {A : Type 0} (q : A → Bool) (m : List A) → all q m ≡ true → All (λ x. q x ≡ true) m
All-of_all q [] h = tt
All-of_all q (x ∷ m) h = (ground (arith, h), All-of_all q m (ground (arith, h)))

All-of_any : {A : Type 0} (q : A → Bool) (m : List A) → any q m ≡ false → All (λ x. q x ≡ false) m
All-of_any q [] h = tt
All-of_any q (x ∷ m) h = (ground (arith, h), All-of_any q m (ground (arith, h)))

all-All : {A : Type 0} (q : A → Bool) (m : List A) → All (λ x. q x ≡ true) m → all q m ≡ true
all-All q [] h = refl
all-All q (x ∷ m) h = rw h.0 (all-All q m h.1)

any-All : {A : Type 0} (q : A → Bool) (m : List A) → All (λ x. q x ≡ false) m → any q m ≡ false
any-All q [] h = refl
any-All q (x ∷ m) h = rw h.0 (any-All q m h.1)

Bool-antisym : (a b : Bool) → (a ≡ true → b ≡ true) → (b ≡ true → a ≡ true) → a ≡ b
Bool-antisym true b h g = sym (h refl)
Bool-antisym false true h g = g refl
Bool-antisym false false h g = refl

module _ (F : Type 0) ⦃f : Float F⦄ where
  not_moved : (b a : FanState) → moved F b a ≡ false → (a.0 ≡ b.0) × (rpm_changed F b.1 a.1 ≡ false)
  unfolding moved
  not_moved b a h = elim (Bool-cases (str_eq a.0 b.0)) [
    | inl e ↦ ((str_eq_iff a.0 b.0).0 e, ground (arith, e, h))
    | inr e ↦ absurd (ground (arith, e, h))
  ]

  moved-false : (b a : FanState) → a.0 ≡ b.0 → rpm_changed F b.1 a.1 ≡ false → moved F b a ≡ false
  unfolding moved
  moved-false b a e h = rw ((str_eq_iff a.0 b.0).1 e, h) refl

  -- The parts of `changed`.
  abbrev all_in : List (String × FanState) → List (String × FanState) → Bool
  all_in n m = all (λ e. is_some (lookup e.0 n)) m

  abbrev any_moved : List (String × FanState) → List (String × FanState) → Bool
  any_moved n m = any (λ e. moved F (default ("", none) (lookup e.0 n)) e.1) m

  changed-parts :
      (p c : LogState)
      → changed F p c ≡ false
      → (str_eq c.0 p.0 ≡ true)
        × (all_in p.1 c.1 ≡ true)
        × (all_in c.1 p.1 ≡ true)
        × (any_moved p.1 c.1 ≡ false)
  unfolding changed
  changed-parts p c h = ground (arith, h)

  all_in-lookup :
      (n m : List (String × FanState)) (k : String)
      → all_in n m ≡ true
      → is_some (lookup k m) ≡ true
      → is_some (lookup k n) ≡ true
  all_in-lookup n m k h i = elim (Option-cases (lookup k m)) [
    | inl e ↦ absurd (ground (arith, e, i))
    | inr (a, e) ↦
        All-lookup (λ j v. is_some (lookup j n) ≡ true) m k a
          (All-of_all (λ e. is_some (lookup e.0 n)) m h) e
  ]

  changed-IsSteady : (p c : LogState) → changed F p c ≡ false → IsSteady F p c
  changed-IsSteady p c h =
      let (io, into, back, still) = changed-parts p c h in
      record {
        same_io = (str_eq_iff c.0 p.0).0 io;
        same_fans =
            λ k. Bool-antisym _ _ (all_in-lookup p.1 c.1 k into) (all_in-lookup c.1 p.1 k back);
        same_state = λ k b a eb ea.
            let m =
              All-lookup (λ j v. moved F (default ("", none) (lookup j p.1)) v ≡ false) c.1 k a
                (All-of_any _ c.1 still) ea in
            not_moved b a (subst (λ o. moved F (default ("", none) o) a ≡ false) eb m);
      }

  entries-moved :
      (p c : LogState) (l : List (String × FanState))
      → IsSteady F p c
      → All (λ e. lookup e.0 c.1 ≡ some e.1) l
      → All (λ e. moved F (default ("", none) (lookup e.0 p.1)) e.1 ≡ false) l
  entries-moved p c [] h found = tt
  entries-moved p c (e ∷ l) h found =
      let at : moved F (default ("", none) (lookup e.0 p.1)) e.1 ≡ false =
        elim (Option-cases (lookup e.0 p.1)) [
          | inl n ↦ absurd (ground (arith, n, found.0, h.same_fans e.0))
          | inr (b, n) ↦
              let (t, r) = h.same_state e.0 b e.1 n found.0 in rw n (moved-false b e.1 t r)
        ] in
      (at, entries-moved p c l h found.1)

  entries-in :
      (n m l : List (String × FanState))
      → ((k : String) → is_some (lookup k m) ≡ is_some (lookup k n))
      → All (λ e. lookup e.0 m ≡ some e.1) l
      → All (λ e. is_some (lookup e.0 n) ≡ true) l
  entries-in n m [] h found = tt
  entries-in n m (e ∷ l) h found = (sym (h e.0) ∙ rw found.0 refl, entries-in n m l h found.1)

  IsSteady-changed :
      (p c : LogState) → IsDict p.1 → IsDict c.1 → IsSteady F p c → changed F p c ≡ false
  unfolding changed
  IsSteady-changed p c dp dc h =
      let fp = lookup-entries p.1 dp in
      let fc = lookup-entries c.1 dc in
      let into : all_in p.1 c.1 ≡ true = all-All _ c.1 (entries-in p.1 c.1 c.1 h.same_fans fc) in
      let back : all_in c.1 p.1 ≡ true =
        all-All _ p.1 (entries-in c.1 p.1 p.1 (λ k. sym (h.same_fans k)) fp) in
      let still : any_moved p.1 c.1 ≡ false = any-All _ c.1 (entries-moved p c c.1 h fc) in
      rw ((str_eq_iff c.0 p.0).1 h.same_io, into, back, still) refl

  -- After a first line, a snapshot gets no line exactly when the board's text is that of the last
  -- line's snapshot, the same fans are logged, and every one has its status then, and an RPM that
  -- `_rpm_changed` does not tell from that one.
  pub log_line-none_iff :
      (stamp : F → String) (previous current : Snapshot F)
      → (log_line stamp (some previous) current ≡ none)
        ↔ IsSteady F (log_state previous) (log_state current)
  unfolding log_line
  log_line-none_iff stamp previous current =
      let p = log_state previous in
      let c = log_state current in
      (
        (λ h. changed-IsSteady p c (ground (arith, h))),
        (λ h.
            rw (IsSteady-changed p c (log_state-IsDict F previous) (log_state-IsDict F current) h)
              refl),
      )
