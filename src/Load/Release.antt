-- ===== src/Load/Release.antt =====
-- load.py: `OpenClLoad.release`, after any sequence of calls.
use thelio_fans.Prelude.{
  ℕ, zero, suc, String, true, ◌≡◌, refl, ◌∙◌, inl, inr, Option, none, some, List, [], ◌∷◌, ◌&&◌,
  if_elim, Bool-cases,
}
use thelio_fans.Float.{Float}
use thelio_fans.Load.State.{
  Slot, context, queue, program, kernel, buffer, same_slot, released, Cl, ClLoad, Result, ok,
  failed, put, log,
}
use thelio_fans.Load.OpenCl.{
  free, release_order, launch, setup, start, stop, release_slot, release_slots, release, new_load,
  construct, released_on_error,
}
use thelio_fans.Load.Setup.{launch-Holds, setup-Holds}
use thelio_fans.Load.Ownership.{
  live, IsOwned, IsReal, Tracked, Empty, Holds, InRange, released-Tracked,
}

same_slot_refl : (k : Slot) → same_slot k k ≡ true
same_slot_refl context = refl
same_slot_refl queue = refl
same_slot_refl program = refl
same_slot_refl kernel = refl
same_slot_refl buffer = refl

-- The attributes track the objects, and this one holds none.
record IsFreed (k : Slot) (s t : ClLoad) : Type 0 where
  tracked : Tracked t
  freed : t.handle k ≡ none
  kept : (j : Slot) → s.handle j ≡ none → t.handle j ≡ none

put-IsFreed :
    (k : Slot) (h : ℕ) (s : ClLoad)
    → Tracked s
    → s.handle k ≡ some h
    → IsFreed k s (put k none (log (released k h) s))
put-IsFreed k h s i e = record {
  tracked = released-Tracked k h s i e;
  freed = rw (same_slot_refl k) refl;
  kept = λ j n. if_elim (λ o. o ≡ none) (same_slot k j) none (s.handle j) (λ _. refl) (λ _. n);
}

free-IsFreed :
    (k : Slot) (o : Option ℕ) (s : ClLoad)
    → Tracked s
    → s.handle k ≡ o
    → IsReal o
    → IsFreed k s (free k o s)
unfolding free
free-IsFreed k none s i e r = record { tracked = i; freed = e; kept = λ j n. n }
free-IsFreed k (some zero) s i e r = absurd r
free-IsFreed k (some (suc h)) s i e r = put-IsFreed k (suc h) s i e

release_slot-IsFreed : (k : Slot) (s : ClLoad) → Tracked s → IsFreed k s (release_slot k s)
unfolding release_slot
release_slot-IsFreed k s i = free-IsFreed k (s.handle k) s i refl (i.real k)

release_slots-Tracked : (ks : List Slot) (s : ClLoad) → Tracked s → Tracked (release_slots ks s)
unfolding release_slots
release_slots-Tracked [] s i = i
release_slots-Tracked (k ∷ ks) s i =
    release_slots-Tracked ks (release_slot k s) (release_slot-IsFreed k s i).tracked

release_slots-kept :
    (ks : List Slot) (s : ClLoad) (j : Slot)
    → Tracked s
    → s.handle j ≡ none
    → (release_slots ks s).handle j ≡ none
unfolding release_slots
release_slots-kept [] s j i n = n
release_slots-kept (k ∷ ks) s j i n =
    let freed = release_slot-IsFreed k s i in
    release_slots-kept ks (release_slot k s) j freed.tracked (freed.kept j n)

release_slots-Empty : (ks : List Slot) (s : ClLoad) → Tracked s → Empty ks (release_slots ks s)
unfolding release_slots
release_slots-Empty [] s i = tt
release_slots-Empty (k ∷ ks) s i =
    let freed = release_slot-IsFreed k s i in
    (
      release_slots-kept ks (release_slot k s) k freed.tracked freed.freed,
      release_slots-Empty ks (release_slot k s) freed.tracked,
    )

-- With nothing to release, nothing is done.
release_slots_idle : (ks : List Slot) (s : ClLoad) → Empty ks s → release_slots ks s ≡ s
unfolding release_slots release_slot free
release_slots_idle [] s e = refl
release_slots_idle (k ∷ ks) s e = rw e.0 (release_slots_idle ks s e.1)

Empty-all : (s : ClLoad) → Empty release_order s → (k : Slot) → s.handle k ≡ none
Empty-all s (b, (k, (p, (q, (c, u))))) buffer = b
Empty-all s (b, (k, (p, (q, (c, u))))) kernel = k
Empty-all s (b, (k, (p, (q, (c, u))))) program = p
Empty-all s (b, (k, (p, (q, (c, u))))) queue = q
Empty-all s (b, (k, (p, (q, (c, u))))) context = c

module _ {F : Type 0} ⦃f : Float F⦄ (cl : Cl F) where
  -- The objects are those of before a stop of the thread.
  stop_same : (s : ClLoad) → ((stop cl s).trace ≡ s.trace) × ((stop cl s).handle ≡ s.handle)
  unfolding stop
  stop_same s = elim (Bool-cases s.thread) [ inl e ↦ rw e (refl, refl) | inr e ↦ rw e (refl, refl) ]

  stop-Tracked : (s : ClLoad) → Tracked s → Tracked (stop cl s)
  stop-Tracked s i = rw ((stop_same s).0, (stop_same s).1) i

  start-Tracked : (s : ClLoad) → Tracked s → Tracked (start cl s).1
  unfolding start
  start-Tracked s i = elim (Bool-cases (s.thread && cl.alive_at s.step)) [
    | inl e ↦ rw e i
    | inr e ↦ rw e i
  ]

  release-Tracked : (s : ClLoad) → Tracked s → Tracked (release cl s)
  unfolding release
  release-Tracked s i = release_slots-Tracked release_order (stop cl s) (stop-Tracked s i)

  release-none : (s : ClLoad) → Tracked s → (k : Slot) → (release cl s).handle k ≡ none
  unfolding release
  release-none s i =
      Empty-all (release cl s) (release_slots-Empty release_order (stop cl s) (stop-Tracked s i))

  release_idle : (s : ClLoad) → ((k : Slot) → s.handle k ≡ none) → (release cl s).trace ≡ s.trace
  unfolding release
  release_idle s n =
      let (e, h) = stop_same s in
      let at : (k : Slot) → (stop cl s).handle k ≡ none = rw h n in
      rw
        (release_slots_idle release_order (stop cl s)
          (at buffer, (at kernel, (at program, (at queue, (at context, tt))))))
        e

  -- What may happen to a load: its construction, then the calls of its methods. In between, its
  -- thread launches kernels and may record an error.
  pub data IsReachable : ClLoad → Type 0 where
    constructed : IsReachable (construct cl).1
    after_start : {s : ClLoad} → IsReachable s → IsReachable (start cl s).1
    after_launch : {s : ClLoad} → IsReachable s → IsReachable (launch cl s).1
    after_error :
        {s : ClLoad} (why : String) → IsReachable s → IsReachable (record s { error = some why })
    after_stop : {s : ClLoad} → IsReachable s → IsReachable (stop cl s)
    after_release : {s : ClLoad} → IsReachable s → IsReachable (release cl s)

  released_on_error-Holds :
      (P : ClLoad → Type 0) (r : Result (Unit {0}) × ClLoad)
      → Holds P r
      → Holds P (released_on_error cl r)
  unfolding released_on_error
  released_on_error-Holds P (ok a, s) h = h
  released_on_error-Holds P (failed why, s) h = release-Tracked s h

  Tracked-of_Holds :
      {A : Type 0} (P : ClLoad → Type 0) (r : Result A × ClLoad) → Holds P r → Tracked r.1
  Tracked-of_Holds P (ok a, s) h = h.0
  Tracked-of_Holds P (failed why, s) h = h

  construct-Tracked : Tracked (construct cl).1
  unfolding construct
  construct-Tracked =
      let P : ClLoad → Type 0 = λ t. InRange t.iterations in
      Tracked-of_Holds P (construct cl)
        (released_on_error-Holds P (setup cl new_load) (setup-Holds cl))

  reachable-Tracked : {s : ClLoad} → IsReachable s → Tracked s
  reachable-Tracked constructed = construct-Tracked
  reachable-Tracked (after_start r) = start-Tracked _ (reachable-Tracked r)
  reachable-Tracked (after_launch r) =
      Tracked-of_Holds (Empty []) _ (launch-Holds cl _ (reachable-Tracked r))
  reachable-Tracked (after_error why r) = reachable-Tracked r
  reachable-Tracked (after_stop r) = stop-Tracked _ (reachable-Tracked r)
  reachable-Tracked (after_release r) = release-Tracked _ (reachable-Tracked r)

  -- However a load has been used, it creates an object for an attribute only where none is live and
  -- releases only the live object. After a release none is live, and a second release frees nothing.
  pub release-IsOwned :
      {s : ClLoad}
      → IsReachable s
      → IsOwned (release cl s).trace
        × ((k : Slot) → live k (release cl s).trace ≡ none)
        × ((release cl (release cl s)).trace ≡ (release cl s).trace)
  release-IsOwned {s} r =
      let i = reachable-Tracked r in
      let t = release-Tracked s i in
      let n = release-none s i in (t.owned, (λ k. t.holds k ∙ n k), release_idle (release cl s) n)

  -- What `__init__` promises: a range for the iterations, or that nothing is live.
  abbrev pub IsConstructed : Result (Unit {0}) × ClLoad → Type 0
  IsConstructed (ok a, s) = InRange s.iterations
  IsConstructed (failed why, s) = (k : Slot) → live k s.trace ≡ none

  released_on_error-IsConstructed :
      (r : Result (Unit {0}) × ClLoad)
      → Holds (λ t. InRange t.iterations) r
      → IsConstructed (released_on_error cl r)
  unfolding released_on_error
  released_on_error-IsConstructed (ok a, s) h = h.1
  released_on_error-IsConstructed (failed why, s) h =
      let t = release-Tracked s h in λ k. t.holds k ∙ release-none s h k

  -- A constructor that succeeds has sized its launches from 100 to 100000 iterations; one that
  -- fails, at whatever call, leaves no object unreleased.
  pub construct-IsConstructed : IsConstructed (construct cl)
  unfolding construct
  construct-IsConstructed = released_on_error-IsConstructed (setup cl new_load) (setup-Holds cl)
