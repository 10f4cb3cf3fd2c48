-- ===== src/Load/Setup.antt =====
-- load.py: through `_setup`, whatever fails, the attributes hold the live objects.
use thelio_fans.Prelude.{
  suc, ℤ, pos, eq_ℤ, String, false, ◌≡◌, refl, sym, inl, inr, List, [], ◌∷◌, All, Bool-cases,
}
use mathlib.Core.Path.{subst}
use thelio_fans.Float.{Float}
use thelio_fans.Load.State.{Slot, context, queue, program, kernel, buffer, same_slot, Cl, ClLoad}
use thelio_fans.Load.OpenCl.{
  check, checked_call, create, name_device, find_device, find_platform, find_gpu, create_all,
  set_iterations, launch, calibrate, clamped, setup, new_load, scaled,
}
use thelio_fans.Load.Ownership.{
  Tracked, Empty, new_load-Tracked, Holds, then_do-Holds, check-Holds, require-Holds, keep-Holds,
  InRange, clamped-InRange, Holds-impl, put-Empty,
}

module _ {F : Type 0} ⦃f : Float F⦄ (cl : Cl F) where
  -- A call that leaves the attributes alone.
  checked_call-Holds :
      (ks : List Slot) (what : String) (s : ClLoad)
      → Tracked s
      → Empty ks s
      → Holds (Empty ks) (checked_call cl what s)
  unfolding checked_call
  checked_call-Holds ks what s i e =
      check-Holds (Empty ks) (cl.error_at s.step) what (record s { step = suc s.step }) i e

  name_device-Holds :
      (ks : List Slot) (s : ClLoad) → Tracked s → Empty ks s → Holds (Empty ks) (name_device cl s)
  unfolding name_device
  name_device-Holds ks s i e = elim (Bool-cases (eq_ℤ (cl.error_at s.step) (pos 0))) [
    | inl t ↦ rw t (i, e)
    | inr t ↦ rw t (i, e)
  ]

  find_platform-Holds :
      (ks : List Slot) (s : ClLoad) → Tracked s → Empty ks s → Holds (Empty ks) (find_platform cl s)
  unfolding find_platform
  find_platform-Holds ks s i e =
      let t = record s { step = suc s.step } in
      then_do-Holds (Empty ks) (Empty ks) (check (cl.error_at s.step) "platform" t) _
        (check-Holds (Empty ks) (cl.error_at s.step) "platform" t i e)
        (λ _ u i e. require-Holds (Empty ks) _ "no OpenCL platform" u i e)

  find_gpu-Holds :
      (ks : List Slot) (s : ClLoad) → Tracked s → Empty ks s → Holds (Empty ks) (find_gpu cl s)
  unfolding find_gpu
  find_gpu-Holds ks s i e =
      let t = record s { step = suc s.step } in
      then_do-Holds (Empty ks) (Empty ks) (check (cl.error_at s.step) "GPU device" t) _
        (check-Holds (Empty ks) (cl.error_at s.step) "GPU device" t i e)
        (λ _ u i e. require-Holds (Empty ks) _ "no OpenCL GPU" u i e)

  find_device-Holds :
      (ks : List Slot) (s : ClLoad) → Tracked s → Empty ks s → Holds (Empty ks) (find_device cl s)
  unfolding find_device
  find_device-Holds ks s i e =
      let P = Empty ks in
      then_do-Holds P P (find_platform cl s) _ (find_platform-Holds ks s i e) (λ _ t i e.
        then_do-Holds P P (find_gpu cl t) _ (find_gpu-Holds ks t i e)
          (λ _ u i e. name_device-Holds ks u i e))

  -- A constructor of OpenCL fills its slot, and no other.
  create-Holds :
      (k : Slot) (ks : List Slot) (what : String) (s : ClLoad)
      → All (λ j. same_slot k j ≡ false) ks
      → Tracked s
      → Empty (k ∷ ks) s
      → Holds (Empty ks) (create cl k what s)
  unfolding create
  create-Holds k ks what s d i e =
      let t = record s { step = suc s.step } in
      then_do-Holds (Empty (k ∷ ks)) (Empty ks) (check (cl.error_at s.step) what t) _
        (check-Holds (Empty (k ∷ ks)) (cl.error_at s.step) what t i e)
        (λ _ u i e.
          keep-Holds (Empty ks) k (cl.object_at s.step) what u i e.0
            (λ h. put-Empty k ks _ u d e.1))

  create_all-Holds :
      (s : ClLoad)
      → Tracked s
      → Empty (context ∷ queue ∷ program ∷ kernel ∷ buffer ∷ []) s
      → Holds (Empty []) (create_all cl s)
  unfolding create_all
  create_all-Holds s i e =
      let E = Empty in
      let k1 = kernel ∷ buffer ∷ [] in
      let k2 = program ∷ k1 in
      let k3 = queue ∷ k2 in
      then_do-Holds (E k3) (E []) (create cl context "context" s) _
        (create-Holds context k3 "context" s (refl, (refl, (refl, (refl, tt)))) i e)
        (λ _ s i e.
          then_do-Holds (E k2) (E []) (create cl queue "queue" s) _
            (create-Holds queue k2 "queue" s (refl, (refl, (refl, tt))) i e)
            (λ _ s i e.
              then_do-Holds (E k1) (E []) (create cl program "program" s) _
                (create-Holds program k1 "program" s (refl, (refl, tt)) i e)
                (λ _ s i e.
                  then_do-Holds (E k1) (E []) (checked_call cl "build" s) _
                    (checked_call-Holds k1 "build" s i e)
                    (λ _ s i e.
                      then_do-Holds (E (buffer ∷ [])) (E []) (create cl kernel "kernel" s) _
                        (create-Holds kernel (buffer ∷ []) "kernel" s (refl, tt) i e)
                        (λ _ s i e.
                          then_do-Holds (E []) (E []) (create cl buffer "buffer" s) _
                            (create-Holds buffer [] "buffer" s tt i e)
                            (λ _ s i e. checked_call-Holds [] "arg 0" s i e))))))

  pub launch-Holds : (s : ClLoad) → Tracked s → Holds (Empty []) (launch cl s)
  unfolding launch
  launch-Holds s i =
      then_do-Holds (Empty []) (Empty []) (checked_call cl "launch" s) _
        (checked_call-Holds [] "launch" s i tt) (λ _ t i e. checked_call-Holds [] "finish" t i tt)

  set_iterations-Holds :
      (n : ℤ) (s : ClLoad) → Tracked s → Holds (λ t. t.iterations ≡ n) (set_iterations cl n s)
  unfolding set_iterations checked_call
  set_iterations-Holds n s i =
      check-Holds (λ t. t.iterations ≡ n) (cl.error_at s.step) "arg 1"
        (record s { iterations = n; step = suc s.step }) i refl

  calibrate-Holds : (s : ClLoad) → Tracked s → Holds (λ t. InRange t.iterations) (calibrate cl s)
  unfolding calibrate
  calibrate-Holds s i =
      let R : ClLoad → Type 0 = λ t. InRange t.iterations in
      then_do-Holds (λ t. t.iterations ≡ pos 200) R (set_iterations cl (pos 200) s) _
        (set_iterations-Holds (pos 200) s i)
        (λ _ t i _.
          then_do-Holds (Empty []) R (launch cl (record t { step = suc t.step })) _
            (launch-Holds (record t { step = suc t.step }) i)
            (λ _ u i _.
              let n = clamped (scaled cl (cl.clock_at t.step) (cl.clock_at u.step)) in
              Holds-impl (λ v. v.iterations ≡ n) R _
                (λ v e.
                  subst InRange (sym e)
                    (clamped-InRange (scaled cl (cl.clock_at t.step) (cl.clock_at u.step))))
                (set_iterations-Holds n (record u { step = suc u.step }) i)))

  pub setup-Holds : Holds (λ t. InRange t.iterations) (setup cl new_load)
  unfolding setup
  setup-Holds =
      let R : ClLoad → Type 0 = λ t. InRange t.iterations in
      let all_slots = context ∷ queue ∷ program ∷ kernel ∷ buffer ∷ [] in
      then_do-Holds (Empty all_slots) R (find_device cl new_load) _
        (find_device-Holds all_slots new_load new_load-Tracked
          (refl, (refl, (refl, (refl, (refl, tt))))))
        (λ _ t i e.
          then_do-Holds (Empty []) R (create_all cl t) _ (create_all-Holds t i e)
            (λ _ u i _. calibrate-Holds u i))
