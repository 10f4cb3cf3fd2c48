-- ===== src/Load/LoadTests.antt =====
-- Runs and witnesses for load.py.
use thelio_fans.Prelude.{
  ℕ, suc, ◌*◌, ◌/◌, pos, true, false, ◌≡◌, refl, none, some, [], ◌∷◌, ◌==◌, if◌then◌else◌, length,
  leb, arith,
}
use thelio_fans.Float.Millis.{millis_float, Millis}
use thelio_fans.Load.State.{Slot, context, queue, program, created, released, Cl}
use thelio_fans.Load.OpenCl.{construct, release, start}
use thelio_fans.Load.State.{ClLoad}
use thelio_fans.Load.Cpu.{System, Cpu, new_cpu, returned, raised}
use thelio_fans.Load.Cpu
use thelio_fans.Load.Workers.{Ends, IsTracked, IsStopped, IsUnstarted, cpu_load-IsTracked}
use thelio_fans.Load.Thread.{loop, IsEnded, loop_ends}
use thelio_fans.Load.Ownership.{live, IsOwned}
use thelio_fans.Load.Release.{
  IsConstructed, constructed, after_start, release-IsOwned, construct-IsConstructed,
}

-- The call of the given number fails; the clock advances by 20 ms a call.
abbrev failing_at : ℕ → Cl Millis
failing_at k = record {
  error_at = λ n. if n == k then pos 5 else pos 0;
  object_at = λ n. some (suc n);
  count_at = λ n. 1;
  name_at = λ n. "RTX";
  clock_at = λ n. some (n * 20);
  alive_at = λ n. false;
  truncate = λ x. elim x [ none ↦ pos 0 | some a ↦ pos (a / 1000) ];
  is_printable = λ c. true;
}

abbrev sound : Cl Millis
sound = failing_at 100

sized : (construct sound).1.iterations ≡ pos 166
unfolding construct
sized = refl

build_fails :
    (construct (failing_at 6)).1.trace
    ≡ released context 4
      ∷ released queue 5
      ∷ released program 6
      ∷ created program 6
      ∷ created queue 5
      ∷ created context 4
      ∷ []
unfolding construct
build_fails = refl

release-IsOwned_example :
    IsOwned (release sound (start sound (construct sound).1).1).trace
    × ((k : Slot) → live k (release sound (start sound (construct sound).1).1).trace ≡ none)
    × ((release sound (release sound (start sound (construct sound).1).1)).trace
        ≡ (release sound (start sound (construct sound).1).1).trace)
release-IsOwned_example =
    release-IsOwned sound {s = (start sound (construct sound).1).1}
      (after_start {s = (construct sound).1} constructed)

construct-IsConstructed_example : IsConstructed (failing_at 6) (construct (failing_at 6))
construct-IsConstructed_example = construct-IsConstructed (failing_at 6)

-- The start of the third worker raises; no worker has exited when it is asked.
abbrev busy : System
busy = record { raises_at = λ n. n == 2; exited_at = λ n. false }

abbrev idle : Cpu
idle = new_cpu (some (pos 4)) (some (pos 16))

third_fails :
    Cpu.start busy idle
    ≡ raised (record { step = 11; workers = 4; stopping = true; procs = []; live = [] })
unfolding Cpu.start new_cpu
third_fails = refl

cpu_load-IsTracked_example :
    Ends (IsStopped busy idle) IsTracked (Cpu.stop busy idle)
    × Ends
        (λ t. (t.live ≡ t.procs) × (length t.procs ≡ 4) × (t.stopping ≡ false))
        (IsUnstarted busy idle)
        (Cpu.start busy idle)
unfolding new_cpu
cpu_load-IsTracked_example = cpu_load-IsTracked busy idle tt

loop_ends_example :
    (t : ClLoad) × (loop sound (leb 9) 10 (construct sound).1 ≡ some t) × IsEnded sound (leb 9) t
loop_ends_example =
    loop_ends sound (leb 9) 9 10 (construct sound).1 (λ n h. ground (arith, h)) (omega arith)
