-- ===== src/Nvml/NvmlTests.antt =====
-- Runs and witnesses for gpu.py.
use thelio_fans.Prelude.{str_eq, Bool, true, ◌≡◌, refl, none, some, [], ◌∷◌, ◌==◌, if◌then◌else◌}
use thelio_fans.Float.Millis.{millis_float, Millis}
use thelio_fans.Nvml.{
  Nvml, returns, Getters, init, shutdown, new_session, close, read, reads, short_name, reading,
}
use thelio_fans.Nvml.Balance.{IsPaired, IsShut, IsKept, reads-IsPaired}

-- Every uint getter answers 68 = 0x44, the mask of the power cap (4) and the hardware's thermal
-- slowdown (64), while `up`.
abbrev device : Bool → Getters
device up = record {
  uint = λ name args.
      if str_eq name "nvmlDeviceGetNumFans" then some 2 else if up then some 68 else none;
  name = some "NVIDIA GeForce RTX 3090";
  utilization = some 40;
  memory = some (2_097_152, 4_194_304);
  constant = λ name.
      if str_eq name "nvmlClocksEventReasonSwPowerCap"
      then some 4
      else if str_eq name "nvmlClocksEventReasonHwThermalSlowdown"
      then some 64
      else none;
}

-- The reading at call 2 has a temperature, and later ones have none.
abbrev nvml : Nvml
nvml = record {
  installed = true;
  init_at = λ n. returns tt;
  handle_at = λ n. returns 7;
  getters_at = λ n. returns (device (n == 2));
  is_printable = λ c. true;
}

reasons_in_order :
    (reading {F = Millis} (λ c. true) (device true)).reasons
    ≡ some ("hw thermal" ∷ "power cap" ∷ [])
unfolding reading
reasons_in_order = refl

names_are_short : short_name "NVIDIA GeForce RTX 3090" ≡ "RTX 3090"
unfolding short_name
names_are_short = refl

second_reading_shuts :
    (reads {F = Millis} nvml 3 new_session).1.trace ≡ shutdown ∷ init ∷ shutdown ∷ init ∷ []
unfolding reads
second_reading_shuts = refl

reads-IsPaired_example :
    IsPaired (close (reads {F = Millis} nvml 2 new_session).1).trace
    × IsShut (close (reads {F = Millis} nvml 2 new_session).1)
    × IsKept {F = Millis} (read nvml (reads {F = Millis} nvml 2 new_session).1)
reads-IsPaired_example = reads-IsPaired Millis nvml 2
