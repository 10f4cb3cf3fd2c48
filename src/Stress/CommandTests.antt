-- ===== src/Stress/CommandTests.antt =====
-- Runs and witnesses for the command line and the report of stress.py.
use Prim.Native.Char.{Char, code}
use thelio_fans.Prelude.{pos, Bool, false, ◌≡◌, refl, none, some, [], ◌∷◌, ◌==◌, leb, arith}
use thelio_fans.Float.Millis.{millis_float, Millis}
use thelio_fans.Text.{sanitize}
use thelio_fans.Format.{cut, left_field, right_field}
use thelio_fans.Show.{str_ℤ}
use thelio_fans.Stress.Summary.{FanSummary, PhaseSummary, responded}
use thelio_fans.Stress.Exec.{interrupted}
use thelio_fans.Stress.Looping.{Args}
use thelio_fans.Stress.Words.{IsLetter}
use thelio_fans.Stress.Report.{report_lines}
use thelio_fans.Stress.Parsing.{Given, parsed, usage, parse_args}
use thelio_fans.Stress.Validity.{IsValid, written, parse_args-IsValid, parse_args-written}

is_space : Char → Bool
is_space c = code c == 32

is_printable : Char → Bool
is_printable c = leb 32 (code c)

abbrev given : Given Millis
given = record {
  seconds = some (some 30_000);
  phases = some " cpu,, both ";
  max_cpu_c = none;
  max_gpu_c = some (some 80_000);
  workers = none;
  json = false;
}

abbrev accepted_args : Args Millis
accepted_args = record {
  seconds = some 30_000;
  phases = "cpu" ∷ "both" ∷ [];
  max_cpu_c = some 90_000;
  max_gpu_c = some (some 80_000);
  workers = pos 16;
  json = false;
}

accepts_given : parse_args is_space is_printable (some (pos 16)) given ≡ parsed accepted_args
unfolding parse_args is_space
accepts_given = refl

refuses_unknown :
    parse_args is_space is_printable (some (pos 16)) (record given { phases = some "cpu,gpus" })
    ≡ usage "unknown phase(s): gpus"
unfolding parse_args is_space is_printable cut sanitize
refuses_unknown = refl

parse_args-IsValid_example : IsValid accepted_args
parse_args-IsValid_example =
    parse_args-IsValid is_space is_printable (some (pos 16)) given accepted_args accepts_given

letter_visible : (c : Char) → IsLetter c → is_space c ≡ false
unfolding is_space
letter_visible c (ge, le) = ground (arith, ge)

parse_args-written_example :
    parse_args is_space is_printable none (written is_space is_printable accepted_args)
    ≡ parsed accepted_args
parse_args-written_example =
    parse_args-written is_space is_printable letter_visible none accepted_args
      parse_args-IsValid_example

abbrev intake_summary : FanSummary Millis
intake_summary = record {
  label = "INTAKE FAN";
  rpm_start = some (pos 600);
  rpm_peak = some (pos 900);
  duty_start = none;
  duty_peak = none;
  responded_after_s = none;
  verdict = responded;
}

abbrev cpu_summary : PhaseSummary Millis
cpu_summary = record {
  phase = "cpu";
  seconds = some 60_000;
  cpu_start_c = none;
  cpu_peak_c = none;
  cpu_end_c = none;
  gpu_start_c = none;
  gpu_peak_c = none;
  gpu_end_c = none;
  gpu_peak_w = none;
  fans = ("intake", intake_summary) ∷ [];
}

report_of_cpu :
    report_lines (cpu_summary ∷ []) (some interrupted) none
    ≡ "FAN STRESS REPORT" ∷ "GPU load: not used" ∷ "" ∷ "cpu      number s   CPU —   GPU —"
      ∷ "  INTAKE FAN       600→900 rpm           —  responded" ∷ "" ∷ "stopped early: interrupted"
      ∷ []
unfolding report_lines left_field right_field str_ℤ
report_of_cpu = refl
