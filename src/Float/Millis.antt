-- ===== src/Float/Millis.antt =====
-- Floats that the witnesses evaluate: thousandths from zero up, and one value that is no number.
use thelio_fans.Prelude.{
  ℕ, ◌+◌, ◌-◌, ◌*◌, ◌/◌, ◌^◌, ℤ, pos, negsuc, Bool, false, String, Option, none, some, arith, ltb,
  leb, ◌==◌, is_some,
}
use thelio_fans.Float.{Float}
use thelio_fans.Float.Order.{IsOrdered}

abbrev pub Millis : Type 0
Millis = Option ℕ

abbrev pub nan : Millis
nan = none

abbrev pub of_ints : ℤ → Millis
of_ints (pos n) = some (n * 1000)
of_ints (negsuc n) = none

abbrev pub on_both : (ℕ → ℕ → ℕ) → Millis → Millis → Millis
on_both g (some a) (some b) = some (g a b)
on_both g _ _ = none

abbrev pub test_both : (ℕ → ℕ → Bool) → Millis → Millis → Bool
test_both t (some a) (some b) = t a b
test_both t _ _ = false

abbrev pub rounded : Millis → ℤ
rounded none = pos 0
rounded (some a) = pos ((a + 500) / 1000)

abbrev pub rounded_up : Millis → ℤ
rounded_up none = pos 0
rounded_up (some a) = pos ((a + 999) / 1000)

abbrev pub shown : ℕ → Millis → String
shown k none = "nan"
shown k (some a) = "number"

instance abbrev pub millis_float : Float Millis
millis_float = record {
  of_int = of_ints;
  decimal = λ m k. some (m * 1000 / 10 ^ k);
  add = on_both ◌+◌;
  sub = on_both ◌-◌;
  mul = on_both (λ a b. a * b / 1000);
  div = on_both (λ a b. a * 1000 / b);
  le = test_both leb;
  lt = test_both ltb;
  eq = test_both ◌==◌;
  is_finite = is_some;
  float_of = λ n. some (of_ints n);
  round = rounded;
  ceil = rounded_up;
  show = shown;
}

pub Millis-IsOrdered : IsOrdered millis_float
Millis-IsOrdered = ground arith
