-- ===== src/Clock/Exact.antt =====
-- Integers in place of floats, to run the model on.
use gowait.Prelude.{ℤ, pos, none, ◌+ℤ◌, ◌*ℤ◌, leb_ℤ, ltb_ℤ}
use gowait.Clock.{Floats}

abbrev pub exact : Floats ℤ
exact = record {
  zero_value = pos 0;
  tenths = λ n. pos n;
  add = ◌+ℤ◌;
  mul = ◌*ℤ◌;
  is_zero = λ z. leb_ℤ z (pos 0);
  is_positive = λ z. ltb_ℤ (pos 0) z;
  leq = leb_ℤ;
  seconds = λ d. d;
  of_int64 = λ z. z;
  to_int64 = λ z. z;
  thousandth = λ z. z;
  ceil = λ z. z;
  parse_float = λ s. none;
}
