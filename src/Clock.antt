-- ===== src/Clock.antt =====
-- Go's `time.Time`, `time.Duration` and `float64`, as far as the program uses them.
-- An instant counts nanoseconds from Go's zero time (1 January of the year 1), which is 0. A duration
-- is an int64 count of nanoseconds, an integer here. Floats are a parameter: the standard library's
-- and the language's operations on them, with no law.
pub mod Exact
use gowait.Prelude.{ℕ, ℤ, pos, negsuc, ◌-ℤ◌, ltb_ℤ, Bool, Option, List, if◌then◌else◌}

abbrev pub Time : Type 0
Time = ℕ

abbrev pub Duration : Type 0
Duration = ℤ

-- math.MaxInt64 and math.MinInt64
abbrev pub max_int64 : ℤ
max_int64 = pos 9223372036854775807

abbrev pub min_int64 : ℤ
min_int64 = negsuc 9223372036854775807

-- What `Sub` does with a difference that does not fit in an int64.
abbrev pub saturate : ℤ → ℤ
saturate d = if ltb_ℤ max_int64 d then max_int64 else if ltb_ℤ d min_int64 then min_int64 else d

-- t.Sub(u)
unfoldable pub sub : Time → Time → Duration
sub t u = saturate (pos t -ℤ pos u)

-- time.Second
abbrev pub second : Duration
second = pos 1000000000

-- The operations on float64 that the code calls.
pub record Floats (F : Type 0) : Type 0 where
  pub zero_value : F
  -- the literal n / 10
  pub tenths : ℕ → F
  pub add : F → F → F
  pub mul : F → F → F
  pub is_zero : F → Bool
  pub is_positive : F → Bool
  pub leq : F → F → Bool
  -- d.Seconds()
  pub seconds : Duration → F
  -- float64(n) and int64(x)
  pub of_int64 : ℤ → F
  pub to_int64 : F → ℤ
  -- x / 1000.0
  pub thousandth : F → F
  -- int(math.Ceil(x))
  pub ceil : F → ℤ
  -- strconv.ParseFloat(s, 64), `none` for an error
  pub parse_float : List ℕ → Option F
