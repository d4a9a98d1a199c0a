-- ===== src/Externals.antt =====
-- What the translations use of other packages: floats, cf_units, and the datetimes of Python's
-- library. A datetime is the number of microseconds since the epoch, and a timedelta is a number
-- of microseconds; both are exact, so their sums are sums of integers.
use gribbi.Base.{String, Bool, nat_eq, string_eq, option_eq, pair_eq, type_error, Result, ok, err}
use gribbi.Base.Int.{ℤ, int_eq}
use gribbi.Value.{Value, int, real}

pub record Externals (F : Type 0) : Type 0 where
  -- 0.5; float(n); a + b; a - b; a * b; a / b; 10.0 ** a
  pub half : F
  pub of_int : ℤ → F
  pub add : F → F → F
  pub sub : F → F → F
  pub mul : F → F → F
  pub div : F → F → F
  pub pow10 : F → F
  -- Unit(a).convert(value, b)
  pub convert : String → F → String → Result F
  -- Unit(a).is_time_reference(), Unit(a).is_time()
  pub is_time_reference : String → Bool
  pub is_time : String → Bool
  -- Unit(a).num2date(value), float(Unit(a).date2num(date))
  pub num2date : String → F → Result ℤ
  pub date2num : String → ℤ → F
  -- datetime(year, month, day, hour, minute, second), which raises where there is no such time
  pub datetime : ℤ → ℤ → ℤ → ℤ → ℤ → ℤ → Result ℤ
  -- timedelta(seconds=a), delta.total_seconds()
  pub timedelta : F → ℤ
  pub total_seconds : ℤ → F

module _ {F : Type 0} (x : Externals F) where
  -- An operand of float arithmetic.
  unfoldable pub as_float : Value F → Result F
  as_float (int z) = ok (x.of_int z)
  as_float (real a) = ok a
  as_float v = err type_error
