-- ===== src/Load/Time.antt =====
-- The time coordinates of _load_convert.py: the reference time, the forecast period and the time
-- that both give.
pub mod Laws
use gribbi.Base.{
  ℕ, zero, suc, ◌+◌, ◌-◌, ◌*◌, ◌/◌, ◌%◌, ◌^◌, ◌≤◌, ◌<◌, String, ◌≡◌, refl, sym, ap, ◌∙◌, subst, ◌≢◌,
  ◌↔◌, ◌⊎◌, inl, inr, Bool, true, false, not, ◌&&◌, ◌||◌, Option, none, some, List, [], ◌∷◌, ◌++◌,
  map, append-nil, append_assoc, arith, ltb, leb, ◌==◌, if◌then◌else◌, ltb→lt, lt→ltb, leb→le,
  ==_iff, Bool-cases, Option-cases, length, get_elem?, set, get_or, take, drop, replicate,
  length-append, length-set, get_elem?-set_self, get_elem?-set_ne, length-replicate, Eq, ◌===◌,
  contains, nat_eq, string_eq, option_eq, pair_eq, Error, translation_error, value_error, key_error,
  type_error, index_error, attribute_error, assertion_error, name_error, codes_error, Result, ok,
  err, Result-cases, ◌>>=◌, ◌>>◌, guard, is_ok, >>=-eq-ok, Returns, Returns-bind,
}
use gribbi.Base.Int.{
  ℤ, pos, negsuc, pos_part, neg_part, sub_ℕ, ◌+ℤ◌, ◌-ℤ◌, ◌*ℤ◌, ltb_ℤ, beq_ℤ, beq_ℤ_iff, int_eq,
  bit_set,
}
use gribbi.Base.Dict.{
  Dict, keys, lookup, insert, lookup-insert, lookup-insert_self, AllValues, AllValues-lookup,
}
use gribbi.Value.{Value, missing, int, real, string, ints, reals, masked, is_nat}
use Prim.Native.String.{slice}
use package.text.Mathlib.Text.{find?}
use gribbi.Value.{Reader, get_int, as_int}
use gribbi.Externals.{Externals, as_float}
use gribbi.Metadata.{Coord, Metadata, add_aux, scalar}
use gribbi.Tables.{time_range_units, lookup_value}
use gribbi.Load.Scaling.Hindcast.{hindcast_fix}

abbrev pub hours_since_epoch : String
hours_since_epoch = "hours since epoch"

-- Code table 1.2, `_lookup` in `reference_time_coord`.
abbrev pub reference_time_names : Dict ℕ String
reference_time_names =
    (0, "forecast_reference_time") ∷ (1, "forecast_reference_time") ∷ (2, "time") ∷ (3, "time") ∷ []

-- `str(units).split(" since ")[0]`
unfoldable pub base_unit : String → String
base_unit units = elim (find? units " since ") [ none ↦ units | some i ↦ slice units 0 i ]

-- `delta // 2` of a timedelta: rounded down to a whole number of microseconds.
unfoldable pub half_delta : ℤ → ℤ
half_delta (pos n) = pos (n / 2)
half_delta (negsuc n) = negsuc (n / 2)

-- `coord.shape == (1,)`
abbrev pub is_scalar : {F : Type 0} → Value F → Bool
is_scalar (ints items) = length items == 1
is_scalar (reals items) = length items == 1
is_scalar v = true

-- The unit's text.
unfoldable pub time_range_unit : {F : Type 0} → Value F → Result String
time_range_unit indicator = elim (lookup_value indicator time_range_units) [
  | none ↦ err translation_error
  | some unit ↦ ok unit
]

module _ {F : Type 0} (x : Externals F) where
  -- `coord.points[0]`
  unfoldable pub first_point : Value F → Result F
  first_point (reals (some a ∷ rest)) = ok a
  first_point (ints (some z ∷ rest)) = ok (x.of_int z)
  first_point v = as_float x v

  -- The six header elements of a time.
  abbrev pub read_datetime :
      Reader F → String → String → String → String → String → String → Result ℤ
  read_datetime section year month day hour minute second = do
    y ← get_int section year
    mo ← get_int section month
    d ← get_int section day
    h ← get_int section hour
    mi ← get_int section minute
    s ← get_int section second
    x.datetime y mo d h mi s

  unfoldable pub reference_time_coord : Reader F → Result (Coord F)
  reference_time_coord section = do
    dt ← read_datetime section "year" "month" "day" "hour" "minute" "second"
    significance ← section.get "significanceOfReferenceTime"
    elim (lookup_value significance reference_time_names) [
      | none ↦ err translation_error
      | some name ↦ ok (
          scalar (real (x.date2num hours_since_epoch dt)) (some name) none (some hours_since_epoch))
    ]

  unfoldable pub forecast_period_coord : Value F → Value F → Result (Coord F)
  forecast_period_coord indicator forecast_time = do
    unit ← time_range_unit indicator
    t ← as_float x forecast_time
    point ← x.convert unit t "hours"
    ok (scalar (real point) (some "forecast_period") none (some "hours"))

  -- The text of a coordinate's unit. (The coordinates here all have one.)
  abbrev pub units_of : Coord F → Result String
  units_of coord = elim coord.units [ none ↦ err attribute_error | some u ↦ ok u ]

  abbrev coord_timedelta : Coord F → F → Result ℤ
  coord_timedelta coord value = do
    u ← units_of coord
    seconds ← x.convert u value "seconds"
    ok (x.timedelta seconds)

  unfoldable pub validity_bounds : Coord F → String → ℤ → List (Value F) → Result (List (Value F))
  validity_bounds fp_coord units frt_point [] = ok []
  validity_bounds fp_coord units frt_point (bound ∷ bounds) = do
    b ← first_point bound
    delta ← coord_timedelta fp_coord b
    rest ← validity_bounds fp_coord units frt_point bounds
    ok (real (x.date2num units (frt_point +ℤ delta)) ∷ rest)

  unfoldable pub validity_time_coord : Coord F → Coord F → Result (Coord F)
  unfolding validity_bounds first_point
  validity_time_coord frt_coord fp_coord = do
    guard (is_scalar frt_coord.points) value_error
    guard (is_scalar fp_coord.points) value_error
    units ← units_of frt_coord
    frt ← first_point frt_coord.points
    frt_point ← x.num2date units frt
    fp ← first_point fp_coord.points
    point_delta ← coord_timedelta fp_coord fp
    bounds ← validity_bounds fp_coord units frt_point fp_coord.bounds
    ok
        (record (scalar (real (x.date2num units (frt_point +ℤ point_delta))) (some "time") none
          (some units)) { bounds = bounds })

  abbrev has_bounds : Coord F → Bool
  has_bounds coord = elim coord.bounds [ [] ↦ false | b ∷ bs ↦ true ]

  -- From a time and a forecast period, the reference time.
  unfoldable pub earlier_time_coord : Coord F → Coord F → String → String → Result (Coord F)
  unfolding first_point
  earlier_time_coord rt_coord fp_coord rt_units fp_units = do
    point ← first_point fp_coord.points
    fp ← x.convert fp_units point (base_unit rt_units)
    rt ← first_point rt_coord.points
    ok (scalar (real (x.sub rt fp)) (some "forecast_reference_time") none (some rt_units))

  unfoldable pub other_time_coord : Coord F → Coord F → Result (Coord F)
  other_time_coord rt_coord fp_coord = do
    rt_units ← units_of rt_coord
    guard (x.is_time_reference rt_units) value_error
    fp_units ← units_of fp_coord
    guard (x.is_time fp_units) value_error
    guard (not (has_bounds rt_coord || has_bounds fp_coord)) value_error
    guard (is_scalar rt_coord.points && is_scalar fp_coord.points) value_error
    if rt_coord.standard_name === some "time"
        then earlier_time_coord rt_coord fp_coord rt_units fp_units
        else if rt_coord.standard_name === some "forecast_reference_time"
        then validity_time_coord rt_coord fp_coord
        else err value_error

  -- The forecast time of a message. Without either key the name is not bound, and its use raises.
  unfoldable pub forecast_time : Reader F → Result (Value F)
  forecast_time section =
      if section.has_key "forecastTime"
      then section.get "forecastTime"
      else if section.has_key "startStep"
      then section.get "startStep"
      else err name_error

  unfoldable pub time_coords : Reader F → Coord F → Metadata F → Result (Metadata F)
  unfolding forecast_time
  time_coords section rt_coord m = do
    time ← forecast_time section
    indicator ← section.get "indicatorOfUnitForForecastTime"
    fp_coord ← forecast_period_coord indicator time
    other_coord ← other_time_coord rt_coord fp_coord
    ok (add_aux rt_coord (add_aux other_coord (add_aux fp_coord m)))

  unfoldable pub statistical_forecast_period_coord : Reader F → Coord F → Result (Coord F)
  unfolding first_point
  statistical_forecast_period_coord section frt_coord = do
    end_time ←
        read_datetime section "yearOfEndOfOverallTimeInterval" "monthOfEndOfOverallTimeInterval"
          "dayOfEndOfOverallTimeInterval" "hourOfEndOfOverallTimeInterval"
          "minuteOfEndOfOverallTimeInterval" "secondOfEndOfOverallTimeInterval"
    units ← units_of frt_coord
    frt ← first_point frt_coord.points
    frt_point ← x.num2date units frt
    stated ← get_int section "forecastTime"
    indicator ← section.get "indicatorOfUnitForForecastTime"
    forecast_units ← time_range_unit indicator
    seconds ← x.convert forecast_units (x.of_int (hindcast_fix stated)) "seconds"
    let start_time_delta = x.timedelta seconds
    let end_time_delta = end_time -ℤ frt_point
    let mid_time_delta = half_delta (start_time_delta +ℤ end_time_delta)
    let hours = λ (delta : ℤ). real (x.div (x.total_seconds delta) (x.of_int (pos 3600)))
    ok (record (scalar (hours mid_time_delta) (some "forecast_period") none (some "hours")) {
      bounds = hours start_time_delta ∷ hours end_time_delta ∷ [];
    })
