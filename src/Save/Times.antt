-- ===== src/Save/Times.antt =====
-- The times of _save_rules.py: the reference time, the forecast time and the time range.
pub mod Units
use gribbi.Base.{
  ℕ, zero, suc, ◌+◌, ◌-◌, ◌*◌, ◌/◌, ◌%◌, ◌^◌, ◌≤◌, ◌<◌, String, ◌≡◌, refl, sym, ap, ◌∙◌, subst, ◌≢◌,
  ◌↔◌, ◌⊎◌, inl, inr, Bool, true, false, not, ◌&&◌, ◌||◌, Option, none, some, List, [], ◌∷◌, ◌++◌,
  map, append-nil, append_assoc, arith, ltb, leb, ◌==◌, if◌then◌else◌, ltb→lt, lt→ltb, leb→le,
  ==_iff, Bool-cases, Option-cases, length, get_elem?, set, get_or, take, drop, replicate,
  length-append, length-set, get_elem?-set_self, get_elem?-set_ne, length-replicate, Eq, ◌===◌,
  contains, nat_eq, string_eq, option_eq, pair_eq, Error, translation_error, value_error, key_error,
  type_error, index_error, attribute_error, assertion_error, name_error, zero_division_error,
  codes_error, Result, ok, err, Result-cases, ◌>>=◌, ◌>>◌, guard, is_ok, >>=-eq-ok, Returns,
  Returns-bind,
}
use gribbi.Base.Int.{
  ℤ, pos, negsuc, pos_part, neg_part, sub_ℕ, ◌+ℤ◌, ◌-ℤ◌, ◌*ℤ◌, ltb_ℤ, beq_ℤ, beq_ℤ_iff, int_eq,
  bit_set,
}
use gribbi.Base.Dict.{
  Dict, keys, lookup, insert, lookup-insert, lookup-insert_self, AllValues, AllValues-lookup,
}
use gribbi.Value.{Value, missing, int, real, string, ints, reals, masked, is_nat}
use gribbi.Externals.{Externals}
use gribbi.Tables.{time_range_units}
use gribbi.Save.Shape.{Keys}
use gribbi.Save.Codes.{invert}
use gribbi.Save.Cube.{
  Cube, CubeCoord, CubeMethod, Encoding, DateFields, named, has_any, has_coord, get_coord, first_of,
  pair_of,
}

-- `_TIME_RANGE_UNITS_INVERTED["hours"]`
unfoldable pub code_of_unit : String → Result ℕ
code_of_unit unit = elim (lookup unit (invert time_range_units [])) [
  | none ↦ err key_error
  | some code ↦ ok code
]

-- A reference time, what it means, the forecast time and the code of its unit.
pub record Forecast : Type 0 where
  pub rt : ℤ
  pub rt_meaning : ℕ
  pub fp : ℤ
  pub unit_code : ℕ

abbrev pub forecast : ℤ → ℕ → ℤ → ℕ → Forecast
forecast rt rt_meaning fp unit_code = record {
  rt = rt;
  rt_meaning = rt_meaning;
  fp = fp;
  unit_code = unit_code;
}

-- The fields of a date and of a time as one number, `int("%04d%02d%02d" % (...))`.
abbrev pub data_date : DateFields → ℕ
data_date d = (d.year * 100 + d.month) * 100 + d.day

abbrev pub data_time : DateFields → ℕ
data_time d = d.hour * 100 + d.minute

module _ {F : Type 0} where
  abbrev pub put : String → ℤ → Keys F → Keys F
  put key n grib = insert key (int n) grib

  -- `coord.has_bounds()`
  abbrev pub has_bounds : CubeCoord F → Bool
  has_bounds coord = has_any coord.bounds

  -- `coord.bounds[0, 0] if coord.has_bounds() else coord.points[0]`
  unfoldable pub start_of : CubeCoord F → Result F
  start_of coord = elim coord.bounds [ [] ↦ first_of coord.points | row ∷ rows ↦ first_of row ]

module _ {F : Type 0} (x : Externals F) (e : Encoding F) where
  -- The code of the unit of a forecast period.
  unfoldable pub forecast_unit_code : String → Result ℕ
  forecast_unit_code units =
      if e.same_unit units "hours"
      then ok 1
      else if e.same_unit units "minutes"
      then ok 0
      else if e.same_unit units "seconds"
      then ok 13
      else err translation_error

  -- The forecast time, which is the start of the bounds where time has some.
  unfoldable pub forecast_start : CubeCoord F → CubeCoord F → Result F
  forecast_start t_coord fp_coord =
      if not (has_bounds t_coord)
      then first_of fp_coord.points
      else do guard (has_bounds fp_coord) translation_error; start_of fp_coord

  unfoldable pub non_missing_forecast_period : Cube F → Result Forecast
  non_missing_forecast_period cube = do
    fp_coord ← get_coord cube "forecast_period"
    fp_point ← first_of fp_coord.points
    cf_fp_hrs ← x.convert fp_coord.units fp_point "hours"
    t_coord ← get_coord cube "time"
    t_point ← first_of t_coord.points
    let hours_since = e.hours_since t_coord.units
    t ← x.convert t_coord.units t_point hours_since
    rt ← x.num2date hours_since (x.sub t cf_fp_hrs)
    grib_time_code ← forecast_unit_code fp_coord.units
    fp ← forecast_start t_coord fp_coord
    integer_fp ← e.truncate fp
    ok (forecast rt 1 integer_fp grib_time_code)

  unfoldable pub missing_forecast_period : Cube F → Result Forecast
  missing_forecast_period cube = do
    t_coord ← get_coord cube "time"
    if has_coord cube "forecast_reference_time"
        then (do
          let hours_since = e.hours_since t_coord.units
          frt_coord ← get_coord cube "forecast_reference_time"
          frt_point ← first_of frt_coord.points
          frt ← x.convert frt_coord.units frt_point hours_since
          t_start ← start_of t_coord
          t ← x.convert t_coord.units t_start hours_since
          rt ← x.num2date hours_since frt
          fp ← e.truncate (x.sub t frt)
          ok (forecast rt 1 fp 1))
        else (do
          t ← start_of t_coord
          rt ← x.num2date t_coord.units t
          ok (forecast rt 3 (pos 0) 1))

  -- What both `reference_time` and `set_forecast_time` do first. That cube.coord("forecast_period")
  -- finds two coordinates is no other case than that it finds none.
  unfoldable pub forecast_of : Cube F → Result Forecast
  forecast_of cube =
      if is_ok (get_coord cube "forecast_period")
      then non_missing_forecast_period cube
      else missing_forecast_period cube

  unfoldable pub reference_time : Cube F → Keys F → Result (Keys F)
  reference_time cube grib = do
    f ← forecast_of cube
    let fields = e.date_fields f.rt
    ok (
        put "dataTime" (pos (data_time fields)) (
          put "dataDate" (pos (data_date fields))
            (put "significanceOfReferenceTime" (pos f.rt_meaning) grib)))

  unfoldable pub set_forecast_time : Cube F → Keys F → Result (Keys F)
  set_forecast_time cube grib = do
    f ← forecast_of cube
    ok (put "forecastTime" f.fp (put "indicatorOfUnitForForecastTime" (pos f.unit_code) grib))

  -- The tests of a bounded time, and its only bounds.
  unfoldable pub time_bounds : CubeCoord F → Result (F × F)
  time_bounds coord = do
    guard (length coord.points == 1) value_error
    elim coord.bounds [
      | [] ↦ err value_error
      | row ∷ rows ↦ if length row == 2 then pair_of row else err value_error
    ]

  unfoldable pub set_time_range : CubeCoord F → Keys F → Result (Keys F)
  set_time_range time_coord grib = do
    (start, end) ← time_bounds time_coord
    code ← code_of_unit "hours"
    let hours_since = e.hours_since time_coord.units
    start_hours ← x.convert time_coord.units start hours_since
    end_hours ← x.convert time_coord.units end hours_since
    integer_hours ← e.truncate (x.sub end_hours start_hours)
    ok (put "lengthOfTimeRange" integer_hours (put "indicatorOfUnitForTimeRange" (pos code) grib))

  -- `inc, units = interval.split()`, and float(inc), where the units are hours.
  unfoldable pub interval_hours : List String → Option F
  interval_hours [] = none
  interval_hours (inc ∷ []) = none
  interval_hours (inc ∷ units ∷ third ∷ rest) = none
  interval_hours (inc ∷ units ∷ []) = elim (e.parse_float inc) [
    | err error ↦ none
    | ok hours ↦ if contains ("hr" ∷ "hour" ∷ "hours" ∷ []) units then some hours else none
  ]

  -- The increment and the code of its unit. A ValueError is caught, other errors are not: int() of
  -- an infinity is behind the try.
  unfoldable pub time_increment : Option (List String) → Result (ℤ × ℕ)
  time_increment none = ok (pos 0, 255)
  time_increment (some []) = ok (pos 0, 255)
  time_increment (some (a ∷ b ∷ rest)) = ok (pos 0, 255)
  time_increment (some (interval ∷ [])) = elim (interval_hours (e.split interval)) [
    | none ↦ ok (pos 0, 255)
    | some hours ↦ do code ← code_of_unit "hours"; inc ← e.truncate hours; ok (inc, code)
  ]

  unfoldable pub set_time_increment : CubeMethod → Keys F → Result (Keys F)
  set_time_increment cell_method grib = do
    (inc, units_type) ← time_increment cell_method.intervals
    ok (
        put "timeIncrement" inc (
          put "indicatorOfUnitForTimeIncrement" (pos units_type)
            (put "typeOfTimeIncrement" (pos 255) grib)))
