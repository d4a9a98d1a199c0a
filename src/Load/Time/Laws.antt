-- ===== src/Load/Time/Laws.antt =====
-- The period of a time statistic.
use gribbi.Base.{
  ◌+◌, ◌≤◌, ◌≡◌, none, some, [], ◌∷◌, arith, nat_eq, string_eq, option_eq, pair_eq, Result, ok,
  >>=-eq-ok,
}
use gribbi.Base.Int.{ℤ, pos, negsuc, pos_part, neg_part, ◌+ℤ◌, ◌-ℤ◌, int_eq}
use gribbi.Value.{Value, real}
use gribbi.Value.{Reader, get_int}
use gribbi.Externals.{Externals}
use gribbi.Metadata.{Coord, scalar}
use gribbi.Load.Scaling.Hindcast.{hindcast_fix}
use gribbi.Load.Time.{
  half_delta, statistical_forecast_period_coord, read_datetime, units_of, first_point,
  time_range_unit,
}

abbrev pub ◌≤ℤ◌ : ℤ → ℤ → Type 0
◌≤ℤ◌ a b = pos_part a + neg_part b ≤ pos_part b + neg_part a

infix 50 ◌≤ℤ◌
-- Half of a whole number, rounded down.
half_delta-middle :
    (total : ℤ)
    → (half_delta total +ℤ half_delta total ≤ℤ total)
      × (total ≤ℤ half_delta total +ℤ half_delta total +ℤ pos 1)
unfolding half_delta ◌+ℤ◌
half_delta-middle (pos n) = ground arith
half_delta-middle (negsuc n) = ground arith

module _ {F : Type 0} (x : Externals F) where
  -- A number of hours, from one of microseconds.
  abbrev pub hours : ℤ → Value F
  hours delta = real (x.div (x.total_seconds delta) (x.of_int (pos 3600)))

  abbrev period_coord : ℤ → ℤ → Coord F
  period_coord start end =
      record (scalar (hours (half_delta (start +ℤ end))) (some "forecast_period") none
        (some "hours")) { bounds = hours start ∷ hours end ∷ [] }

  period_coord-middle :
      (start end : ℤ) (coord : Coord F)
      → Path (Result (Coord F)) (ok (period_coord start end)) (ok coord)
      → (start end middle : ℤ) × (coord.points ≡ hours middle)
        × (coord.bounds ≡ hours start ∷ hours end ∷ [])
        × (middle +ℤ middle ≤ℤ start +ℤ end)
        × (start +ℤ end ≤ℤ middle +ℤ middle +ℤ pos 1)
  period_coord-middle start end coord h =
      let (low, high) = half_delta-middle (start +ℤ end) in
      (start, end, half_delta (start +ℤ end), cc, cc, low, high)

  -- A forecast period of a time statistic has two bounds, and its point is the middle of the two,
  -- rounded down to a microsecond; the three are given in hours.
  pub statistical_forecast_period_coord-middle :
      (section : Reader F) (frt_coord coord : Coord F)
      → statistical_forecast_period_coord x section frt_coord ≡ ok coord
      → (start end middle : ℤ) × (coord.points ≡ hours middle)
        × (coord.bounds ≡ hours start ∷ hours end ∷ [])
        × (middle +ℤ middle ≤ℤ start +ℤ end)
        × (start +ℤ end ≤ℤ middle +ℤ middle +ℤ pos 1)
  unfolding statistical_forecast_period_coord
  statistical_forecast_period_coord-middle section frt_coord coord h =
      let (end_time, p1, h1) =
        >>=-eq-ok
          (read_datetime x section "yearOfEndOfOverallTimeInterval"
            "monthOfEndOfOverallTimeInterval" "dayOfEndOfOverallTimeInterval"
            "hourOfEndOfOverallTimeInterval" "minuteOfEndOfOverallTimeInterval"
            "secondOfEndOfOverallTimeInterval")
          _ h in
      let (units, p2, h2) = >>=-eq-ok (units_of x frt_coord) _ h1 in
      let (frt, p3, h3) = >>=-eq-ok (first_point x frt_coord.points) _ h2 in
      let (frt_point, p4, h4) = >>=-eq-ok (x.num2date units frt) _ h3 in
      let (stated, p5, h5) = >>=-eq-ok (get_int section "forecastTime") _ h4 in
      let (indicator, p6, h6) = >>=-eq-ok (section.get "indicatorOfUnitForForecastTime") _ h5 in
      let (forecast_units, p7, h7) = >>=-eq-ok (time_range_unit indicator) _ h6 in
      let (seconds, p8, h8) =
        >>=-eq-ok (x.convert forecast_units (x.of_int (hindcast_fix stated)) "seconds") _ h7 in
      period_coord-middle (x.timedelta seconds) (end_time -ℤ frt_point) coord h8
