-- ===== src/Save/Times/Units.antt =====
-- The unit of a forecast time, as `set_forecast_time` writes it and `time_range_unit` reads it.
use gribbi.Base.Steps.{found, known, met, returned}
use gribbi.Base.{
  ℕ, String, ◌≡◌, refl, inl, inr, true, some, List, [], ◌∷◌, not, guard, ◌>>◌, if◌then◌else◌,
  translation_error, arith, Bool-cases, nat_eq, string_eq, option_eq, pair_eq, ok, Returns,
}
use gribbi.Value.{Value, int}
use gribbi.Base.Int.{ℤ, pos, int_eq}
use gribbi.Base.Dict.{lookup, lookup-insert}
use gribbi.Externals.{Externals}
use gribbi.Load.Time.{time_range_unit}
use gribbi.Tables.{lookup_value}
use gribbi.Save.Cube.{Cube, CubeCoord, Encoding, get_coord, has_any, first_of}
use gribbi.Save.Times.{
  forecast_unit_code, forecast_of, non_missing_forecast_period, set_forecast_time, Forecast,
  forecast_start, start_of, put, forecast,
}
use gribbi.Save.Shape.{Keys}

module _ {F : Type 0} (x : Externals F) (e : Encoding F) where
  -- A unit that a code stands for, and that is the given one.
  abbrev Stands : String → Value F → Type 0
  Stands units code =
      (unit : String) × (time_range_unit code ≡ ok unit) × (e.same_unit units unit ≡ true)

  forecast_unit_code-Stands :
      (units : String) (code : ℕ)
      → forecast_unit_code x e units ≡ ok code
      → Stands units (int (pos code))
  unfolding forecast_unit_code time_range_unit lookup_value lookup
  forecast_unit_code-Stands units code h = elim (Bool-cases (e.same_unit units "hours")) [
    | inl hours ↦ ("hours", stands code 1 "hours" refl (ground (arith, hours)), hours)
    | inr n1 ↦ elim (Bool-cases (e.same_unit units "minutes")) [
      | inl minutes ↦ ("minutes", stands code 0 "minutes" refl (ground (arith, minutes)), minutes)
      | inr n2 ↦ elim (Bool-cases (e.same_unit units "seconds")) [
        | inl seconds ↦
            ("seconds", stands code 13 "seconds" refl (ground (arith, seconds)), seconds)
        | inr n3 ↦ absurd (ground arith)
      ]
    ]
  ]
    where
      stands :
          (c n : ℕ) (unit : String)
          → time_range_unit {F = F} (int (pos n)) ≡ ok unit
          → c ≡ n
          → time_range_unit {F = F} (int (pos c)) ≡ ok unit
      stands c n unit p q = rw q p

  -- The start of a forecast: its point at an instant, or the lower of its bounds over an interval.
  pub data Starts (t_coord fp_coord : CubeCoord F) : F → Type 0 where
    instant :
        (start : F) (points : List F)
        → t_coord.bounds ≡ []
        → fp_coord.points ≡ start ∷ points
        → Starts t_coord fp_coord start
    interval :
        (row : List F) (rows : List (List F)) (start : F) (upper : List F) (more : List (List F))
        → t_coord.bounds ≡ row ∷ rows
        → fp_coord.bounds ≡ (start ∷ upper) ∷ more
        → Starts t_coord fp_coord start

  -- The message holds the forecast time of the cube, in a unit that is the one of its forecast
  -- period.
  pub record Timed (cube : Cube F) (fp_coord : CubeCoord F) (written : Keys F) : Type 0 where
    pub t_coord : CubeCoord F
    pub start : F
    pub fp : ℤ
    pub time : get_coord cube "time" ≡ ok t_coord
    pub starts : Starts t_coord fp_coord start
    pub truncated : e.truncate start ≡ ok fp
    pub code : Value F
    pub forecast_time : lookup "forecastTime" written ≡ some (int fp)
    pub unit_code : lookup "indicatorOfUnitForForecastTime" written ≡ some code
    pub stands : Stands fp_coord.units code

  -- A forecast of that forecast period.
  pub record ForecastOf (cube : Cube F) (fp_coord : CubeCoord F) (f : Forecast) : Type 0 where
    pub t_coord : CubeCoord F
    pub start : F
    pub time : get_coord cube "time" ≡ ok t_coord
    pub starts : Starts t_coord fp_coord start
    pub truncated : e.truncate start ≡ ok f.fp
    pub coded : forecast_unit_code x e fp_coord.units ≡ ok f.unit_code

  start-Starts :
      (t_coord fp_coord : CubeCoord F) (t_bounds fp_bounds : List (List F)) (points : List F)
      → t_coord.bounds ≡ t_bounds
      → fp_coord.bounds ≡ fp_bounds
      → fp_coord.points ≡ points
      → Returns (Starts t_coord fp_coord) (
          if not (has_any t_bounds) then first_of points else do
            guard (has_any fp_bounds) translation_error
            elim fp_bounds [ [] ↦ first_of points | row ∷ rows ↦ first_of row ])
  start-Starts t_coord fp_coord [] fp_bounds [] p q r = tt
  start-Starts t_coord fp_coord [] fp_bounds (a ∷ points) p q r = instant a points p r
  start-Starts t_coord fp_coord (row ∷ rows) [] points p q r = tt
  start-Starts t_coord fp_coord (row ∷ rows) ([] ∷ more) points p q r = tt
  start-Starts t_coord fp_coord (row ∷ rows) ((a ∷ upper) ∷ more) points p q r =
      interval row rows a upper more p q

  forecast_start-Starts :
      (t_coord fp_coord : CubeCoord F)
      → Returns (Starts t_coord fp_coord) (forecast_start x e t_coord fp_coord)
  unfolding forecast_start start_of
  forecast_start-Starts t_coord fp_coord =
      start-Starts t_coord fp_coord t_coord.bounds fp_coord.bounds fp_coord.points refl refl refl

  forecast-ForecastOf :
      (cube : Cube F) (fp_coord t_coord : CubeCoord F) (start : F) (rt fp : ℤ) (code : ℕ)
      → get_coord cube "time" ≡ ok t_coord
      → forecast_unit_code x e fp_coord.units ≡ ok code
      → forecast_start x e t_coord fp_coord ≡ ok start
      → e.truncate start ≡ ok fp
      → ForecastOf cube fp_coord (forecast rt 1 fp code)
  forecast-ForecastOf cube fp_coord t_coord start rt fp code t p q r = record {
    t_coord = t_coord;
    start = start;
    time = t;
    starts =
        returned (Starts t_coord fp_coord) (forecast_start x e t_coord fp_coord) start q
          (forecast_start-Starts t_coord fp_coord);
    truncated = r;
    coded = p;
  }

  non_missing_forecast_period-ForecastOf :
      (cube : Cube F) (fp_coord : CubeCoord F)
      → get_coord cube "forecast_period" ≡ ok fp_coord
      → Returns (ForecastOf cube fp_coord) (non_missing_forecast_period x e cube)
  unfolding non_missing_forecast_period
  non_missing_forecast_period-ForecastOf cube fp_coord p =
      rw p (search (found, known, forecast-ForecastOf) depth 20)

  forecast_of-ForecastOf :
      (cube : Cube F) (fp_coord : CubeCoord F)
      → get_coord cube "forecast_period" ≡ ok fp_coord
      → Returns (ForecastOf cube fp_coord) (forecast_of x e cube)
  unfolding forecast_of
  forecast_of-ForecastOf cube fp_coord p =
      rw p (non_missing_forecast_period-ForecastOf cube fp_coord p)

  written-Timed :
      (cube : Cube F) (fp_coord : CubeCoord F) (f : Forecast) (grib : Keys F)
      → ForecastOf cube fp_coord f
      → Timed cube fp_coord
          (put "forecastTime" f.fp (put "indicatorOfUnitForForecastTime" (pos f.unit_code) grib))
  written-Timed cube fp_coord f grib h = record {
    t_coord = h.t_coord;
    start = h.start;
    time = h.time;
    fp = f.fp;
    starts = h.starts;
    truncated = h.truncated;
    code = int (pos f.unit_code);
    forecast_time = simp (lookup-insert);
    unit_code = simp (lookup-insert);
    stands = forecast_unit_code-Stands fp_coord.units f.unit_code h.coded;
  }

  -- For a cube with one forecast period: where its forecast time is written, the cube has one time,
  -- the message holds the whole hours, minutes or seconds of the forecast period's first point where
  -- that time has no bounds, and of the lower of its first bounds where it has some, and the unit that is read back for the code in the
  -- message is the unit of the forecast period.
  pub set_forecast_time-Timed :
      (cube : Cube F) (fp_coord : CubeCoord F) (grib : Keys F)
      → get_coord cube "forecast_period" ≡ ok fp_coord
      → Returns (Timed cube fp_coord) (set_forecast_time x e cube grib)
  unfolding set_forecast_time
  set_forecast_time-Timed cube fp_coord grib p =
      met (ForecastOf cube fp_coord) (Timed cube fp_coord) (forecast_of x e cube) _
        (forecast_of-ForecastOf cube fp_coord p) (λ f h. written-Timed cube fp_coord f grib h)
