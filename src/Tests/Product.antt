-- ===== src/Tests/Product.antt =====
-- Sections of product templates.
use gribbi.Base.{
  ◌≡◌, refl, none, some, [], ◌∷◌, arith, nat_eq, string_eq, option_eq, pair_eq, Returns,
}
use gribbi.Base.Int.{ℤ, pos, negsuc, ◌+ℤ◌, ◌-ℤ◌, int_eq}
use gribbi.Base.Dict.{lookup}
use gribbi.Value.{missing, real, reals}
use gribbi.Value.{Reader}
use gribbi.Externals.{as_float}
use gribbi.Metadata.{Coord, scalar}
use gribbi.Load.Scaling.Hindcast.{hindcast_fix, encode_signed, hindcast_fix-encode_signed}
use gribbi.Load.Time.{half_delta, statistical_forecast_period_coord, time_range_unit, first_point}
use gribbi.Load.Time.Laws.{◌≤ℤ◌, hours, statistical_forecast_period_coord-middle}
use gribbi.Load.Product.{product_definition_section, apply_template}
use gribbi.Load.Product.Grows.{Grows}
use gribbi.Load.Product.Templates.{apply_template-Grows}
use gribbi.Load.Product.Appends.{Appends, product_definition_section-Appends}
use gribbi.Load.Convert.{empty_metadata}
use gribbi.Tables.{lookup_value}
use gribbi.Tests.{whole, known, number, reference}

-- A height level 2 of a model with three levels, at an ensemble member.
abbrev product : Reader ℤ
product = known (
    ("productDefinitionTemplateNumber", number 1)
    ∷ ("hoursAfterDataCutoff", missing)
    ∷ ("minutesAfterDataCutoff", missing)
    ∷ ("forecastTime", number 3)
    ∷ ("indicatorOfUnitForForecastTime", number 1)
    ∷ ("perturbationNumber", number 5)
    ∷ ("NV", number 8)
    ∷ (
      "pv",
      reals (
          some (pos 0)
          ∷ some (pos 20)
          ∷ some (pos 60)
          ∷ some (pos 90)
          ∷ some (pos 9)
          ∷ some (pos 8)
          ∷ some (pos 6)
          ∷ some (pos 1)
          ∷ []),
    )
    ∷ ("typeOfFirstFixedSurface", number 118)
    ∷ ("scaleFactorOfFirstFixedSurface", number 0)
    ∷ ("scaledValueOfFirstFixedSurface", number 2)
    ∷ ("typeOfSecondFixedSurface", number 255)
    ∷ ("parameterCategory", number 3)
    ∷ ("parameterNumber", number 5)
    ∷ [])

product_definition_section-Appends_example :
    Returns
      (Appends empty_metadata)
      (product_definition_section whole [] product (number 0) (number 4) reference empty_metadata)
product_definition_section-Appends_example =
    product_definition_section-Appends whole [] product (number 0) (number 4) reference
      empty_metadata

apply_template-Grows_example :
    Returns
      (λ (p, done). Grows empty_metadata done)
      (apply_template whole (number 1) product reference empty_metadata)
apply_template-Grows_example =
    apply_template-Grows whole (number 1) product reference empty_metadata

abbrev period : Reader ℤ
period = known (
    ("yearOfEndOfOverallTimeInterval", number 2020)
    ∷ ("monthOfEndOfOverallTimeInterval", number 1)
    ∷ ("dayOfEndOfOverallTimeInterval", number 1)
    ∷ ("hourOfEndOfOverallTimeInterval", number 12)
    ∷ ("minuteOfEndOfOverallTimeInterval", number 0)
    ∷ ("secondOfEndOfOverallTimeInterval", number 0)
    ∷ ("forecastTime", number 3)
    ∷ ("indicatorOfUnitForForecastTime", number 1)
    ∷ [])

abbrev forecast_period : Coord ℤ
forecast_period = record (scalar (real (pos 4)) (some "forecast_period") none (some "hours")) {
  bounds = real (pos 3) ∷ real (pos 6) ∷ [];
}

statistical_forecast_period_coord-middle_example :
    (start end middle : ℤ) × (real (pos 4) ≡ hours whole middle)
    × (real (pos 3) ∷ real (pos 6) ∷ [] ≡ hours whole start ∷ hours whole end ∷ [])
    × (middle +ℤ middle ≤ℤ start +ℤ end)
    × (start +ℤ end ≤ℤ middle +ℤ middle +ℤ pos 1)
unfolding statistical_forecast_period_coord lookup first_point time_range_unit lookup_value as_float
    half_delta hindcast_fix ◌-ℤ◌ ◌+ℤ◌
statistical_forecast_period_coord-middle_example =
    statistical_forecast_period_coord-middle whole period reference forecast_period refl

hindcast_fix-encode_signed_example : hindcast_fix (pos (encode_signed (negsuc 5))) ≡ negsuc 5
hindcast_fix-encode_signed_example =
    hindcast_fix-encode_signed (negsuc 5) (omega arith) (omega arith)
