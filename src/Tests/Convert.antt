-- ===== src/Tests/Convert.antt =====
-- The translation of a message at product template 0, and its flags.
use gribbi.Base.{
  ℕ, ◌+◌, ◌%◌, ◌≡◌, refl, Bool, true, false, [], ◌∷◌, ◌++◌, arith, nat_eq, string_eq, option_eq,
  pair_eq, Result, ok, ◌>>=◌,
}
use gribbi.Base.Int.{ℤ, pos, ◌+ℤ◌, ◌-ℤ◌, ltb_ℤ, int_eq}
use gribbi.Base.Dict.{Dict, lookup, insert}
use gribbi.Value.{missing, string}
use gribbi.Value.{Reader}
use gribbi.Externals.{as_float}
use gribbi.Metadata.{Metadata}
use gribbi.Tables.{lookup_value}
use gribbi.Phenom.{grib2_phenom_to_cf_info}
use gribbi.Load.Time.{
  reference_time_coord, time_coords, forecast_time, forecast_period_coord, time_range_unit,
  first_point, other_time_coord, validity_time_coord, validity_bounds,
}
use gribbi.Load.Vertical.{vertical_coords}
use gribbi.Load.Phenomenon.{translate_phenomenon, name_phenomenon, add_reference}
use gribbi.Load.Product.{
  product_definition_section, apply_template, product_definition_template_0, translate_parameter,
}
use gribbi.Load.Convert.{
  convert, grib2_convert, data_representation_section, bitmap_section, empty_metadata,
  grid_point_templates, spectral_templates, bitmap_codes,
}
use gribbi.Load.Convert.Safety.{Holds, product_templates, convert-supported}
use gribbi.Load.Flags.{scanning_mode, increases, scanning_mode_flags}
use gribbi.Load.Flags.RoundTrip.{weight, scanning_mode-bits, scanning_mode-scanning_mode_flags}
use gribbi.Tests.{whole, flat, lat_lon_grid, known, number, result_or}

abbrev sections : Dict ℕ (Reader ℤ)
sections =
    (0, known (("editionNumber", number 2) ∷ ("discipline", number 0) ∷ []))
    ∷ (
      1,
      known (
          ("centre", string "ecmf")
          ∷ ("tablesVersion", number 4)
          ∷ ("significanceOfReferenceTime", number 1)
          ∷ ("year", number 2020)
          ∷ ("month", number 1)
          ∷ ("day", number 1)
          ∷ ("hour", number 6)
          ∷ ("minute", number 0)
          ∷ ("second", number 0)
          ∷ []),
    )
    ∷ (3, lat_lon_grid)
    ∷ (
      4,
      known (
          ("productDefinitionTemplateNumber", number 0)
          ∷ ("hoursAfterDataCutoff", missing)
          ∷ ("minutesAfterDataCutoff", missing)
          ∷ ("forecastTime", number 3)
          ∷ ("indicatorOfUnitForForecastTime", number 1)
          ∷ ("NV", number 0)
          ∷ ("typeOfFirstFixedSurface", number 1)
          ∷ ("scaledValueOfFirstFixedSurface", number 0)
          ∷ ("typeOfSecondFixedSurface", number 255)
          ∷ ("parameterCategory", number 3)
          ∷ ("parameterNumber", number 0)
          ∷ []),
    )
    ∷ (5, known (("dataRepresentationTemplateNumber", number 0) ∷ []))
    ∷ (6, known (("bitMapIndicator", number 255) ∷ []))
    ∷ []

abbrev translated : Result (Metadata ℤ)
translated = convert whole flat [] sections

convert-supported_example :
    Holds sections 0 "editionNumber" (2 ∷ [])
    × Holds sections 4 "productDefinitionTemplateNumber" product_templates
    × Holds sections 5 "dataRepresentationTemplateNumber"
        (grid_point_templates ++ spectral_templates)
    × Holds sections 6 "bitMapIndicator" bitmap_codes
unfolding convert lookup grib2_convert reference_time_coord lookup_value product_definition_section
    apply_template product_definition_template_0 time_coords forecast_time forecast_period_coord
    time_range_unit as_float first_point other_time_coord validity_time_coord validity_bounds
    vertical_coords translate_parameter translate_phenomenon grib2_phenom_to_cf_info name_phenomenon
    add_reference data_representation_section bitmap_section ◌+ℤ◌ ◌-ℤ◌ insert
    gribbi.Load.Grid.grid_definition_section gribbi.Load.Grid.apply_grid_template
    gribbi.Load.Grid.LatLon.grid_definition_template_0 gribbi.Load.Ellipsoid.earth
    gribbi.Load.Ellipsoid.ellipsoid_geometry gribbi.Load.Scaling.unscale
    gribbi.Load.Ellipsoid.ellipsoid gribbi.Load.Grid.LatLon.grid_definition_template_0_and_1
    gribbi.Message.Data.is_reduced scanning_mode gribbi.Load.Grid.LatLon.longitude_points
    gribbi.Load.Grid.Points.get_increment gribbi.Load.Flags.resolution_flags
    gribbi.Load.Grid.LatLon.latitude_points
convert-supported_example =
    convert-supported whole flat [] sections (result_or empty_metadata translated) refl

scanning_mode-bits_example :
    (96 ≡ weight false 128 + weight true 64 + weight true 32 + 96 % 16) × (false ≡ false)
unfolding scanning_mode
scanning_mode-bits_example =
    scanning_mode-bits 96
      (record {
        i_negative = false;
        j_positive = true;
        j_consecutive = true;
        i_alternative = false;
      })
      (omega arith) refl

abbrev is_positive : ℤ → Bool
is_positive n = ltb_ℤ (pos 0) n

scanning_mode-scanning_mode_flags_example :
    (do
      mode ← scanning_mode_flags whole is_positive (pos 0 ∷ pos 1 ∷ []) (pos 9 ∷ pos 8 ∷ pos 7 ∷ [])
      scanning_mode (pos mode))
    ≡ ok (record {
      i_negative = false;
      j_positive = false;
      j_consecutive = false;
      i_alternative = false;
    })
unfolding increases ◌-ℤ◌
scanning_mode-scanning_mode_flags_example =
    scanning_mode-scanning_mode_flags whole is_positive (pos 0 ∷ pos 1 ∷ [])
      (pos 9 ∷ pos 8 ∷ pos 7 ∷ []) true false refl refl
