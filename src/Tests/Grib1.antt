-- ===== src/Tests/Grib1.antt =====
-- A GRIB1 message: a mean over six hours at 850 hPa.
use gribbi.Base.{
  ◌≡◌, true, false, none, some, [], ◌∷◌, nat_eq, string_eq, option_eq, pair_eq, ok, Returns,
}
use gribbi.Base.Int.{ℤ, pos, int_eq}
use gribbi.Base.Dict.{lookup}
use gribbi.Value.{reals}
use gribbi.CoordSystems.{geog}
use gribbi.Phenom.Code.{grib_code1}
use gribbi.Load.Convert.{empty_metadata}
use gribbi.Load.Grib1.{GribWrapper, grib1_convert, add_statistics}
use gribbi.Load.Grib1.Statistics.{summarised, add_statistics-summarised}
use gribbi.Load.Grib1.Layout.{grib1_convert-Layout1}
use gribbi.Load.Grib1.Axes.{Layout1}
use gribbi.Tests.{whole, number}

abbrev mean_message : GribWrapper ℤ
mean_message = record {
  edition = 1;
  grid_type = "regular_ll";
  x_points = reals (some (pos 0) ∷ some (pos 5) ∷ []);
  y_points = reals (some (pos 50) ∷ some (pos 45) ∷ []);
  x_coord_name = "longitude";
  y_coord_name = "latitude";
  coord_system = geog (record {
    semi_major_axis = number 6371229;
    semi_minor_axis = none;
    inverse_flattening = none;
  });
  x_circular = false;
  j_points_are_consecutive = ok (pos 0);
  table2_version = 1;
  indicator_of_parameter = 11;
  cf_data = none;
  grib_code = grib_code1 1 98 11;
  unknown_local_param = "UNKNOWN LOCAL PARAM 11.1";
  has_time = true;
  start_step = number 0;
  forecast_time_unit = "hours";
  forecast_time = pos 0;
  phenomenon_points = ok (pos 3);
  phenomenon_bounds = ok (pos 0, pos 6);
  time_range_indicator = 3;
  level_type = "pl";
  type_of_level = "isobaricInhPa";
  level = pos 850;
  pv = none;
  number_of_coordinates_values = 0;
  originating_centre = "unknown";
}

add_statistics-summarised_example :
    add_statistics whole mean_message empty_metadata
    ≡ summarised whole (some (some "mean")) mean_message empty_metadata
unfolding lookup
add_statistics-summarised_example = add_statistics-summarised whole mean_message empty_metadata

grib1_convert-Layout1_example : Returns (Layout1 mean_message) (grib1_convert whole mean_message)
grib1_convert-Layout1_example = grib1_convert-Layout1 whole mean_message
