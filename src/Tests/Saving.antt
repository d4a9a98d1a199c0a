-- ===== src/Tests/Saving.antt =====
-- What is written for a cube.
use gribbi.Base.{
  ◌+◌, ◌≡◌, refl, none, some, [], ◌∷◌, nat_eq, string_eq, option_eq, pair_eq, Returns, true, ok,
  false,
}
use gribbi.Base.Int.{ℤ, pos, int_eq, pos_part, neg_part, ltb_ℤ, beq_ℤ}
use gribbi.Base.Dict.{lookup}
use gribbi.Value.{missing, int}
use gribbi.Load.Convert.{empty_metadata}
use gribbi.Load.Vertical.{vertical_coords}
use gribbi.Save.Shape.{Keys}
use gribbi.Save.Shape.RoundTrip.{section_of_keys}
use gribbi.Save.Cube.{named, param_numbers}
use gribbi.Save.Surfaces.{
  vertical_coord, single_vertical, set_fixed_surfaces, put_surfaces, write_surfaces, write_found,
  write_hybrid, surface_value,
}
use gribbi.Save.Surfaces.Levels.{level_of, above_ground, set_fixed_surfaces-level_of}
use gribbi.Save.Times.{set_forecast_time}
use gribbi.Save.Times.Units.{Timed, set_forecast_time-Timed}
use gribbi.Save.Parameter.{set_discipline_and_parameter}
use gribbi.Save.Parameter.RoundTrip.{
  Identified, by_numbers, set_discipline_and_parameter-Identified,
}
use gribbi.Save.Grid.{GridCube, RotatedPole, Spacing, save_grid_0, save_grid_1}
use gribbi.Save.Grid.Holds.{fresh}
use gribbi.Save.Grid.Shape.{HasShape, save_grid-HasShape}
use gribbi.Save.Data.{ArrayType}
use gribbi.Save.Projected.{Projection}
use gribbi.Save.Sections.{mercator_cs, save_grid_definition_section}
use gribbi.Save.Sections.Loadable.{IsOnGrid, mercator, save_grid_definition_section-IsOnGrid}
use gribbi.Save.Product.{save_product_definition_section}
use gribbi.Save.Product.Described.{IsDescribed, save_product_definition_section-IsDescribed}
use gribbi.Tests.{flat, whole, exact, height_cube, cube_coord}

-- A new message.
abbrev sample : Keys ℤ
sample = ("NV", int (pos 0)) ∷ []

abbrev written : Keys ℤ
written = put_surfaces (int (pos 103)) (int (pos 10)) (int (pos 255)) missing missing sample

set_fixed_surfaces-level_of_example :
    vertical_coords whole (section_of_keys written) empty_metadata
    ≡ level_of whole exact above_ground (cube_coord "height" 10 "m") [] empty_metadata
unfolding named lookup set_fixed_surfaces vertical_coord single_vertical write_surfaces write_found
    write_hybrid surface_value
set_fixed_surfaces-level_of_example =
    set_fixed_surfaces-level_of whole exact "height" "m" 103 above_ground height_cube none
      (cube_coord "height" 10 "m") sample written empty_metadata refl
      (refl, refl, refl, refl, refl, refl) refl refl (λ a. refl) refl

set_forecast_time-Timed_example :
    Returns
      (Timed whole exact height_cube (cube_coord "forecast_period" 3 "hours"))
      (set_forecast_time whole exact height_cube sample)
unfolding named
set_forecast_time-Timed_example =
    set_forecast_time-Timed whole exact height_cube (cube_coord "forecast_period" 3 "hours") sample
      refl

set_discipline_and_parameter-Identified_example :
    Identified 0 0 5 (set_discipline_and_parameter [] height_cube sample)
set_discipline_and_parameter-Identified_example =
    set_discipline_and_parameter-Identified [] height_cube (param_numbers (2 ∷ 0 ∷ 0 ∷ 5 ∷ [])) 0 0
      5 sample refl (by_numbers [])

save_product_definition_section-IsDescribed_example :
    Returns
      (IsDescribed whole exact [] height_cube)
      (save_product_definition_section whole exact [] height_cube none sample)
save_product_definition_section-IsDescribed_example =
    save_product_definition_section-IsDescribed whole exact [] height_cube none sample

-- Three longitudes and two latitudes on a sphere.
abbrev grid_cube : GridCube ℤ
grid_cube = record {
  x_coord = record { points = pos 0 ∷ pos 5 ∷ pos 10 ∷ []; units = "degrees" };
  y_coord = record { points = pos 50 ∷ pos 45 ∷ []; units = "degrees" };
  figure = some (record {
    is_spherical = true;
    semi_major_axis = pos 6371229;
    semi_minor_axis = pos 6371229;
  });
  name = "air_temperature";
}

abbrev pole : RotatedPole ℤ
pole = record {
  grid_north_pole_latitude = pos 38;
  grid_north_pole_longitude = pos 190;
  north_pole_grid_longitude = pos 0;
}

abbrev spacing : Spacing ℤ
spacing = record {
  regular_step = λ points. ok (pos 5);
  absolute = λ a. pos (pos_part a + neg_part a);
  is_positive = λ a. ltb_ℤ (pos 0) a;
}

save_grid-HasShape_example :
    Returns
      (HasShape whole flat exact spacing grid_cube)
      (save_grid_0 whole flat exact spacing grid_cube fresh)
    × Returns
        (HasShape whole flat exact spacing grid_cube)
        (save_grid_1 whole flat exact spacing pole grid_cube fresh)
unfolding lookup
save_grid-HasShape_example =
    save_grid-HasShape whole flat exact spacing pole grid_cube fresh (refl, (refl, (refl, tt)))

abbrev doubles : ArrayType ℤ
doubles = record {
  narrow = λ a. a;
  convert = whole.convert;
  is_nan = λ a. false;
  minimum = λ values. pos 0;
  maximum = λ values. pos 9;
}

abbrev projection : Projection ℤ
projection = record {
  to_geographic = λ a b. (a, b);
  mean = λ differences. ok (pos 5);
  all_close = λ differences mean_diff. true;
  is_close = λ a b. beq_ℤ a b;
  is_zero_within_1e6 = λ a. beq_ℤ a (pos 0);
}

save_grid_definition_section-IsOnGrid_example :
    Returns (IsOnGrid whole flat exact spacing projection mercator) (
      save_grid_definition_section whole flat exact spacing projection
        (mercator_cs (pos 14))
        grid_cube
        sample)
save_grid_definition_section-IsOnGrid_example =
    save_grid_definition_section-IsOnGrid whole flat exact spacing projection (mercator_cs (pos 14))
      grid_cube sample
