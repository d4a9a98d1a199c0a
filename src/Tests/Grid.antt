-- ===== src/Tests/Grid.antt =====
-- The translation of a grid.
use gribbi.Base.{◌≡◌, refl, some, List, [], ◌∷◌, map, nat_eq, string_eq, option_eq, pair_eq, Result}
use gribbi.Base.Int.{ℤ, pos, ◌+ℤ◌, ◌-ℤ◌, ◌*ℤ◌, int_eq}
use gribbi.Base.Dict.{lookup}
use gribbi.Value.{Value, reals}
use gribbi.Metadata.{Metadata}
use gribbi.Message.Data.{data_shape, is_reduced, get_shape}
use gribbi.Load.Convert.{empty_metadata}
use gribbi.Load.Grid.{grid_definition_section, apply_grid_template}
use gribbi.Load.Grid.LatLon.{
  grid_definition_template_0, grid_definition_template_0_and_1, longitude_points, latitude_points,
}
use gribbi.Load.Grid.Points.{get_increment, degrees_points, count_from, add_grid}
use gribbi.Load.Grid.Agrees.{Agrees, grid_definition_section-Agrees}
use gribbi.Tests.{whole, flat, lat_lon_grid, number, result_or}

abbrev gridded : Result (Metadata ℤ)
gridded = grid_definition_section whole flat lat_lon_grid empty_metadata

-- Where the points are.
first_points : List (Value ℤ)
first_points =
    map (λ (coord, dim). coord.points) (result_or empty_metadata gridded).dim_coords_and_dims

first_points_test :
    first_points
    ≡ reals (some (pos 40) ∷ some (pos 45) ∷ [])
      ∷ reals (some (pos 2) ∷ some (pos 7) ∷ some (pos 12) ∷ [])
      ∷ []
unfolding first_points lookup grid_definition_section apply_grid_template grid_definition_template_0
    gribbi.Load.Ellipsoid.earth gribbi.Load.Ellipsoid.ellipsoid_geometry gribbi.Load.Scaling.unscale
    gribbi.Load.Ellipsoid.ellipsoid grid_definition_template_0_and_1 is_reduced
    gribbi.Load.Flags.scanning_mode longitude_points get_increment gribbi.Externals.as_float
    gribbi.Load.Flags.resolution_flags latitude_points add_grid degrees_points count_from ◌*ℤ◌ ◌+ℤ◌
    ◌-ℤ◌
first_points_test = refl

grid_definition_section-Agrees_example :
    Agrees (number 2 ∷ number 3 ∷ []) empty_metadata (result_or empty_metadata gridded)
unfolding data_shape get_shape lookup grid_definition_section apply_grid_template
    grid_definition_template_0 gribbi.Load.Ellipsoid.earth gribbi.Load.Ellipsoid.ellipsoid_geometry
    gribbi.Load.Scaling.unscale gribbi.Load.Ellipsoid.ellipsoid grid_definition_template_0_and_1
    is_reduced gribbi.Load.Flags.scanning_mode longitude_points get_increment
    gribbi.Externals.as_float gribbi.Load.Flags.resolution_flags latitude_points
grid_definition_section-Agrees_example =
    grid_definition_section-Agrees whole flat lat_lon_grid 0 64 (number 2 ∷ number 3 ∷ [])
      empty_metadata (result_or empty_metadata gridded) refl refl refl refl refl
