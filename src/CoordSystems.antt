-- ===== src/CoordSystems.antt =====
-- iris.coord_systems: the classes that the program makes objects of, by the arguments of their
-- constructors. The flattening of an ellipsoid is kept as it is written.
use gribbi.Base.{String, Option, nat_eq, string_eq, option_eq, pair_eq}
use gribbi.Value.{Value}

pub record GeogCs (F : Type 0) : Type 0 where
  pub semi_major_axis : Value F
  pub semi_minor_axis : Option (Value F)
  pub inverse_flattening : Option String

pub data CoordSystem (F : Type 0) : Type 0 where
  -- a GeogCS is a coordinate system itself
  geog : GeogCs F → CoordSystem F
  -- RotatedGeogCS(grid_north_pole_latitude, grid_north_pole_longitude, north_pole_grid_longitude,
  -- ellipsoid)
  rotated_geog : F → F → Value F → GeogCs F → CoordSystem F
  -- Mercator(standard_parallel, ellipsoid)
  mercator : F → GeogCs F → CoordSystem F
  -- TransverseMercator(latitude, longitude, false_easting, false_northing, scale_factor, ellipsoid)
  transverse_mercator : F → F → F → F → Value F → GeogCs F → CoordSystem F
  -- PolarStereographic(central_lat, central_lon, true_scale_lat, ellipsoid)
  polar_stereographic : F → F → F → GeogCs F → CoordSystem F
  -- LambertConformal(central_lat, central_lon, 0, 0, secant_latitudes, ellipsoid)
  lambert_conformal : F → F → F × F → GeogCs F → CoordSystem F
  -- Geostationary(latitude, longitude, perspective_point_height, sweep_angle_axis, ellipsoid)
  geostationary : F → F → F → String → GeogCs F → CoordSystem F
  -- LambertAzimuthalEqualArea(latitude, longitude, 0, 0, ellipsoid)
  lambert_azimuthal_equal_area : F → F → GeogCs F → CoordSystem F
