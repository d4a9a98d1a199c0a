-- ===== src/Save/Grid.antt =====
-- The latitude-longitude grids of _save_rules.py: grid templates 0, 1, 4 and 5.
pub mod Holds
pub mod Shape
use gribbi.Base.{
  ℕ, zero, suc, ◌+◌, ◌-◌, ◌*◌, ◌/◌, ◌%◌, ◌^◌, ◌≤◌, ◌<◌, String, ◌≡◌, refl, sym, ap, ◌∙◌, subst, ◌≢◌,
  ◌↔◌, ◌⊎◌, inl, inr, Bool, true, false, not, ◌&&◌, ◌||◌, Option, none, some, List, [], ◌∷◌, ◌++◌,
  map, append-nil, append_assoc, arith, ltb, leb, ◌==◌, if◌then◌else◌, ltb→lt, lt→ltb, leb→le,
  ==_iff, Bool-cases, Option-cases, length, get_elem?, set, get_or, take, drop, replicate,
  length-append, length-set, get_elem?-set_self, get_elem?-set_ne, length-replicate, Eq, ◌===◌,
  contains, nat_eq, string_eq, option_eq, pair_eq, Error, translation_error, value_error, key_error,
  type_error, index_error, attribute_error, assertion_error, name_error, zero_division_error,
  codes_error, Result, ok, err, Result-cases, ◌>>=◌, ◌>>◌, guard, is_ok, >>=-eq-ok, Returns,
  Returns-bind,
}
use gribbi.Base.Int.{
  ℤ, pos, negsuc, pos_part, neg_part, sub_ℕ, ◌+ℤ◌, ◌-ℤ◌, ◌*ℤ◌, ltb_ℤ, beq_ℤ, beq_ℤ_iff, int_eq,
  bit_set,
}
use gribbi.Base.Dict.{
  Dict, keys, lookup, insert, lookup-insert, lookup-insert_self, AllValues, AllValues-lookup,
}
use gribbi.Value.{Value, missing, int, real, string, ints, reals, masked, is_nat}
use gribbi.Externals.{Externals}
use gribbi.Load.Grid.Points.{Geometry}
use gribbi.Load.Flags.{scanning_mode_flags}
use gribbi.Save.Shape.{Keys, Figure, shape_of_the_earth}
use gribbi.Save.Cube.{Encoding, first_of}
use gribbi.Save.Times.{put}

-- The two coordinates of a grid, the ellipsoid of their coordinate system, and cube.name().
pub record GridCoord (F : Type 0) : Type 0 where
  pub points : List F
  pub units : String

pub record GridCube (F : Type 0) : Type 0 where
  pub x_coord : GridCoord F
  pub y_coord : GridCoord F
  pub figure : Option (Figure F)
  pub name : String

-- The attributes of a RotatedGeogCS.
pub record RotatedPole (F : Type 0) : Type 0 where
  pub grid_north_pole_latitude : F
  pub grid_north_pole_longitude : F
  pub north_pole_grid_longitude : F

-- iris.util.regular_step(coord), which raises for irregular points, abs(a) and `a > 0`.
pub record Spacing (F : Type 0) : Type 0 where
  pub regular_step : List F → Result F
  pub absolute : F → F
  pub is_positive : F → Bool

-- `items[-1]`
abbrev pub last_of : {A : Type 0} → List A → Result A
last_of [] = err index_error
last_of (a ∷ []) = ok a
last_of (a ∷ b ∷ rest) = last_of (b ∷ rest)

abbrev grid_winds : List String
grid_winds = "x_wind" ∷ "y_wind" ∷ "grid_eastward_wind" ∷ "grid_northward_wind" ∷ []

module _ {F : Type 0} where
  -- The numbers of points. The Ni and the Nj of a grid.
  unfoldable pub grid_dims : GridCube F → Keys F → Keys F
  grid_dims cube grib =
      put "Nj" (pos (length cube.y_coord.points)) (put "Ni" (pos (length cube.x_coord.points)) grib)

module _ {F : Type 0} (x : Externals F) (g : Geometry F) (e : Encoding F) (s : Spacing F) where
  -- `int(a * 1000000)`
  abbrev microdegrees : F → Result ℤ
  microdegrees a = e.truncate (x.mul a (x.of_int (pos 1000000)))

  abbrev modulo_360 : F → F
  modulo_360 a = g.modulo a (x.of_int (pos 360))

  unfoldable pub latlon_first_last : GridCube F → Keys F → Result (Keys F)
  latlon_first_last cube grib = do
    first_y ← first_of cube.y_coord.points
    lat_0 ← microdegrees first_y
    last_y ← last_of cube.y_coord.points
    lat_1 ← microdegrees last_y
    first_x ← first_of cube.x_coord.points
    lon_0 ← microdegrees (modulo_360 first_x)
    last_x ← last_of cube.x_coord.points
    lon_1 ← microdegrees (modulo_360 last_x)
    ok (
        put "longitudeOfLastGridPoint" lon_1 (
          put "longitudeOfFirstGridPoint" lon_0
            (put "latitudeOfLastGridPoint" lat_1 (put "latitudeOfFirstGridPoint" lat_0 grib))))

  -- `round(1e6 * float(abs(step)))`
  abbrev increment : F → Result ℤ
  increment step = e.round (x.mul (g.literal "1e6") (s.absolute step))

  unfoldable pub dx_dy : GridCube F → Keys F → Result (Keys F)
  dx_dy cube grib = do
    x_step ← s.regular_step cube.x_coord.points
    y_step ← s.regular_step cube.y_coord.points
    guard (e.same_unit cube.x_coord.units "degrees") value_error
    i ← increment x_step
    guard (e.same_unit cube.y_coord.units "degrees") value_error
    j ← increment y_step
    ok (put "jDirectionIncrement" j (put "iDirectionIncrement" i grib))

  -- With xy=False.
  unfoldable pub horizontal_grid_common : GridCube F → Keys F → Result (Keys F)
  horizontal_grid_common cube grib = do
    shaped ← shape_of_the_earth e cube.figure grib
    flags ← scanning_mode_flags x s.is_positive cube.x_coord.points cube.y_coord.points
    ok (put "scanningMode" (pos flags) (grid_dims cube shaped))

  unfoldable pub latlon_points_regular : GridCube F → Keys F → Result (Keys F)
  latlon_points_regular cube grib = do ended ← latlon_first_last cube grib; dx_dy cube ended

  -- np.round of each point in microdegrees
  unfoldable pub rounded_points : List F → Result (List (Option ℤ))
  rounded_points [] = ok []
  rounded_points (a ∷ rest) = do
    n ← e.round (x.div a (g.literal "1.0e-6"))
    more ← rounded_points rest
    ok (some n ∷ more)

  unfoldable pub latlon_points_irregular : GridCube F → Keys F → Result (Keys F)
  latlon_points_irregular cube grib = do
    let component_flags = if contains grid_winds cube.name then 8 else 0
    longitudes ← rounded_points cube.x_coord.points
    latitudes ← rounded_points cube.y_coord.points
    ok (
        insert "latitude" (ints latitudes) (
          insert "longitude" (ints longitudes)
            (put "resolutionAndComponentFlags" (pos component_flags) grib)))

  unfoldable pub rotated_pole : RotatedPole F → Keys F → Result (Keys F)
  rotated_pole cs grib = do
    guard (e.equal cs.north_pole_grid_longitude (g.literal "0.0")) translation_error
    latitude ← e.round (x.div cs.grid_north_pole_latitude (g.literal "1.0e-6"))
    longitude ← e.round (
        x.div (modulo_360 (x.add cs.grid_north_pole_longitude (x.of_int (pos 180))))
          (g.literal "1.0e-6"))
    ok (
        put "angleOfRotation" (pos 0) (
          put "longitudeOfSouthernPole" longitude
            (put "latitudeOfSouthernPole" (pos 0 -ℤ latitude) grib)))

  abbrev pub numbered_grid : ℕ → Keys F → Keys F
  numbered_grid template grib = put "gridDefinitionTemplateNumber" (pos template) grib

  unfoldable pub save_grid_0 : GridCube F → Keys F → Result (Keys F)
  save_grid_0 cube grib = do
    common ← horizontal_grid_common cube (numbered_grid 0 grib)
    latlon_points_regular cube common

  unfoldable pub save_grid_1 : RotatedPole F → GridCube F → Keys F → Result (Keys F)
  save_grid_1 cs cube grib = do
    poled ← rotated_pole cs (numbered_grid 1 grib)
    common ← horizontal_grid_common cube poled
    latlon_points_regular cube common

  unfoldable pub save_grid_4 : GridCube F → Keys F → Result (Keys F)
  save_grid_4 cube grib = do
    common ← horizontal_grid_common cube (numbered_grid 4 grib)
    latlon_points_irregular cube common

  unfoldable pub save_grid_5 : RotatedPole F → GridCube F → Keys F → Result (Keys F)
  save_grid_5 cs cube grib = do
    poled ← rotated_pole cs (numbered_grid 5 (put "Nj" (pos 1) (put "Ni" (pos 1) grib)))
    common ← horizontal_grid_common cube poled
    latlon_points_irregular cube common
