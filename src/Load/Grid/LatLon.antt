-- ===== src/Load/Grid/LatLon.antt =====
-- Grid templates 0, 1, 4 and 5 of _load_convert.py: latitudes and longitudes, also of a rotated pole.
use mathlib.Core.Option
use gribbi.Base.{
  String, Bool, false, not, ◌||◌, Option, none, some, List, [], ◌∷◌, map, if◌then◌else◌, nat_eq,
  string_eq, option_eq, pair_eq, translation_error, type_error, Result, ok, err, ◌>>=◌, ◌>>◌, guard,
}
use gribbi.Base.Int.{pos, int_eq}
use gribbi.Value.{Value, ints, reals, is_nat}
use gribbi.Value.{Reader, get_int}
use gribbi.Externals.{Externals, as_float}
use gribbi.CoordSystems.{CoordSystem, geog, rotated_geog}
use gribbi.Metadata.{Metadata}
use gribbi.Message.Data.{is_reduced}
use gribbi.Load.Flags.{scanning_mode, resolution_flags}
use gribbi.Load.Ellipsoid.{ellipsoid, ellipsoid_geometry, earth}
use gribbi.Load.Scaling.{is_missing}
use gribbi.Load.Grid.Points.{
  Geometry, direction, array, grid_coord, add_grid, grid_accuracy, get_times, get_increment,
  degrees_points,
}

-- The elements of an array without a mask.
abbrev present : {F : Type 0} → List (Option F) → List F
present [] = []
present (none ∷ items) = present items
present (some a ∷ items) = a ∷ present items

module _ {F : Type 0} (x : Externals F) (g : Geometry F) where
  -- The points of the two axes of templates 0 and 1, and of the first axis of template 40.
  unfoldable pub longitude_points : Reader F → Bool → Bool → Result (List F)
  longitude_points section i_increments_given i_negative = do
    increment ←
        get_increment x g section i_increments_given "iDirectionIncrement"
          "longitudeOfFirstGridPoint" "longitudeOfLastGridPoint" "Ni"
          (x.div (g.literal "360.0") (grid_accuracy x g))
    offset ← get_times x g section "longitudeOfFirstGridPoint" (grid_accuracy x g)
    ni ← get_int section "Ni"
    ok (degrees_points x g ni increment (direction i_negative) offset)

  unfoldable pub latitude_points : Reader F → Bool → Bool → Result (List F)
  latitude_points section j_increments_given j_positive = do
    increment ←
        get_increment x g section j_increments_given "jDirectionIncrement"
          "latitudeOfFirstGridPoint" "latitudeOfLastGridPoint" "Nj" g.infinity
    offset ← get_times x g section "latitudeOfFirstGridPoint" (grid_accuracy x g)
    nj ← get_int section "Nj"
    ok (degrees_points x g nj increment (direction (not j_positive)) offset)

  unfoldable pub grid_definition_template_0_and_1 :
      String → String → CoordSystem F → Reader F → Metadata F → Result (Metadata F)
  grid_definition_template_0_and_1 y_name x_name cs section m = do
    reduced ← is_reduced section
    guard (not reduced) translation_error
    mode ← get_int section "scanningMode"
    scan ← scanning_mode mode
    flags ← get_int section "resolutionAndComponentFlags"
    let res_flags = resolution_flags flags
    x_points ← longitude_points section res_flags.i_increments_given scan.i_negative
    let circular = g.is_circular x_points (g.literal "360.0")
    y_points ← latitude_points section res_flags.j_increments_given scan.j_positive
    ok (
        add_grid scan.j_consecutive (grid_coord (array y_points) y_name "degrees" cs false)
          (grid_coord (array x_points) x_name "degrees" cs circular) m)

  -- The coordinate system of a rotated pole. Its ellipsoid is determined after the pole.
  unfoldable pub rotated_pole_of : Reader F → Result (CoordSystem F)
  rotated_pole_of section = do
    (major, (minor, radius)) ← ellipsoid_geometry x section
    south_pole_lat ← get_times x g section "latitudeOfSouthernPole" (grid_accuracy x g)
    south_pole_lon ← get_times x g section "longitudeOfSouthernPole" (grid_accuracy x g)
    angle ← section.get "angleOfRotation"
    shape ← section.get "shapeOfTheEarth"
    figure ← ellipsoid x shape major minor radius
    ok (
        rotated_geog (g.negate south_pole_lat)
          (g.fmod (x.add south_pole_lon (x.of_int (pos 180))) (x.of_int (pos 360))) angle figure)

  unfoldable pub grid_definition_template_0 : Reader F → Metadata F → Result (Metadata F)
  grid_definition_template_0 section m = do
    cs ← earth x section
    grid_definition_template_0_and_1 "latitude" "longitude" (geog cs) section m

  unfoldable pub grid_definition_template_1 : Reader F → Metadata F → Result (Metadata F)
  grid_definition_template_1 section m = do
    cs ← rotated_pole_of section
    grid_definition_template_0_and_1 "grid_latitude" "grid_longitude" cs section m

  -- `value in [0, None]`, with what then takes its place.
  abbrev or_default : F → Value F → Result F
  or_default default value =
      if is_missing value || is_nat value 0 then ok default else as_float x value

  -- `np.array(values) * resolution`
  abbrev scaled_array : F → Value F → Result (List (Option F))
  scaled_array resolution (ints items) =
      ok (map (Option.map (λ n. x.mul (x.of_int n) resolution)) items)
  scaled_array resolution (reals items) = ok (map (Option.map (λ a. x.mul a resolution)) items)
  scaled_array resolution v = err type_error

  unfoldable pub grid_definition_template_4_and_5 :
      String → String → CoordSystem F → Reader F → Metadata F → Result (Metadata F)
  grid_definition_template_4_and_5 y_name x_name cs section m = do
    basic_angle ← section.get "basicAngleOfTheInitialProductionDomain"
    subdivisions ← section.get "subdivisionsOfBasicAngle"
    angle ← or_default (g.literal "1.0") basic_angle
    parts ← or_default (x.div (g.literal "1.0") (grid_accuracy x g)) subdivisions
    flags ← get_int section "resolutionAndComponentFlags"
    longitudes ← section.get "longitudes"
    x_points ← scaled_array (x.div angle parts) longitudes
    latitudes ← section.get "latitudes"
    y_points ← scaled_array (x.div angle parts) latitudes
    mode ← get_int section "scanningMode"
    scan ← scanning_mode mode
    ok (
        add_grid scan.j_consecutive (grid_coord (reals y_points) y_name "degrees" cs false)
          (grid_coord (reals x_points) x_name "degrees" cs
            (g.is_circular (present x_points) (g.literal "360.0")))
          m)

  unfoldable pub grid_definition_template_4 : Reader F → Metadata F → Result (Metadata F)
  grid_definition_template_4 section m = do
    cs ← earth x section
    grid_definition_template_4_and_5 "latitude" "longitude" (geog cs) section m

  unfoldable pub grid_definition_template_5 : Reader F → Metadata F → Result (Metadata F)
  grid_definition_template_5 section m = do
    cs ← rotated_pole_of section
    grid_definition_template_4_and_5 "grid_latitude" "grid_longitude" cs section m
