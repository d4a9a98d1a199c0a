-- ===== src/Load/Grid/Projected.antt =====
-- Grid templates 10, 20, 30 and 140 of _load_convert.py: projections whose points are given by the
-- first one and the lengths of the grid.
use gribbi.Base.{
  ℕ, String, false, not, List, [], ◌∷◌, if◌then◌else◌, nat_eq, string_eq, option_eq, pair_eq,
  translation_error, Result, ok, err, ◌>>=◌, ◌>>◌, guard,
}
use gribbi.Base.Int.{int_eq}
use gribbi.Value.{Value, is_nat}
use gribbi.Value.{Reader, get_int, as_int, is_one_of}
use gribbi.Externals.{Externals, as_float}
use gribbi.CoordSystems.{
  CoordSystem, mercator, polar_stereographic, lambert_conformal, lambert_azimuthal_equal_area,
}
use gribbi.Metadata.{Coord, Metadata}
use gribbi.Load.Flags.{ScanningMode, scanning_mode, projection_centre}
use gribbi.Load.Ellipsoid.{ellipsoid, ellipsoid_geometry, earth}
use gribbi.Load.Grid.Points.{
  Geometry, direction, array, grid_coord, add_grid, grid_accuracy, get_times, metres_points,
}

-- _XYGRIDLENGTH_GDT_NUMBERS and _IJGRIDLENGTH_GDT_NUMBERS
abbrev xy_grid_length_gdt_numbers : List ℕ
xy_grid_length_gdt_numbers = 20 ∷ 30 ∷ 31 ∷ 110 ∷ 140 ∷ []

abbrev ij_grid_length_gdt_numbers : List ℕ
ij_grid_length_gdt_numbers = 10 ∷ []

-- The keys of dx, dy, nx and ny.
pub record LengthKeys : Type 0 where
  pub dx : String
  pub dy : String
  pub nx : String
  pub ny : String

abbrev pub length_keys : String → String → String → String → LengthKeys
length_keys dx dy nx ny = record { dx = dx; dy = dy; nx = nx; ny = ny }

unfoldable pub grid_length_keys : {F : Type 0} → Value F → Result LengthKeys
grid_length_keys template =
    if is_one_of template xy_grid_length_gdt_numbers
    then (if is_nat template 140
        then ok (
            length_keys "xDirectionGridLengthInMillimetres" "yDirectionGridLengthInMillimetres"
              "numberOfPointsAlongXAxis" "numberOfPointsAlongYAxis")
        else ok (length_keys "Dx" "Dy" "Nx" "Ny"))
    else if is_one_of template ij_grid_length_gdt_numbers
    then ok (length_keys "Di" "Dj" "Ni" "Nj")
    else err translation_error

module _ {F : Type 0} (x : Externals F) (g : Geometry F) where
  -- The coordinates of x and y, and the scanning mode.
  unfoldable pub calculate_proj_coords_from_grid_lengths :
      Reader F → CoordSystem F → Result (Coord F × (Coord F × ScanningMode))
  calculate_proj_coords_from_grid_lengths section cs = do
    template ← section.get "gridDefinitionTemplateNumber"
    names ← grid_length_keys template
    dx ← section.get names.dx
    dy ← section.get names.dy
    nx ← section.get names.nx
    ny ← section.get names.ny
    mode ← get_int section "scanningMode"
    scan ← scanning_mode mode
    lon_0 ← get_times x g section "longitudeOfFirstGridPoint" (grid_accuracy x g)
    lat_0 ← get_times x g section "latitudeOfFirstGridPoint" (grid_accuracy x g)
    let origin = g.transform_point cs lon_0 lat_0
    dx_length ← as_float x dx
    dy_length ← as_float x dy
    x_count ← as_int nx
    y_count ← as_int ny
    let mm_to_m = g.literal "1e-3"
    let x_points =
        metres_points x g x_count (x.mul dx_length mm_to_m) (direction scan.i_negative) origin.0
    let y_points =
        metres_points x g y_count (x.mul dy_length mm_to_m) (direction (not scan.j_positive))
          origin.1
    ok (
      grid_coord (array x_points) "projection_x_coordinate" "m" cs false,
      (grid_coord (array y_points) "projection_y_coordinate" "m" cs false, scan),
    )

  -- The end of the templates that use it.
  abbrev pub add_projected : Reader F → CoordSystem F → Metadata F → Result (Metadata F)
  add_projected section cs m = do
    (x_coord, (y_coord, scan)) ← calculate_proj_coords_from_grid_lengths section cs
    ok (add_grid scan.j_consecutive y_coord x_coord m)

  unfoldable pub grid_definition_template_10 : Reader F → Metadata F → Result (Metadata F)
  grid_definition_template_10 section m = do
    figure ← earth x section
    standard_parallel ← get_times x g section "LaD" (grid_accuracy x g)
    add_projected section (mercator standard_parallel figure) m

  unfoldable pub grid_definition_template_20 : Reader F → Metadata F → Result (Metadata F)
  grid_definition_template_20 section m = do
    figure ← earth x section
    flag ← get_int section "projectionCentreFlag"
    let proj_centre = projection_centre flag
    guard (not proj_centre.bipolar_and_symmetric) translation_error
    central_lon ← get_times x g section "orientationOfTheGrid" (grid_accuracy x g)
    true_scale_lat ← get_times x g section "LaD" (grid_accuracy x g)
    let central_lat =
        if proj_centre.south_pole_on_projection_plane
        then g.negate (g.literal "90.0")
        else g.literal "90.0"
    add_projected section (polar_stereographic central_lat central_lon true_scale_lat figure) m

  -- The resolution flags are read, but only warned of.
  unfoldable pub grid_definition_template_30 : Reader F → Metadata F → Result (Metadata F)
  grid_definition_template_30 section m = do
    figure ← earth x section
    central_latitude ← get_times x g section "LaD" (grid_accuracy x g)
    central_longitude ← get_times x g section "LoV" (grid_accuracy x g)
    latin_1 ← get_times x g section "Latin1" (grid_accuracy x g)
    latin_2 ← get_times x g section "Latin2" (grid_accuracy x g)
    flag ← get_int section "projectionCentreFlag"
    guard (not (projection_centre flag).bipolar_and_symmetric) translation_error
    _ ← get_int section "resolutionAndComponentFlags"
    add_projected section
        (lambert_conformal central_latitude central_longitude (latin_1, latin_2) figure) m

  unfoldable pub grid_definition_template_140 : Reader F → Metadata F → Result (Metadata F)
  grid_definition_template_140 section m = do
    (major, (minor, radius)) ← ellipsoid_geometry x section
    latitude ← get_times x g section "standardParallelInMicrodegrees" (grid_accuracy x g)
    longitude ← get_times x g section "centralLongitudeInMicrodegrees" (grid_accuracy x g)
    shape ← section.get "shapeOfTheEarth"
    figure ← ellipsoid x shape major minor radius
    add_projected section (lambert_azimuthal_equal_area latitude longitude figure) m
