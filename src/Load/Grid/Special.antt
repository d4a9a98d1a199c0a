-- ===== src/Load/Grid/Special.antt =====
-- Grid templates 12, 40 and 90 of _load_convert.py: transverse Mercator, Gaussian grids and the view
-- from space.
use gribbi.Base.{
  String, Bool, false, not, ◌&&◌, Option, some, List, [], ◌∷◌, ◌++◌, map, if◌then◌else◌, nat_eq,
  string_eq, option_eq, pair_eq, translation_error, value_error, attribute_error, Result, ok, err,
  ◌>>=◌, ◌>>◌, guard,
}
use gribbi.Base.Int.{ℤ, pos, negsuc, ◌+ℤ◌, ◌-ℤ◌, ◌*ℤ◌, ltb_ℤ, int_eq}
use gribbi.Value.{Value, reals, is_nat}
use gribbi.Value.{Reader, get_int, as_int}
use gribbi.Externals.{Externals, as_float}
use gribbi.CoordSystems.{GeogCs, CoordSystem, geog, transverse_mercator, geostationary}
use gribbi.Metadata.{Coord, Metadata}
use gribbi.Message.Data.{is_reduced}
use gribbi.Load.Flags.{scanning_mode, resolution_flags}
use gribbi.Load.Scaling.{is_missing}
use gribbi.Load.Ellipsoid.{earth}
use gribbi.Load.Grid.Points.{
  Geometry, arange, array, grid_coord, add_grid, grid_accuracy, get_float, get_times,
}
use gribbi.Load.Grid.LatLon.{longitude_points}

abbrev min : ℤ → ℤ → ℤ
min a b = if ltb_ℤ b a then b else a

abbrev max : ℤ → ℤ → ℤ
max a b = if ltb_ℤ a b then b else a

-- `check_range` of template 12.
unfoldable pub check_range : ℤ → ℤ → ℤ → ℤ → Result (Unit {0})
check_range v1 v2 n d =
    let small = min v1 v2 in
    let large = max v1 v2 in
    let min_last = small +ℤ ((n -ℤ pos 1) *ℤ (d -ℤ pos 1)) in
    let max_last = small +ℤ ((n -ℤ pos 1) *ℤ (d +ℤ pos 1)) in
    guard (ltb_ℤ min_last large && ltb_ℤ large max_last) translation_error

module _ {F : Type 0} (x : Externals F) (g : Geometry F) where
  -- numpy.linspace of whole centimetres, in metres.
  unfoldable pub centimetre_points : ℤ → ℤ → ℤ → Result (List F)
  centimetre_points first last (pos n) = ok (
      g.linspace (x.mul (x.of_int first) (g.literal "0.01"))
        (x.mul (x.of_int last) (g.literal "0.01")) n)
  centimetre_points first last (negsuc n) = err value_error

  -- An axis of template 12, whose ends were read before.
  abbrev checked_range : Reader F → Value F → Value F → String → String → Result (ℤ × (ℤ × ℤ))
  checked_range section first last count_key step_key = do
    count ← section.get count_key
    step ← section.get step_key
    v1 ← as_int first
    v2 ← as_int last
    n ← as_int count
    d ← as_int step
    check_range v1 v2 n d
    ok (v1, (v2, n))

  -- The directions of the scanning mode are only warned of.
  unfoldable pub grid_definition_template_12 : Reader F → Metadata F → Result (Metadata F)
  grid_definition_template_12 section m = do
    figure ← earth x section
    lat ← get_times x g section "latitudeOfReferencePoint" (grid_accuracy x g)
    lon ← get_times x g section "longitudeOfReferencePoint" (grid_accuracy x g)
    scale ← section.get "scaleFactorAtReferencePoint"
    easting ← get_times x g section "XR" (g.literal "0.01")
    northing ← get_times x g section "YR" (g.literal "0.01")
    let cs = transverse_mercator lat lon easting northing scale figure
    left ← section.get "X1"
    bottom ← section.get "Y1"
    right ← section.get "X2"
    top ← section.get "Y2"
    (x1, (x2, ni)) ← checked_range section left right "Ni" "Di"
    (y1, (y2, nj)) ← checked_range section bottom top "Nj" "Dj"
    mode ← get_int section "scanningMode"
    scan ← scanning_mode mode
    x_points ← centimetre_points x1 x2 ni
    y_points ← centimetre_points y1 y2 nj
    ok (
        add_grid scan.j_consecutive
          (grid_coord (array y_points) "projection_y_coordinate" "m" cs false)
          (grid_coord (array x_points) "projection_x_coordinate" "m" cs false) m)

  abbrev reverse_onto : List (Option F) → List (Option F) → List (Option F)
  reverse_onto [] done = done
  reverse_onto (a ∷ rest) done = reverse_onto rest (a ∷ done)

  -- `points.sort()`, and `points[::-1]` unless j is positive. Other objects than arrays have no
  -- such method; the latitudes are floats.
  unfoldable pub sorted_latitudes : Bool → Value F → Result (List (Option F))
  sorted_latitudes j_positive (reals points) =
      ok (if j_positive then g.sort points else reverse_onto (g.sort points) [])
  sorted_latitudes j_positive v = err attribute_error

  unfoldable pub grid_definition_template_40_regular :
      CoordSystem F → Reader F → Metadata F → Result (Metadata F)
  grid_definition_template_40_regular cs section m = do
    mode ← get_int section "scanningMode"
    scan ← scanning_mode mode
    flags ← get_int section "resolutionAndComponentFlags"
    x_points ←
        longitude_points x g section (resolution_flags flags).i_increments_given scan.i_negative
    latitudes ← section.get_computed_key "distinctLatitudes"
    y_points ← sorted_latitudes scan.j_positive latitudes
    ok (
        add_grid scan.j_consecutive (grid_coord (reals y_points) "latitude" "degrees" cs false)
          (grid_coord (array x_points) "longitude" "degrees" cs
            (g.is_circular x_points (g.literal "360.0")))
          m)

  abbrev aux_grid_coord : Value F → String → CoordSystem F → Coord F
  aux_grid_coord points name cs = record (grid_coord points name "degrees" cs false) {
    is_dim = false;
  }

  unfoldable pub grid_definition_template_40_reduced :
      CoordSystem F → Reader F → Metadata F → Result (Metadata F)
  grid_definition_template_40_reduced cs section m = do
    x_points ← section.get_computed_key "longitudes"
    y_points ← section.get_computed_key "latitudes"
    ok (record m {
      aux_coords_and_dims =
          m.aux_coords_and_dims
          ++ ((aux_grid_coord y_points "latitude" cs, some 0)
              ∷ (aux_grid_coord x_points "longitude" cs, some 0)
              ∷ []);
    })

  unfoldable pub grid_definition_template_40 : Reader F → Metadata F → Result (Metadata F)
  grid_definition_template_40 section m = do
    figure ← earth x section
    reduced ← is_reduced section
    if reduced
        then grid_definition_template_40_reduced (geog figure) section m
        else grid_definition_template_40_regular (geog figure) section m

  -- The angles that the earth subtends, of the height above its centre.
  unfoldable pub apparent_diameters : GeogCs F → F → Result (F × F)
  apparent_diameters figure height_above_centre = do
    let a = g.semi_major_axis figure
    ratio ← g.divide a height_above_centre
    half_equatorial ← g.asin ratio
    parametric_angle ← g.acos ratio
    tangent ←
        g.divide (g.semi_minor_axis figure) (x.mul height_above_centre (g.sin parametric_angle))
    let two = x.of_int (pos 2)
    ok (x.mul two half_equatorial, x.mul two (g.atan tangent))

  -- `step * (section[offset] - section[position] / 1000)`
  abbrev view_start : Reader F → F → String → String → Result F
  view_start section step offset position = do
    offset_value ← section.get offset
    p ← get_float x g section position
    o ← as_float x offset_value
    ok (x.mul step (x.sub o (x.div p (x.of_int (pos 1000)))))

  -- `start + np.arange(n) * step`
  unfoldable pub view_points : F → F → ℤ → List F
  view_points start step n = map (λ k. x.add start (x.mul (x.of_int (pos k)) step)) (arange n)

  -- The tests at the start, and the place of the satellite.
  unfoldable pub satellite_position : Reader F → Result (F × F)
  satellite_position section = do
    nr ← section.get "Nr"
    guard (not (is_missing nr)) translation_error
    guard (not (is_nat nr 0)) translation_error
    orientation ← section.get "orientationOfTheGrid"
    guard (is_nat orientation 0) translation_error
    latitude ← get_times x g section "latitudeOfSubSatellitePoint" (grid_accuracy x g)
    guard (g.equal latitude (x.of_int (pos 0))) translation_error
    longitude ← get_times x g section "longitudeOfSubSatellitePoint" (grid_accuracy x g)
    ok (latitude, longitude)

  unfoldable pub grid_definition_template_90 : Reader F → Metadata F → Result (Metadata F)
  grid_definition_template_90 section m = do
    (latitude, longitude) ← satellite_position section
    figure ← earth x section
    nr ← get_float x g section "Nr"
    let a = g.semi_major_axis figure
    let height_above_centre = x.div (x.mul a nr) (g.literal "1e6")
    (x_diameter, y_diameter) ← apparent_diameters figure height_above_centre
    dy ← get_float x g section "dy"
    y_step ← g.divide y_diameter dy
    dx ← get_float x g section "dx"
    x_step ← g.divide x_diameter dx
    y_start ← view_start section y_step "Yo" "Yp"
    x_start ← view_start section x_step "Xo" "Xp"
    ny ← get_int section "Ny"
    nx ← get_int section "Nx"
    let y_points = view_points y_start y_step ny
    let x_points = view_points x_start x_step nx
    mode ← get_int section "scanningMode"
    scan ← scanning_mode mode
    guard scan.i_negative translation_error
    guard scan.j_positive translation_error
    let cs = geostationary latitude longitude (x.sub height_above_centre a) "y" figure
    ok (
        add_grid scan.j_consecutive
          (grid_coord (array y_points) "projection_y_coordinate" "radians" cs false)
          (grid_coord (array (map g.negate x_points)) "projection_x_coordinate" "radians" cs false)
          m)
