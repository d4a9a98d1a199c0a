-- ===== src/Save/Projected.antt =====
-- The projected grids of _save_rules.py: grid templates 10, 12, 20, 30 and 140.
use gribbi.Base.{
  ◌+◌, String, Bool, ◌&&◌, Option, List, [], ◌∷◌, length, nat_eq, string_eq, option_eq, pair_eq,
  translation_error, Result, ok, ◌>>=◌, ◌>>◌, guard,
}
use gribbi.Base.Int.{ℤ, pos, pos_part, neg_part, ◌-ℤ◌, int_eq}
use gribbi.Base.Dict.{insert}
use gribbi.Value.{real}
use gribbi.Externals.{Externals}
use gribbi.Load.Grid.Points.{Geometry}
use gribbi.Save.Shape.{Keys, shape_of_the_earth}
use gribbi.Save.Cube.{Encoding, first_of}
use gribbi.Save.Times.{put}
use gribbi.Save.Grid.{GridCoord, GridCube, Spacing, horizontal_grid_common, numbered_grid, last_of}
use gribbi.Load.Flags.{scanning_mode_flags}

-- Of a grid: the transformation of a point of its coordinate system to degrees by cartopy; for the
-- differences of whole numbers, numpy's mean, cut to a whole number, and its allclose; and isclose.
pub record Projection (F : Type 0) : Type 0 where
  pub to_geographic : F → F → F × F
  pub mean : List ℤ → Result ℤ
  pub all_close : List ℤ → ℤ → Bool
  pub is_close : F → F → Bool
  pub is_zero_within_1e6 : F → Bool

-- The attributes of the coordinate systems that are written.
pub record TransverseCs (F : Type 0) : Type 0 where
  pub latitude_of_projection_origin : F
  pub longitude_of_central_meridian : F
  pub false_easting : F
  pub false_northing : F
  pub scale_factor_at_central_meridian : F

pub record PerspectiveCs (F : Type 0) : Type 0 where
  pub central_lat : F
  pub central_lon : F
  pub false_easting : F
  pub false_northing : F

pub record StereographicCs (F : Type 0) : Type 0 where
  pub perspective : PerspectiveCs F
  pub true_scale_lat : Option F
  pub scale_factor_at_projection_origin : Option F

pub record LambertCs (F : Type 0) : Type 0 where
  pub perspective : PerspectiveCs F
  pub secant_latitudes : F × F

-- points[1:] - points[:-1]
unfoldable pub differences : List ℤ → List ℤ
differences [] = []
differences (a ∷ []) = []
differences (a ∷ b ∷ rest) = (b -ℤ a) ∷ differences (b ∷ rest)

-- abs(n)
abbrev absolute_ℤ : ℤ → ℤ
absolute_ℤ n = pos (pos_part n + neg_part n)

module _ {F : Type 0} (x : Externals F) (g : Geometry F) (e : Encoding F) (s : Spacing F)
    (p : Projection F) where
  -- A coordinate in another unit, rounded.
  unfoldable pub points_in_unit : String → String → List F → Result (List ℤ)
  points_in_unit units target [] = ok []
  points_in_unit units target (a ∷ rest) = do
    b ← x.convert units a target
    n ← e.round b
    more ← points_in_unit units target rest
    ok (n ∷ more)

  -- The callers turn the ValueError for an irregular coordinate into a TranslationError.
  unfoldable pub step : List ℤ → Result ℤ
  step points = do
    mean_diff ← p.mean (differences points)
    guard (p.all_close (differences points) mean_diff) translation_error
    ok mean_diff

  -- The two lengths of a grid, in whole units.
  unfoldable pub put_steps : String → String → List ℤ → List ℤ → Keys F → Result (Keys F)
  put_steps x_key y_key xs ys grib = do
    x_step ← step xs
    y_step ← step ys
    ok (put y_key (absolute_ℤ y_step) (put x_key (absolute_ℤ x_step) grib))

  -- With xy=True.
  unfoldable pub horizontal_grid_common_xy : GridCube F → Keys F → Result (Keys F)
  horizontal_grid_common_xy cube grib = do
    shaped ← shape_of_the_earth e cube.figure grib
    flags ← scanning_mode_flags x s.is_positive cube.x_coord.points cube.y_coord.points
    ok (
        put "scanningMode" (pos flags) (
          put "Ny" (pos (length cube.y_coord.points))
            (put "Nx" (pos (length cube.x_coord.points)) shaped)))

  -- `int(np.round(a / 1.0e-6))`, and `a / 1.0e-6`
  abbrev micro : F → Result ℤ
  micro a = e.round (x.div a (g.literal "1.0e-6"))

  abbrev pub put_micro : String → F → Keys F → Keys F
  put_micro key a grib = insert key (real (x.div a (g.literal "1.0e-6"))) grib

  abbrev pub wrap : F → F
  wrap a = g.modulo a (x.of_int (pos 360))

  -- The place of a point, under two keys.
  unfoldable pub put_place : String → String → F → F → Keys F → Result (Keys F)
  put_place lat_key lon_key point_x point_y grib = do
    let place = p.to_geographic point_x point_y
    lat ← micro place.1
    lon ← micro (wrap place.0)
    ok (put lon_key lon (put lat_key lat grib))

  unfoldable pub put_first : GridCube F → Keys F → Result (Keys F)
  put_first cube grib = do
    first_x ← first_of cube.x_coord.points
    first_y ← first_of cube.y_coord.points
    put_place "latitudeOfFirstGridPoint" "longitudeOfFirstGridPoint" first_x first_y grib

  unfoldable pub put_last : GridCube F → Keys F → Result (Keys F)
  put_last cube grib = do
    last_x ← last_of cube.x_coord.points
    last_y ← last_of cube.y_coord.points
    put_place "latitudeOfLastGridPoint" "longitudeOfLastGridPoint" last_x last_y grib

  abbrev pub in_unit : GridCoord F → String → Result (List ℤ)
  in_unit coord unit = points_in_unit coord.units unit coord.points

  abbrev pub grid_winds_flag : Keys F → Keys F
  grid_winds_flag grib = put "resolutionAndComponentFlags" (pos 8) grib

  unfoldable pub save_grid_10 : F → GridCube F → Keys F → Result (Keys F)
  save_grid_10 standard_parallel cube grib = do
    y_mm ← in_unit cube.y_coord "mm"
    x_mm ← in_unit cube.x_coord "mm"
    stepped ← put_steps "Di" "Dj" x_mm y_mm (numbered_grid x g e s 10 grib)
    common ← horizontal_grid_common x g e s cube stepped
    first ← put_first cube common
    last ← put_last cube first
    ok (grid_winds_flag (put_micro "LaD" standard_parallel last))

  -- `int(round(value * 100))`
  abbrev m_to_cm : F → Result ℤ
  m_to_cm value = e.round (x.mul value (x.of_int (pos 100)))

  unfoldable pub put_extent : List ℤ → List ℤ → Keys F → Result (Keys F)
  put_extent xs ys grib = do
    y1 ← first_of ys
    y2 ← last_of ys
    x1 ← first_of xs
    x2 ← last_of xs
    ok (put "X2" x2 (put "X1" x1 (put "Y2" y2 (put "Y1" y1 grib))))

  unfoldable pub save_grid_12 : TransverseCs F → GridCube F → Keys F → Result (Keys F)
  save_grid_12 cs cube grib = do
    y_cm ← in_unit cube.y_coord "cm"
    x_cm ← in_unit cube.x_coord "cm"
    stepped ← put_steps "Di" "Dj" x_cm y_cm (numbered_grid x g e s 12 grib)
    common ← horizontal_grid_common x g e s cube stepped
    extended ← put_extent x_cm y_cm common
    let placed =
        put_micro "longitudeOfReferencePoint" cs.longitude_of_central_meridian
          (put_micro "latitudeOfReferencePoint" cs.latitude_of_projection_origin extended)
    xr ← m_to_cm cs.false_easting
    yr ← m_to_cm cs.false_northing
    ok (
        insert "scaleFactorAtReferencePoint" (real cs.scale_factor_at_central_meridian)
          (put "YR" yr (put "XR" xr placed)))

  -- `_perspective_projection_common`
  unfoldable pub perspective_projection_common :
      PerspectiveCs F → GridCube F → Keys F → Result (Keys F)
  perspective_projection_common cs cube grib = do
    guard (p.is_zero_within_1e6 cs.false_easting && p.is_zero_within_1e6 cs.false_northing)
        translation_error
    y_mm ← in_unit cube.y_coord "mm"
    x_mm ← in_unit cube.x_coord "mm"
    stepped ← put_steps "Dx" "Dy" x_mm y_mm grib
    common ← horizontal_grid_common_xy cube stepped
    first ← put_first cube (grid_winds_flag common)
    ok (put_micro "LoV" (wrap cs.central_lon) (put_micro "LaD" cs.central_lat first))
