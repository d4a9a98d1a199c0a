-- ===== src/Save/Sections.antt =====
-- `grid_definition_section`, `gribbability_check` and `run` of _save_rules.py, with grid templates 20,
-- 30 and 140.
pub mod Template
pub mod Loadable
use gribbi.Base.{
  ℕ, zero, suc, ◌+◌, ◌-◌, ◌*◌, ◌/◌, ◌%◌, ◌^◌, ◌≤◌, ◌<◌, String, ◌≡◌, refl, sym, ap, ◌∙◌, subst, ◌≢◌,
  ◌↔◌, ◌⊎◌, inl, inr, Bool, true, false, not, ◌&&◌, ◌||◌, Option, none, some, List, [], ◌∷◌, ◌++◌,
  map, append-nil, append_assoc, arith, ltb, leb, ◌==◌, if◌then◌else◌, ltb→lt, lt→ltb, leb→le,
  ==_iff, Bool-cases, Option-cases, length, get_elem?, set, get_or, take, drop, replicate,
  length-append, length-set, get_elem?-set_self, get_elem?-set_ne, length-replicate, Eq, ◌===◌,
  contains, nat_eq, string_eq, option_eq, pair_eq, Error, translation_error, value_error, key_error,
  type_error, index_error, attribute_error, assertion_error, name_error, zero_division_error,
  codes_error, Result, ok, err, Result-cases, ◌>>=◌, ◌>>◌, guard, is_ok, >>=-eq-ok, Returns,
  Returns-bind,
}
use gribbi.Base.Int.{
  ℤ, pos, negsuc, pos_part, neg_part, sub_ℕ, ◌+ℤ◌, ◌-ℤ◌, ◌*ℤ◌, ltb_ℤ, beq_ℤ, beq_ℤ_iff, int_eq,
  bit_set,
}
use gribbi.Base.Dict.{
  Dict, keys, lookup, insert, lookup-insert, lookup-insert_self, AllValues, AllValues-lookup,
}
use gribbi.Value.{Value, missing, int, real, string, ints, reals, masked, is_nat}
use gribbi.Externals.{Externals}
use gribbi.Phenom.{CfGrib2Key, CfGrib2Data}
use gribbi.Load.Grid.Points.{Geometry}
use gribbi.Save.Shape.{Keys}
use gribbi.Save.Cube.{Cube, FullCube, Encoding, has_coord}
use gribbi.Save.Times.{put}
use gribbi.Save.Data.{CubeData, ArrayType, identification, data_section}
use gribbi.Save.Product.{save_product_definition_section}
use gribbi.Save.Grid.{
  GridCube, Spacing, RotatedPole, numbered_grid, save_grid_0, save_grid_1, save_grid_4, save_grid_5,
}
use gribbi.Save.Projected.{
  Projection, TransverseCs, PerspectiveCs, StereographicCs, LambertCs, put_steps, put_first,
  put_micro, wrap, in_unit, grid_winds_flag, horizontal_grid_common_xy,
  perspective_projection_common, save_grid_10, save_grid_12,
}

-- The attributes of a LambertAzimuthalEqualArea.
pub record AzimuthalCs (F : Type 0) : Type 0 where
  pub latitude_of_projection_origin : F
  pub longitude_of_projection_origin : F
  pub false_easting : F
  pub false_northing : F

-- The coordinate system of a grid, by its class.
pub data GridCs (F : Type 0) : Type 0 where
  geog_cs : GridCs F
  rotated_cs : RotatedPole F → GridCs F
  mercator_cs : F → GridCs F
  transverse_cs : TransverseCs F → GridCs F
  stereographic_cs : StereographicCs F → GridCs F
  lambert_cs : LambertCs F → GridCs F
  azimuthal_cs : AzimuthalCs F → GridCs F
  other_cs : GridCs F

module _ {F : Type 0} (x : Externals F) (g : Geometry F) (e : Encoding F) (s : Spacing F)
    (p : Projection F) where
  -- `a and test(a)`, where zero is false.
  unfoldable pub given_and : (F → Bool) → Option F → Bool
  given_and test none = false
  given_and test (some a) = not (e.equal a (x.of_int (pos 0))) && test a

  -- The flag of the pole.
  unfoldable pub centre_flag : F → Result ℕ
  centre_flag central_lat =
      if p.is_close central_lat (g.negate (g.literal "90.0"))
      then ok 128
      else if p.is_close central_lat (g.literal "90.0")
      then ok 0
      else err translation_error

  unfoldable pub save_grid_20 : StereographicCs F → GridCube F → Keys F → Result (Keys F)
  save_grid_20 cs cube grib = do
    common ←
        perspective_projection_common x g e s p cs.perspective cube (numbered_grid x g e s 20 grib)
    flag ← centre_flag cs.perspective.central_lat
    guard (not (given_and (λ a. not (e.equal a cs.perspective.central_lat)) cs.true_scale_lat))
        translation_error
    guard
        (not (
          given_and (λ a. not (p.is_close a (g.literal "1.0")))
            cs.scale_factor_at_projection_origin))
        translation_error
    ok (put "projectionCentreFlag" (pos flag) common)

  -- The parallel that is closest to a pole.
  abbrev poliest_secant : F → F → F
  poliest_secant latin1 latin2 =
      if s.is_positive (x.sub (s.absolute latin1) (s.absolute latin2)) then latin1 else latin2

  unfoldable pub save_grid_30 : LambertCs F → GridCube F → Keys F → Result (Keys F)
  save_grid_30 cs cube grib = do
    common ←
        perspective_projection_common x g e s p cs.perspective cube (numbered_grid x g e s 30 grib)
    let (latin1, latin2) = cs.secant_latitudes
    let flag = if s.is_positive (poliest_secant latin1 latin2) then 0 else 128
    let secant = put_micro x g e s p "Latin2" latin2 (put_micro x g e s p "Latin1" latin1 common)
    ok (
        put "longitudeOfSouthernPole" (pos 0)
          (put "latitudeOfSouthernPole" (pos 0) (put "projectionCentreFlag" (pos flag) secant)))

  unfoldable pub save_grid_140 : AzimuthalCs F → GridCube F → Keys F → Result (Keys F)
  save_grid_140 cs cube grib = do
    y_mm ← in_unit x g e s p cube.y_coord "mm"
    x_mm ← in_unit x g e s p cube.x_coord "mm"
    stepped ← put_steps x g e s p "Dx" "Dy" x_mm y_mm (numbered_grid x g e s 140 grib)
    common ← horizontal_grid_common_xy x g e s p cube stepped
    first ← put_first x g e s p cube common
    let centred =
        put_micro x g e s p "centralLongitudeInMicrodegrees"
          (wrap x g e s p cs.longitude_of_projection_origin)
          (put_micro x g e s p "standardParallelInMicrodegrees" cs.latitude_of_projection_origin
            first)
    guard (p.is_zero_within_1e6 cs.false_easting && p.is_zero_within_1e6 cs.false_northing)
        translation_error
    ok (grid_winds_flag x g e s p centred)

  -- `is_regular(x_coord) and is_regular(y_coord)`: whether regular_step does not raise.
  abbrev pub is_regular_grid : GridCube F → Bool
  is_regular_grid cube =
      is_ok (s.regular_step cube.x_coord.points) && is_ok (s.regular_step cube.y_coord.points)

  unfoldable pub save_grid_definition_section : GridCs F → GridCube F → Keys F → Result (Keys F)
  save_grid_definition_section geog_cs cube grib =
      if is_regular_grid cube then save_grid_0 x g e s cube grib else save_grid_4 x g e s cube grib
  save_grid_definition_section (rotated_cs cs) cube grib =
      if is_regular_grid cube
      then save_grid_1 x g e s cs cube grib
      else save_grid_5 x g e s cs cube grib
  save_grid_definition_section (mercator_cs standard_parallel) cube grib =
      save_grid_10 x g e s p standard_parallel cube grib
  save_grid_definition_section (transverse_cs cs) cube grib = save_grid_12 x g e s p cs cube grib
  save_grid_definition_section (stereographic_cs cs) cube grib = save_grid_20 cs cube grib
  save_grid_definition_section (lambert_cs cs) cube grib = save_grid_30 cs cube grib
  save_grid_definition_section (azimuthal_cs cs) cube grib = save_grid_140 cs cube grib
  save_grid_definition_section other_cs cube grib = err value_error

  -- Whether both coordinates have a coordinate system and it is the same.
  unfoldable pub gribbability_check : Bool → Bool → Cube F → Result (Unit {0})
  gribbability_check has_coord_systems same_coord_system cube = do
    guard has_coord_systems translation_error
    guard same_coord_system translation_error
    guard (has_coord cube "time") translation_error

  unfoldable pub run :
      ArrayType F
      → Dict CfGrib2Key CfGrib2Data
      → Bool
      → Bool
      → GridCs F
      → Cube F
      → GridCube F
      → String
      → CubeData F
      → Option (FullCube F)
      → Keys F
      → Result (Keys F)
  run m table has_coord_systems same_coord_system cs cube grid units cube_data full grib = do
    gribbability_check has_coord_systems same_coord_system cube
    identified ← identification x e cube grib
    gridded ← save_grid_definition_section cs grid identified
    produced ← save_product_definition_section x e table cube full gridded
    data_section x e m table cube units cube_data produced
