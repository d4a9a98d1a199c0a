-- ===== src/Save/Surfaces.antt =====
-- `set_fixed_surfaces` of _save_rules.py: the vertical coordinate of a cube.
pub mod Written
pub mod RoundTrip
pub mod Levels
use gribbi.Base.{
  ℕ, zero, suc, ◌+◌, ◌-◌, ◌*◌, ◌/◌, ◌%◌, ◌^◌, ◌≤◌, ◌<◌, String, ◌≡◌, refl, sym, ap, ◌∙◌, subst, ◌≢◌,
  ◌↔◌, ◌⊎◌, inl, inr, Bool, true, false, not, ◌&&◌, ◌||◌, Option, none, some, List, [], ◌∷◌, ◌++◌,
  map, append-nil, append_assoc, arith, ltb, leb, ◌==◌, if◌then◌else◌, ltb→lt, lt→ltb, leb→le,
  ==_iff, Bool-cases, Option-cases, length, get_elem?, set, get_or, take, drop, replicate,
  length-append, length-set, get_elem?-set_self, get_elem?-set_ne, length-replicate, Eq, ◌===◌,
  contains, nat_eq, string_eq, option_eq, pair_eq, Error, translation_error, value_error, key_error,
  type_error, index_error, attribute_error, assertion_error, name_error, zero_division_error,
  codes_error, Result, ok, err, Result-cases, ◌>>=◌, ◌>>◌, guard, is_ok, >>=-eq-ok, Returns,
  Returns-bind,
}
use gribbi.Base.Int.{
  ℤ, pos, negsuc, pos_part, neg_part, sub_ℕ, ◌+ℤ◌, ◌-ℤ◌, ◌*ℤ◌, ltb_ℤ, beq_ℤ, beq_ℤ_iff, int_eq,
  bit_set,
}
use gribbi.Base.Dict.{
  Dict, keys, lookup, insert, lookup-insert, lookup-insert_self, AllValues, AllValues-lookup,
}
use gribbi.Value.{Value, missing, int, real, string, ints, reals, masked, is_nat}
use gribbi.Externals.{Externals}
use gribbi.Metadata.{FactoryClass, hybrid_height, hybrid_pressure}
use gribbi.Save.Shape.{Keys}
use gribbi.Save.Coefficients.{hybrid_coefficients}
use gribbi.Save.Cube.{
  Cube, CubeCoord, FullCube, FullFactory, Encoding, named, has_any, has_coord, get_coord, first_of,
  pair_of,
}

-- What is found: a coordinate, the code of its surface, the unit to convert to, and the factory of
-- hybrid levels.
pub record Vertical (F : Type 0) : Type 0 where
  pub coord : CubeCoord F
  pub code : Value F
  pub output_unit : Option String
  pub hybrid_factory : Option (FullFactory F)

unfoldable pub hybrid_code : Option FactoryClass → Result ℕ
hybrid_code (some hybrid_height) = ok 118
hybrid_code (some hybrid_pressure) = ok 119
hybrid_code none = err value_error

module _ {F : Type 0} where
  abbrev pub plain : CubeCoord F → ℕ → String → Vertical F
  plain coord code unit = record {
    coord = coord;
    code = int (pos code);
    output_unit = some unit;
    hybrid_factory = none;
  }

  abbrev at_level : Cube F → String → ℕ → String → Result (Option (Vertical F))
  at_level cube name code unit = do coord ← get_coord cube name; ok (some (plain coord code unit))

  -- `(cube.coords("air_pressure") or cube.coords("pressure"))[0]`
  abbrev pressure_coords : Cube F → List (CubeCoord F)
  pressure_coords cube =
      if has_coord cube "air_pressure"
      then named "air_pressure" cube.coords
      else named "pressure" cube.coords

  -- `full3d_cube.aux_factory(name)`
  unfoldable pub full_factory : Option (FullCube F) → String → Result (FullFactory F)
  full_factory none name = err attribute_error
  full_factory (some full) name = full.aux_factory name

  -- The coordinates with a GRIB_fixed_surface_type.
  unfoldable pub typed_coords : List (CubeCoord F) → List (CubeCoord F × Value F)
  typed_coords [] = []
  typed_coords (coord ∷ rest) = elim (lookup "GRIB_fixed_surface_type" coord.attributes) [
    | none ↦ typed_coords rest
    | some type ↦ (coord, type) ∷ typed_coords rest
  ]

  unfoldable pub any_vertical : List (CubeCoord F) → Bool
  any_vertical [] = false
  any_vertical (coord ∷ rest) = coord.is_vertical || any_vertical rest

  -- The branch for a coordinate of an unknown kind, or none.
  unfoldable pub other_vertical : Cube F → Result (Option (Vertical F))
  other_vertical cube = elim (typed_coords cube.coords) [
    | [] ↦ if any_vertical cube.coords then err translation_error else ok none
    | (coord, type) ∷ rest ↦
        if has_any rest
        then err value_error
        else ok (
            some (record { coord = coord; code = type; output_unit = none; hybrid_factory = none }))
  ]

  unfoldable pub hybrid_vertical : Cube F → FullFactory F → Result (Option (Vertical F))
  hybrid_vertical cube factory = do
    coord ← get_coord cube "model_level_number"
    code ← hybrid_code factory.factory_class
    ok (some (record (plain coord code "1") { hybrid_factory = some factory }))

  -- The coordinate without hybrid levels.
  unfoldable pub single_vertical : Cube F → Result (Option (Vertical F))
  single_vertical cube =
      if has_coord cube "air_pressure" || has_coord cube "pressure"
      then (do coord ← first_of (pressure_coords cube); ok (some (plain coord 100 "Pa")))
      else if has_coord cube "altitude"
      then at_level cube "altitude" 102 "m"
      else if has_coord cube "height"
      then at_level cube "height" 103 "m"
      else if has_coord cube "depth"
      then at_level cube "depth" 106 "m"
      else if has_coord cube "air_potential_temperature"
      then at_level cube "air_potential_temperature" 107 "K"
      else other_vertical cube

  unfoldable pub vertical_coord : Cube F → Option (FullCube F) → Result (Option (Vertical F))
  vertical_coord cube full = elim cube.hybrid_factories [
    | [] ↦ single_vertical cube
    | name ∷ rest ↦
        if has_any rest
        then err value_error
        else do factory ← full_factory full name; hybrid_vertical cube factory
  ]

  -- The six keys of the two surfaces.
  unfoldable pub put_surfaces : Value F → Value F → Value F → Value F → Value F → Keys F → Keys F
  put_surfaces first_type first_value second_type second_factor second_value grib =
      insert "scaledValueOfSecondFixedSurface" second_value (
        insert "scaleFactorOfSecondFixedSurface" second_factor (
          insert "typeOfSecondFixedSurface" second_type (
            insert "scaledValueOfFirstFixedSurface" first_value (
              insert "scaleFactorOfFirstFixedSurface" (int (pos 0))
                (insert "typeOfFirstFixedSurface" first_type grib)))))

module _ {F : Type 0} (x : Externals F) (e : Encoding F) where
  -- A value in the unit of the message, and rounded.
  abbrev pub in_unit : Vertical F → F → Result F
  in_unit found value = elim found.output_unit [
    | none ↦ ok value
    | some unit ↦ x.convert found.coord.units value unit
  ]

  unfoldable pub surface_value : Vertical F → F → Result ℤ
  surface_value found value = do output_v ← in_unit found value; e.round output_v

  -- A coordinate with its code and its bounds. A later setting of a key replaces an earlier one.
  unfoldable pub write_found : Vertical F → Value F → List (List F) → Keys F → Result (Keys F)
  write_found found code [] grib = do
    value ← first_of found.coord.points
    n ← surface_value found value
    ok (put_surfaces code (int n) (int (pos 255)) missing missing grib)
  write_found found code (row ∷ rows) grib = do
    (lower, upper) ← pair_of row
    n ← surface_value found lower
    n2 ← surface_value found upper
    ok (put_surfaces code (int n) code (int (pos 0)) (int n2) grib)

  unfoldable pub write_surfaces : Option (Vertical F) → Keys F → Result (Keys F)
  write_surfaces none grib =
      ok (put_surfaces (int (pos 1)) (int (pos 0)) (int (pos 255)) missing missing grib)
  write_surfaces (some found) grib = write_found found found.code found.coord.bounds grib

  abbrev pub full_levels : Option (FullCube F) → Result (Option (List ℤ))
  full_levels none = err attribute_error
  full_levels (some full) = full.model_levels

  -- The vector of the coefficients of hybrid levels.
  unfoldable pub write_pv : Option (List ℤ) → FullFactory F → Keys F → Result (Keys F)
  write_pv none factory grib = err value_error
  write_pv (some levels) factory grib = do
    (nv, pv) ← hybrid_coefficients e.as_float32 e.zero_value levels factory.delta factory.sigma
    ok (insert "pv" (reals (map some pv)) (insert "NV" (int (pos nv)) grib))

  unfoldable pub write_hybrid :
      Option (FullCube F) → Option (FullFactory F) → Keys F → Result (Keys F)
  write_hybrid full none grib = ok grib
  write_hybrid full (some factory) grib = do levels ← full_levels full; write_pv levels factory grib

  abbrev pub factory_of : Option (Vertical F) → Option (FullFactory F)
  factory_of none = none
  factory_of (some found) = found.hybrid_factory

  unfoldable pub set_fixed_surfaces : Cube F → Option (FullCube F) → Keys F → Result (Keys F)
  set_fixed_surfaces cube full grib = do
    found ← vertical_coord cube full
    written ← write_surfaces found grib
    write_hybrid full (factory_of found) written
