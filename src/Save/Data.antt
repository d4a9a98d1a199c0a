-- ===== src/Save/Data.antt =====
-- The sections 1 and 5 of _save_rules.py: `identification` and `data_section`.
pub mod Masked
use gribbi.Base.{
  ℕ, zero, suc, ◌+◌, ◌-◌, ◌*◌, ◌/◌, ◌%◌, ◌^◌, ◌≤◌, ◌<◌, String, ◌≡◌, refl, sym, ap, ◌∙◌, subst, ◌≢◌,
  ◌↔◌, ◌⊎◌, inl, inr, Bool, true, false, not, ◌&&◌, ◌||◌, Option, none, some, List, [], ◌∷◌, ◌++◌,
  map, append-nil, append_assoc, arith, ltb, leb, ◌==◌, if◌then◌else◌, ltb→lt, lt→ltb, leb→le,
  ==_iff, Bool-cases, Option-cases, length, get_elem?, set, get_or, take, drop, replicate,
  length-append, length-set, get_elem?-set_self, get_elem?-set_ne, length-replicate, Eq, ◌===◌,
  contains, nat_eq, string_eq, option_eq, pair_eq, Error, translation_error, value_error, key_error,
  type_error, index_error, attribute_error, assertion_error, name_error, zero_division_error,
  codes_error, Result, ok, err, Result-cases, ◌>>=◌, ◌>>◌, guard, is_ok, >>=-eq-ok, Returns,
  Returns-bind,
}
use gribbi.Base.Int.{
  ℤ, pos, negsuc, pos_part, neg_part, sub_ℕ, ◌+ℤ◌, ◌-ℤ◌, ◌*ℤ◌, ltb_ℤ, beq_ℤ, beq_ℤ_iff, int_eq,
  bit_set,
}
use gribbi.Base.Dict.{
  Dict, keys, lookup, insert, lookup-insert, lookup-insert_self, AllValues, AllValues-lookup,
}
use gribbi.Value.{Value, missing, int, real, string, ints, reals, masked, is_nat}
use gribbi.Externals.{Externals}
use gribbi.Phenom.{CfGrib2Key, CfGrib2Data, cf_phenom_to_grib2_info}
use gribbi.Save.Shape.{Keys}
use gribbi.Save.Cube.{Cube, Encoding, has_coord, get_coord, first_of}
use gribbi.Save.Times.{put, reference_time}

-- cube.data, with its mask and its fill value if it is a masked array, and cube.units.
pub data CubeData (F : Type 0) : Type 0 where
  unmasked : List F → CubeData F
  masked_array : F → List (Option F) → CubeData F

-- What numpy does for the dtype of the data: a number as an element of it, which float32 rounds,
-- `units.convert(data, other)` of an element, which is in the dtype of the array, the test of nan,
-- and the extremes of a masked array.
pub record ArrayType (F : Type 0) : Type 0 where
  pub narrow : F → F
  pub convert : String → F → String → Result F
  pub is_nan : F → Bool
  pub minimum : List (Option F) → F
  pub maximum : List (Option F) → F

module _ {F : Type 0} where
  unfoldable pub centre : Keys F → Keys F
  centre grib = put "subCentre" (pos 0) (put "centre" (pos 74) grib)

module _ {F : Type 0} (x : Externals F) (e : Encoding F) where
  -- Code table 1.4: a control or a perturbed forecast, or an analysis and forecast.
  unfoldable pub processed_type : Cube F → Result ℕ
  processed_type cube =
      if has_coord cube "realization"
      then (do
        coord ← get_coord cube "realization"
        realization ← first_of coord.points
        ok (if e.equal realization (x.of_int (pos 0)) then 3 else 4))
      else ok 2

  unfoldable pub identification : Cube F → Keys F → Result (Keys F)
  identification cube grib = do
    timed ← reference_time x e cube (centre grib)
    type ← processed_type cube
    ok (
        put "typeOfProcessedData" (pos type)
          (put "productionStatusOfProcessedData" (pos 255) timed))

module _ {F : Type 0} (x : Externals F) (e : Encoding F) (m : ArrayType F) where
  -- `data.filled(fill_value)`, where the fill value becomes an element.
  unfoldable pub filled : F → List (Option F) → List F
  filled fill_value [] = []
  filled fill_value (none ∷ rest) = m.narrow fill_value ∷ filled fill_value rest
  filled fill_value (some a ∷ rest) = a ∷ filled fill_value rest

  abbrev tenth : F
  tenth = m.narrow (x.div (x.of_int (pos 1)) (x.of_int (pos 10)))

  -- The fill value, or `min - (max - min) * 0.1` of the elements, outside of the data's range.
  unfoldable pub fill_value_of : F → List (Option F) → F
  fill_value_of fill_value values =
      if m.is_nan fill_value
      then (let low = m.minimum values in
          m.narrow (x.sub low (m.narrow (x.mul (m.narrow (x.sub (m.maximum values) low)) tenth))))
      else fill_value

  -- `units.convert(data, other)` of an array, in its dtype.
  unfoldable pub convert_all : String → String → List F → Result (List F)
  convert_all from to [] = ok []
  convert_all from to (a ∷ rest) = do
    b ← m.convert from a to
    more ← convert_all from to rest
    ok (b ∷ more)

  -- `units.convert(fill_value, other)` of a number.
  unfoldable pub convert_fill : String → String → Option F → Result (Option F)
  convert_fill from to none = ok none
  convert_fill from to (some a) = do b ← x.convert from a to; ok (some b)

  -- The units of the parameter, where they are known and others than those of the cube.
  unfoldable pub target_units : Option CfGrib2Data → String → Option String
  target_units none units = none
  target_units (some info) units = if e.same_unit units info.units then none else some info.units

  unfoldable pub scaled : String → Option String → Option F → List F → Result (Option F × List F)
  scaled units none fill values = ok (fill, values)
  scaled units (some target) fill values = do
    converted ← convert_all units target values
    converted_fill ← convert_fill units target fill
    ok (converted_fill, converted)

  -- Without a fill value, the message has no missing values.
  unfoldable pub put_bitmap : Option F → Keys F → Keys F
  put_bitmap none grib = put "bitmapPresent" (pos 0) grib
  put_bitmap (some fill_value) grib =
      insert "missingValue" (real fill_value) (put "bitmapPresent" (pos 1) grib)

  unfoldable pub unmask : CubeData F → Option F × List F
  unmask (unmasked values) = (none, values)
  unmask (masked_array fill_value values) =
      (some (fill_value_of fill_value values), filled (fill_value_of fill_value values) values)

  unfoldable pub data_section :
      Dict CfGrib2Key CfGrib2Data → Cube F → String → CubeData F → Keys F → Result (Keys F)
  data_section table cube units cube_data grib = do
    let (fill, values) = unmask cube_data
    (fill_value, written) ←
        scaled units
          (target_units (cf_phenom_to_grib2_info table cube.standard_name cube.long_name) units)
          fill values
    ok (insert "values" (reals (map some written)) (put_bitmap fill_value grib))
