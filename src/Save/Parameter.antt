-- ===== src/Save/Parameter.antt =====
-- `set_discipline_and_parameter` of _save_rules.py: the parameter that a cube is saved as.
pub mod RoundTrip
use gribbi.Base.{
  ℕ, zero, suc, ◌+◌, ◌-◌, ◌*◌, ◌/◌, ◌%◌, ◌^◌, ◌≤◌, ◌<◌, String, ◌≡◌, refl, sym, ap, ◌∙◌, subst, ◌≢◌,
  ◌↔◌, ◌⊎◌, inl, inr, Bool, true, false, not, ◌&&◌, ◌||◌, Option, none, some, List, [], ◌∷◌, ◌++◌,
  map, append-nil, append_assoc, arith, ltb, leb, ◌==◌, if◌then◌else◌, ltb→lt, lt→ltb, leb→le,
  ==_iff, Bool-cases, Option-cases, length, get_elem?, set, get_or, take, drop, replicate,
  length-append, length-set, get_elem?-set_self, get_elem?-set_ne, length-replicate, Eq, ◌===◌,
  contains, nat_eq, string_eq, option_eq, pair_eq, Error, translation_error, value_error, key_error,
  type_error, index_error, attribute_error, assertion_error, name_error, zero_division_error,
  codes_error, Result, ok, err, Result-cases, ◌>>=◌, ◌>>◌, guard, is_ok, >>=-eq-ok, Returns,
  Returns-bind,
}
use gribbi.Base.Int.{
  ℤ, pos, negsuc, pos_part, neg_part, sub_ℕ, ◌+ℤ◌, ◌-ℤ◌, ◌*ℤ◌, ltb_ℤ, beq_ℤ, beq_ℤ_iff, int_eq,
  bit_set,
}
use gribbi.Base.Dict.{
  Dict, keys, lookup, insert, lookup-insert, lookup-insert_self, AllValues, AllValues-lookup,
}
use gribbi.Value.{Value, missing, int, real, string, ints, reals, masked, is_nat}
use gribbi.Externals.{Externals}
use gribbi.Tables.{InterpolationParameters, spatial_processing_types}
use gribbi.Phenom.{CfGrib2Key, CfGrib2Data, cf_phenom_to_grib2_info}
use gribbi.Phenom.Code.{GribCode, grib_code1, grib_code2, gribcode_from_string, Text, decimal, str}
use gribbi.Save.Shape.{Keys}
use gribbi.Save.Codes.{
  statistic_type_names_inverted, statistical_method_code, get_spatial_process_code,
}
use gribbi.Save.Cube.{
  Cube, CubeCoord, CubeMethod, FullCube, Encoding, DateFields, GribParam, param_text, param_code,
  param_numbers, named, has_any, has_coord, get_coord, first_of, only,
}
use gribbi.Save.Times.{
  put, has_bounds, set_forecast_time, set_time_range, set_time_increment, time_bounds,
}
use gribbi.Save.Surfaces.{set_fixed_surfaces}

-- `str` of a tuple of numbers behind its first number: ", 0, 5)", and "(2,)" for one number.
abbrev pub tuple_end : List ℕ → Text
tuple_end [] = 41 ∷ []
tuple_end (n ∷ numbers) = (44 ∷ 32 ∷ []) ++ (decimal n ++ tuple_end numbers)

unfoldable pub tuple_text : List ℕ → Text
tuple_text [] = 40 ∷ 41 ∷ []
tuple_text (n ∷ []) = (40 ∷ []) ++ (decimal n ++ (44 ∷ 41 ∷ []))
tuple_text (n ∷ n2 ∷ numbers) = (40 ∷ []) ++ (decimal n ++ tuple_end (n2 ∷ numbers))

-- `str(attr)`
unfoldable pub text_of_param : GribParam → Text
text_of_param (param_text text) = text
text_of_param (param_code code) = str code
text_of_param (param_numbers numbers) = tuple_text numbers

-- `GRIBCode(attr)`: the text is parsed, whatever the attribute is.
unfoldable pub code_of_param : GribParam → Result GribCode
code_of_param param = gribcode_from_string (text_of_param param)

-- The parameter of a code of edition 2.
unfoldable pub param_of_code : Result GribCode → Option (ℕ × (ℕ × ℕ))
param_of_code (ok (grib_code2 discipline category number)) = some (discipline, (category, number))
param_of_code (ok (grib_code1 table_version centre_number number)) = none
param_of_code (err error) = none

unfoldable pub attribute_param : Option GribParam → Option (ℕ × (ℕ × ℕ))
attribute_param none = none
attribute_param (some param) = param_of_code (code_of_param param)

abbrev pub param_or : Option (ℕ × (ℕ × ℕ)) → ℕ × (ℕ × ℕ) → ℕ × (ℕ × ℕ)
param_or none param = param
param_or (some param) other = param

abbrev pub info_param : Option CfGrib2Data → ℕ × (ℕ × ℕ)
info_param none = (255, (255, 255))
info_param (some info) = (info.discipline, (info.category, info.number))

module _ {F : Type 0} where
  -- The discipline, the category and the number; 255 is missing.
  unfoldable pub parameter_of : Dict CfGrib2Key CfGrib2Data → Cube F → ℕ × (ℕ × ℕ)
  parameter_of table cube =
      param_or (attribute_param cube.grib_param)
        (info_param (cf_phenom_to_grib2_info table cube.standard_name cube.long_name))

  unfoldable pub put_parameter : ℕ × (ℕ × ℕ) → Keys F → Keys F
  put_parameter (discipline, (category, number)) grib =
      put "parameterNumber" (pos number)
        (put "parameterCategory" (pos category) (put "discipline" (pos discipline) grib))

  unfoldable pub set_discipline_and_parameter :
      Dict CfGrib2Key CfGrib2Data → Cube F → Keys F → Keys F
  set_discipline_and_parameter table cube grib = put_parameter (parameter_of table cube) grib
