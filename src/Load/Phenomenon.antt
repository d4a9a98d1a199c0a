-- ===== src/Load/Phenomenon.antt =====
-- `translate_phenomenon` and `ensure_surface_air_pressure_name` of _load_convert.py.
use gribbi.Base.{
  ℕ, String, true, false, ◌&&◌, ◌||◌, Option, none, some, [], ◌∷◌, ◌++◌, if◌then◌else◌, nat_eq,
  string_eq, option_eq, pair_eq, value_error, type_error, Result, ok, err, ◌>>=◌,
}
use gribbi.Base.Int.{pos, int_eq}
use gribbi.Base.Dict.{Dict, insert}
use gribbi.Value.{Value, int, is_nat}
use package.text.Mathlib.Text.{◌==◌ as text_beq}
use Prim.Native.String.{◌++◌ as ◌<>◌}
use gribbi.Metadata.{Metadata, Attribute, grib_code2, add_aux, scalar}
use gribbi.Phenom.{Grib1CfData, Grib2CfKey, grib2_phenom_to_cf_info}
use gribbi.Load.Statistics.{Probability}
use gribbi.Tables.{type_of_fixed_surface_missing}

-- `int(value)` of the three numbers of a parameter; they are unsigned octets.
abbrev pub as_octet : {F : Type 0} → Value F → Result ℕ
as_octet (int (pos n)) = ok n
as_octet v = err type_error

-- `a or b`
abbrev first_name : Option String → Option String → String
first_name (some a) b = a
first_name none (some b) = b
first_name none none = "None"

-- `attributes[key] = value` in the metadata.
abbrev pub set_attribute : {F : Type 0} → String → Attribute F → Metadata F → Metadata F
set_attribute key value m = record m { attributes = insert key value m.attributes }

module _ {F : Type 0} where
  unfoldable pub name_phenomenon :
      Option Grib1CfData → Option (Probability F) → Metadata F → Metadata F
  name_phenomenon none probability m = m
  name_phenomenon (some cf) none m = record m {
    standard_name = cf.standard_name;
    long_name = cf.long_name;
    units = some cf.units;
  }
  name_phenomenon (some cf) (some probability) m =
      record (add_aux (scalar probability.threshold cf.standard_name cf.long_name (some cf.units))
        m) {
          standard_name = none;
          long_name = some (
              "probability_of_"
              <> (first_name cf.standard_name cf.long_name
                  <> ("_" <> probability.probability_type_name)));
          units = some "1";
        }

  -- The reference fields of hybrid coordinates are recognised at the surface.
  unfoldable pub add_reference :
      Value F → Value F → Value F → Value F → Value F → Value F → Metadata F → Metadata F
  add_reference discipline category number first_type first_value second_type m =
      if is_nat first_type 1
        && (is_nat first_value 0 && is_nat second_type type_of_fixed_surface_missing)
      then (if is_nat discipline 2 && (is_nat category 0 && is_nat number 7)
          then record m {
            references =
                m.references
                ++ (record { name = "ref_orography"; ensures_pressure_name = false } ∷ []);
          }
          else if is_nat discipline 0 && (is_nat category 3 && is_nat number 0)
          then record m {
            references =
                m.references
                ++ (record { name = "ref_surface_pressure"; ensures_pressure_name = true } ∷ []);
          }
          else m)
      else m

  unfoldable pub translate_phenomenon :
      Dict Grib2CfKey Grib1CfData
      → Value F
      → Value F
      → Value F
      → Value F
      → Value F
      → Value F
      → Option (Probability F)
      → Metadata F
      → Result (Metadata F)
  unfolding grib2_phenom_to_cf_info
  translate_phenomenon table discipline category number first_type first_value second_type
        probability m =
      do
        d ← as_octet discipline
        c ← as_octet category
        n ← as_octet number
        let cf = grib2_phenom_to_cf_info table d c n
        let named = name_phenomenon cf probability m
        let identified = set_attribute "GRIB_PARAM" (grib_code2 discipline category number) named
        ok (add_reference discipline category number first_type first_value second_type identified)

-- The transform of the pressure reference: the new standard name of the cube.
unfoldable pub ensure_surface_air_pressure_name : String → Result String
ensure_surface_air_pressure_name name =
    if text_beq name "air_pressure" || text_beq name "surface_air_pressure"
    then ok "surface_air_pressure"
    else err value_error
