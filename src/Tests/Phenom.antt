-- ===== src/Tests/Phenom.antt =====
-- Codes of phenomena, and a table of two entries.
use gribbi.Base.{
  ℕ, ◌≡◌, refl, ◌↔◌, true, none, some, [], get_elem?, nat_eq, string_eq, option_eq, pair_eq, ok,
}
use gribbi.Base.Int.{int_eq}
use gribbi.Base.Dict.{Dict, lookup, insert}
use gribbi.Phenom.{
  Vocabulary, make_grib2_to_cf_table, dict_literal, grib2_phenom_to_cf_info, CfGrib2Key,
  CfGrib2Data, make_cf_to_grib2_table, make_cf_grib2_entry, cf_phenom_to_grib2_info, Grib1CfData,
  Grib2CfKey, make_grib2_cf_entry,
}
use gribbi.Phenom.Names.{CfName, G2Param}
use gribbi.Phenom.Grib2ToCf.{grib2_to_cf}
use gribbi.Phenom.CfToGrib2.{cf_to_grib2}
use gribbi.Phenom.Lookup.{grib2_phenom_to_cf_info-table, cf_phenom_to_grib2_info-table}
use gribbi.Tests.{result_or}
use gribbi.Phenom.Code.{grib_code2, str, repr, gribcode_from_string}
use gribbi.Phenom.Code.RoundTrip.{gribcode_from_string-texts}

gribcode_from_string-texts_example :
    (gribcode_from_string (str (grib_code2 0 3 1)) ≡ ok (grib_code2 0 3 1))
    × (gribcode_from_string (repr (grib_code2 0 3 1)) ≡ ok (grib_code2 0 3 1))
gribcode_from_string-texts_example = gribcode_from_string-texts (grib_code2 0 3 1)

-- All names and units are accepted.
abbrev accepting : Vocabulary
accepting = record { is_std_name = λ name. true; is_unit = λ units. true }

abbrev table : Dict Grib2CfKey Grib1CfData
table = result_or [] (make_grib2_to_cf_table accepting)

abbrev air_temperature : Grib1CfData
air_temperature = record {
  standard_name = some "air_temperature";
  long_name = none;
  units = "K";
  set_height = none;
}

grib2_phenom_to_cf_info-table_example :
    (grib2_phenom_to_cf_info table 0 0 0 ≡ some air_temperature) ↔ (
      (i : ℕ) × (s : G2Param × CfName) × (get_elem? (dict_literal grib2_to_cf []) i ≡ some s)
      × (make_grib2_cf_entry accepting s ≡ ok (some ((0, (0, 0)), air_temperature))))
unfolding make_grib2_to_cf_table lookup insert
grib2_phenom_to_cf_info-table_example =
    grib2_phenom_to_cf_info-table accepting table 0 0 0 air_temperature refl

abbrev names : Dict CfGrib2Key CfGrib2Data
names = result_or [] (make_cf_to_grib2_table accepting)

abbrev sea_level : CfGrib2Data
sea_level = record { discipline = 0; category = 3; number = 1; units = "Pa" }

cf_phenom_to_grib2_info-table_example :
    (cf_phenom_to_grib2_info names (some "air_pressure_at_sea_level") none ≡ some sea_level) ↔ (
      (i : ℕ) × (s : CfName × G2Param) × (get_elem? (dict_literal cf_to_grib2 []) i ≡ some s)
      × (make_cf_grib2_entry accepting s
          ≡ ok (some ((some "air_pressure_at_sea_level", none), sea_level))))
unfolding make_cf_to_grib2_table lookup insert
cf_phenom_to_grib2_info-table_example =
    cf_phenom_to_grib2_info-table accepting names (some "air_pressure_at_sea_level") none sea_level
      refl
