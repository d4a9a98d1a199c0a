-- ===== src/Phenom/Lookup.antt =====
-- What the lookups answer, in the tables that the module makes when it is imported.
use gribbi.Base.{
  ℕ, String, ◌≡◌, ◌↔◌, Option, some, [], get_elem?, nat_eq, string_eq, option_eq, pair_eq, ok,
}
use gribbi.Base.Dict.{Dict}
use gribbi.Phenom.{
  Vocabulary, Grib1CfData, CfGrib2Data, Grib2CfKey, CfGrib2Key, make_grib2_cf_entry,
  make_cf_grib2_entry, make_grib2_to_cf_table, make_cf_to_grib2_table, dict_literal,
  grib2_phenom_to_cf_info, cf_phenom_to_grib2_info, cf_key,
}
use gribbi.Phenom.Names.{CfName, G2Param}
use gribbi.Phenom.Grib2ToCf.{grib2_to_cf}
use gribbi.Phenom.CfToGrib2.{cf_to_grib2}
use gribbi.Phenom.Build.{build-lookup}

-- Where the table of GRIB2 parameters can be made, a lookup answers `info` exactly where the
-- dictionary of the source has an entry that translates to `info` under the parameter's numbers.
pub grib2_phenom_to_cf_info-table :
    (voc : Vocabulary) (table : Dict Grib2CfKey Grib1CfData) (discipline category number : ℕ)
    (info : Grib1CfData)
    → make_grib2_to_cf_table voc ≡ ok table
    → (grib2_phenom_to_cf_info table discipline category number ≡ some info) ↔ (
        (i : ℕ) × (s : G2Param × CfName) × (get_elem? (dict_literal grib2_to_cf []) i ≡ some s)
        × (make_grib2_cf_entry voc s ≡ ok (some ((discipline, (category, number)), info))))
unfolding make_grib2_to_cf_table grib2_phenom_to_cf_info
grib2_phenom_to_cf_info-table voc table discipline category number info made =
    build-lookup (make_grib2_cf_entry voc) (dict_literal grib2_to_cf []) table
      (discipline, (category, number)) info made

-- Where the table of CF names can be made, a lookup answers `info` exactly where the dictionary of
-- the source has an entry that translates to `info` under the name that counts.
pub cf_phenom_to_grib2_info-table :
    (voc : Vocabulary) (table : Dict CfGrib2Key CfGrib2Data)
    (standard_name long_name : Option String) (info : CfGrib2Data)
    → make_cf_to_grib2_table voc ≡ ok table
    → (cf_phenom_to_grib2_info table standard_name long_name ≡ some info) ↔ (
        (i : ℕ) × (s : CfName × G2Param) × (get_elem? (dict_literal cf_to_grib2 []) i ≡ some s)
        × (make_cf_grib2_entry voc s ≡ ok (some (cf_key standard_name long_name, info))))
unfolding make_cf_to_grib2_table cf_phenom_to_grib2_info
cf_phenom_to_grib2_info-table voc table standard_name long_name info made =
    build-lookup (make_cf_grib2_entry voc) (dict_literal cf_to_grib2 []) table
      (cf_key standard_name long_name) info made
