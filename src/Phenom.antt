-- ===== src/Phenom.antt =====
-- grib_phenom_translation/__init__.py: the translation tables between GRIB2 parameters and CF names,
-- and their lookups. The standard names of iris and the parser of units of cf_units are parameters.
pub mod Names
pub mod Grib2ToCf
pub mod CfToGrib2
pub mod Build
pub mod Lookup
pub mod Code
use gribbi.Base.{
  ℕ, zero, suc, ◌+◌, ◌-◌, ◌*◌, ◌/◌, ◌%◌, ◌^◌, ◌≤◌, ◌<◌, String, ◌≡◌, refl, sym, ap, ◌∙◌, subst, ◌≢◌,
  ◌↔◌, ◌⊎◌, inl, inr, Bool, true, false, not, ◌&&◌, ◌||◌, Option, none, some, List, [], ◌∷◌, ◌++◌,
  map, append-nil, append_assoc, arith, ltb, leb, ◌==◌, if◌then◌else◌, ltb→lt, lt→ltb, leb→le,
  ==_iff, Bool-cases, Option-cases, length, get_elem?, set, get_or, take, drop, replicate,
  length-append, length-set, get_elem?-set_self, get_elem?-set_ne, length-replicate, Eq, ◌===◌,
  contains, nat_eq, string_eq, option_eq, pair_eq, Error, translation_error, value_error, key_error,
  type_error, index_error, attribute_error, assertion_error, codes_error, Result, ok, err,
  Result-cases, ◌>>=◌, ◌>>◌, guard, is_ok, >>=-eq-ok, Returns, Returns-bind,
}
use gribbi.Base.Dict.{
  Dict, keys, lookup, insert, lookup-insert, lookup-insert_self, AllValues, AllValues-lookup,
}
use gribbi.Phenom.Names.{CfName, G2Param}
use gribbi.Phenom.Grib2ToCf.{grib2_to_cf}
use gribbi.Phenom.CfToGrib2.{cf_to_grib2}

-- `name in iris.std_names.STD_NAMES`, and whether `cf_units.Unit(units)` accepts the text.
pub record Vocabulary : Type 0 where
  pub is_std_name : String → Bool
  pub is_unit : String → Bool

abbrev pub Grib2CfKey : Type 0
Grib2CfKey = ℕ × (ℕ × ℕ)

pub record Grib1CfData : Type 0 where
  pub standard_name : Option String
  pub long_name : Option String
  pub units : String
  pub set_height : Option ℕ

abbrev pub CfGrib2Key : Type 0
CfGrib2Key = Option String × Option String

pub record CfGrib2Data : Type 0 where
  pub discipline : ℕ
  pub category : ℕ
  pub number : ℕ
  pub units : String

-- `_LookupTable.__setitem__`: an entry that is there is not changed. Each value that the module
-- sets is an object of its own, so a second one is never identical with the first.
unfoldable pub set_item {ℓ} : {K V : Type ℓ} ⦃e : Eq K⦄ → K → V → Dict K V → Result (Dict K V)
set_item key value table = elim (lookup key table) [
  | some _ ↦ err key_error
  | none ↦ ok (insert key value table)
]

-- A standard name has to be known to iris; no name is fine.
abbrev is_known : Vocabulary → Option String → Bool
is_known voc none = true
is_known voc (some name) = voc.is_std_name name

add_entry {ℓ} : {K V : Type ℓ} ⦃e : Eq K⦄ → Option (K × V) → Dict K V → Result (Dict K V)
add_entry none table = ok table
add_entry (some (key, value)) table = set_item key value table

-- The loop over a table's entries. An entry is skipped, refused by an exception, or set.
unfoldable pub build {ℓ} :
    {S K V : Type ℓ} ⦃e : Eq K⦄
    → (S → Result (Option (K × V)))
    → List S
    → Dict K V
    → Result (Dict K V)
unfolding add_entry set_item
build entry [] table = ok table
build entry (s ∷ rest) table = do
  association ← entry s
  table' ← add_entry association table
  build entry rest table'

-- `_make_grib2_cf_entry`, with the assertion of the loop that calls it.
unfoldable pub make_grib2_cf_entry :
    Vocabulary → G2Param × CfName → Result (Option (Grib2CfKey × Grib1CfData))
make_grib2_cf_entry voc ((edition, key), (standard_name, (long_name, units))) =
    if not (edition == 2)
    then err assertion_error
    else if not (is_known voc standard_name)
    then ok none
    else if not (voc.is_unit units)
    then err value_error
    else ok (
        some (
          key,
          record {
            standard_name = standard_name;
            long_name = long_name;
            units = units;
            set_height = none;
          },
        ))

abbrev no_name : Option String → Option String → Bool
no_name none none = true
no_name _ _ = false

-- A long name counts only where there is no standard name.
abbrev pub cf_key : Option String → Option String → CfGrib2Key
cf_key (some standard_name) long_name = (some standard_name, none)
cf_key none long_name = (none, long_name)

-- `_make_cf_grib2_entry`, with what the loop that calls it does first.
unfoldable pub make_cf_grib2_entry :
    Vocabulary → CfName × G2Param → Result (Option (CfGrib2Key × CfGrib2Data))
make_cf_grib2_entry voc
      ((standard_name, (long_name, units)), (edition, (discipline, (category, number)))) =
    if not (edition == 2)
    then err assertion_error
    else if not (voc.is_unit units)
    then err value_error
    else if no_name standard_name long_name
    then err assertion_error
    else if not (is_known voc standard_name)
    then ok none
    else ok (
        some (
          cf_key standard_name long_name,
          record { discipline = discipline; category = category; number = number; units = units },
        ))

-- A dictionary as it is written: of two equal keys the later value counts.
unfoldable pub dict_literal {ℓ} : {K V : Type ℓ} ⦃e : Eq K⦄ → List (K × V) → Dict K V → Dict K V
dict_literal [] d = d
dict_literal ((k, v) ∷ rest) d = dict_literal rest (insert k v d)

-- `_make_grib2_to_cf_table()` and `_make_cf_to_grib2_table()`
unfoldable pub make_grib2_to_cf_table : Vocabulary → Result (Dict Grib2CfKey Grib1CfData)
unfolding make_grib2_cf_entry build dict_literal
make_grib2_to_cf_table voc = build (make_grib2_cf_entry voc) (dict_literal grib2_to_cf []) []

unfoldable pub make_cf_to_grib2_table : Vocabulary → Result (Dict CfGrib2Key CfGrib2Data)
unfolding make_cf_grib2_entry build dict_literal
make_cf_to_grib2_table voc = build (make_cf_grib2_entry voc) (dict_literal cf_to_grib2 []) []

-- The lookups, in the tables that were made when the module was imported.
unfoldable pub grib2_phenom_to_cf_info :
    Dict Grib2CfKey Grib1CfData → ℕ → ℕ → ℕ → Option Grib1CfData
grib2_phenom_to_cf_info table discipline category number =
    lookup (discipline, (category, number)) table

unfoldable pub cf_phenom_to_grib2_info :
    Dict CfGrib2Key CfGrib2Data → Option String → Option String → Option CfGrib2Data
cf_phenom_to_grib2_info table standard_name long_name =
    lookup (cf_key standard_name long_name) table
