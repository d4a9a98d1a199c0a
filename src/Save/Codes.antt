-- ===== src/Save/Codes.antt =====
-- The codes of statistics and of spatial processing in _save_rules.py.
pub mod Inverse
use gribbi.Base.{
  ℕ, zero, suc, ◌+◌, ◌-◌, ◌*◌, ◌/◌, ◌%◌, ◌^◌, ◌≤◌, ◌<◌, String, ◌≡◌, refl, sym, ap, ◌∙◌, subst, ◌≢◌,
  ◌↔◌, ◌⊎◌, inl, inr, Bool, true, false, not, ◌&&◌, ◌||◌, Option, none, some, List, [], ◌∷◌, ◌++◌,
  map, append-nil, append_assoc, arith, ltb, leb, ◌==◌, if◌then◌else◌, ltb→lt, lt→ltb, leb→le,
  ==_iff, Bool-cases, Option-cases, length, get_elem?, set, get_or, take, drop, replicate,
  length-append, length-set, get_elem?-set_self, get_elem?-set_ne, length-replicate, Eq, ◌===◌,
  contains, nat_eq, string_eq, option_eq, pair_eq, Error, translation_error, value_error, key_error,
  type_error, index_error, attribute_error, assertion_error, name_error, codes_error, Result, ok,
  err, Result-cases, ◌>>=◌, ◌>>◌, guard, is_ok, >>=-eq-ok, Returns, Returns-bind,
}
use gribbi.Base.Dict.{Dict, lookup, insert}
use gribbi.Tables.{InterpolationParameters, statistic_type_names, spatial_processing_types}

-- `{val: key for key, val in table.items()}`
unfoldable pub invert : Dict ℕ String → Dict String ℕ → Dict String ℕ
invert [] inverted = inverted
invert ((key, val) ∷ items) inverted = invert items (insert val key inverted)

unfoldable pub statistic_type_names_inverted : Dict String ℕ
unfolding invert
statistic_type_names_inverted = invert statistic_type_names []

unfoldable pub statistical_method_code : String → Result ℕ
unfolding statistic_type_names_inverted
statistical_method_code cell_method_name =
    elim (lookup cell_method_name statistic_type_names_inverted) [
      | none ↦ err translation_error
      | some statistic_code ↦ ok statistic_code
    ]

-- The loop over the table, up to its break.
unfoldable pub first_code : String → Dict ℕ InterpolationParameters → Option ℕ
first_code spatial_processing_type [] = none
first_code spatial_processing_type ((code, interp_params) ∷ items) =
    let rest = first_code spatial_processing_type items in
    if interp_params.interpolation_type === spatial_processing_type then some code else rest

unfoldable pub get_spatial_process_code : String → Result ℕ
unfolding first_code
get_spatial_process_code spatial_processing_type =
    elim (first_code spatial_processing_type spatial_processing_types) [
      | none ↦ err translation_error
      | some code ↦ ok code
    ]
