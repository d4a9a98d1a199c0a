-- ===== src/Save/Product.antt =====
-- Section 4 of _save_rules.py: the product templates that are saved and the choice among them.
pub mod Keeps
pub mod Template
pub mod Described
use gribbi.Base.{
  ℕ, zero, suc, ◌+◌, ◌-◌, ◌*◌, ◌/◌, ◌%◌, ◌^◌, ◌≤◌, ◌<◌, String, ◌≡◌, refl, sym, ap, ◌∙◌, subst, ◌≢◌,
  ◌↔◌, ◌⊎◌, inl, inr, Bool, true, false, not, ◌&&◌, ◌||◌, Option, none, some, List, [], ◌∷◌, ◌++◌,
  map, append-nil, append_assoc, arith, ltb, leb, ◌==◌, if◌then◌else◌, ltb→lt, lt→ltb, leb→le,
  ==_iff, Bool-cases, Option-cases, length, get_elem?, set, get_or, take, drop, replicate,
  length-append, length-set, get_elem?-set_self, get_elem?-set_ne, length-replicate, Eq, ◌===◌,
  contains, nat_eq, string_eq, option_eq, pair_eq, Error, translation_error, value_error, key_error,
  type_error, index_error, attribute_error, assertion_error, name_error, zero_division_error,
  codes_error, Result, ok, err, Result-cases, ◌>>=◌, ◌>>◌, guard, is_ok, >>=-eq-ok, Returns,
  Returns-bind,
}
use gribbi.Base.Int.{
  ℤ, pos, negsuc, pos_part, neg_part, sub_ℕ, ◌+ℤ◌, ◌-ℤ◌, ◌*ℤ◌, ltb_ℤ, beq_ℤ, beq_ℤ_iff, int_eq,
  bit_set,
}
use gribbi.Base.Dict.{
  Dict, keys, lookup, insert, lookup-insert, lookup-insert_self, AllValues, AllValues-lookup,
}
use gribbi.Value.{Value, missing, int, real, string, ints, reals, masked, is_nat}
use gribbi.Externals.{Externals}
use gribbi.Tables.{InterpolationParameters, spatial_processing_types}
use gribbi.Phenom.{CfGrib2Key, CfGrib2Data, cf_phenom_to_grib2_info}
use gribbi.Phenom.Code.{GribCode, grib_code1, grib_code2, gribcode_from_string, of_numbers}
use gribbi.Save.Shape.{Keys}
use gribbi.Save.Codes.{
  statistic_type_names_inverted, statistical_method_code, get_spatial_process_code,
}
use gribbi.Save.Cube.{
  Cube, CubeCoord, CubeMethod, FullCube, Encoding, DateFields, GribParam, param_text, param_code,
  param_numbers, named, has_any, has_coord, get_coord, first_of, only,
}
use gribbi.Save.Times.{
  put, has_bounds, set_forecast_time, set_time_range, set_time_increment, time_bounds,
}
use gribbi.Save.Parameter.{set_discipline_and_parameter}
use gribbi.Save.Surfaces.{set_fixed_surfaces}

-- The cell methods over a coordinate of that name.
unfoldable pub methods_over : String → List CubeMethod → List CubeMethod
methods_over name [] = []
methods_over name (method ∷ rest) =
    let more = methods_over name rest in
    if contains method.coord_names name then method ∷ more else more

-- `_spatial_statistic(cube)`, whose first element is all that is used; indexing no cell method
-- raises. A cell method that is found has a coordinate name.
unfoldable pub spatial_statistic : List CubeMethod → Result CubeMethod
spatial_statistic cell_methods = elim (methods_over "area" cell_methods) [
  | [] ↦ err index_error
  | method ∷ rest ↦ do
    guard (not (has_any rest)) value_error
    guard (not (ltb 1 (length method.coord_names))) value_error
    ok method
]

abbrev recognised_time_names : List String
recognised_time_names = "time" ∷ "year" ∷ "month" ∷ "day" ∷ "weekday" ∷ "season" ∷ []

-- `cube.cell_methods[-1]` is over one coordinate, with such a name.
unfoldable pub last_over_time : List CubeMethod → Bool
last_over_time [] = false
last_over_time (method ∷ []) = elim method.coord_names [
  | [] ↦ false
  | name ∷ more ↦ if has_any more then false else contains recognised_time_names name
]
last_over_time (method ∷ next ∷ rest) = last_over_time (next ∷ rest)

module _ {F : Type 0} where
  unfoldable pub cube_is_time_statistic : Cube F → Bool
  cube_is_time_statistic cube =
      has_coord cube "percentile_over_time" || last_over_time cube.cell_methods

  abbrev pub numbered : ℕ → Keys F → Keys F
  numbered template grib = put "productDefinitionTemplateNumber" (pos template) grib

module _ {F : Type 0} (x : Externals F) (e : Encoding F) (table : Dict CfGrib2Key CfGrib2Data) where
  -- The only point of the only coordinate of that name, as an int.
  unfoldable pub single_point : Cube F → String → Result ℤ
  single_point cube name = do
    guard (has_coord cube name) value_error
    coord ← get_coord cube name
    point ← only value_error coord.points
    e.truncate point

  unfoldable pub set_ensemble : Cube F → Keys F → Result (Keys F)
  set_ensemble cube grib = do
    realization ← single_point cube "realization"
    ok (
        put "typeOfEnsembleForecast" (pos 255)
          (put "numberOfForecastsInEnsemble" (pos 255) (put "perturbationNumber" realization grib)))

  unfoldable pub product_definition_template_common :
      Cube F → Option (FullCube F) → Keys F → Result (Keys F)
  product_definition_template_common cube full grib = do
    let identified = set_discipline_and_parameter table cube grib
    let processed =
        put "generatingProcessIdentifier" (pos 255)
          (put "backgroundProcess" (pos 255) (put "typeOfGeneratingProcess" (pos 255) identified))
    timed ← set_forecast_time x e cube processed
    set_fixed_surfaces x e cube full timed

  unfoldable pub save_template_0 : Cube F → Option (FullCube F) → Keys F → Result (Keys F)
  save_template_0 cube full grib = product_definition_template_common cube full (numbered 0 grib)

  unfoldable pub save_template_1 : Cube F → Option (FullCube F) → Keys F → Result (Keys F)
  save_template_1 cube full grib = do
    common ← product_definition_template_common cube full (numbered 1 grib)
    set_ensemble cube common

  unfoldable pub save_template_6 : Cube F → Option (FullCube F) → Keys F → Result (Keys F)
  save_template_6 cube full grib = do
    common ← product_definition_template_common cube full (numbered 6 grib)
    percentile ← single_point cube "percentile"
    ok (put "percentileValue" percentile common)

  unfoldable pub put_end : DateFields → Keys F → Keys F
  put_end end grib = put "secondOfEndOfOverallTimeInterval" (pos end.second) (
      put "minuteOfEndOfOverallTimeInterval" (pos end.minute) (
        put "hourOfEndOfOverallTimeInterval" (pos end.hour) (
          put "dayOfEndOfOverallTimeInterval" (pos end.day) (
            put "monthOfEndOfOverallTimeInterval" (pos end.month)
              (put "yearOfEndOfOverallTimeInterval" (pos end.year) grib)))))

  -- The statistic, where there are cell methods.
  unfoldable pub set_statistic : List CubeMethod → Keys F → Result (Keys F)
  set_statistic [] grib = ok grib
  set_statistic (first ∷ rest) grib = do
    cell_method ← only value_error (methods_over "time" (first ∷ rest))
    guard (not (ltb 1 (length cell_method.coord_names))) value_error
    set_time_increment x e cell_method (
        put "typeOfStatisticalProcessing"
          (pos (elim (lookup cell_method.method statistic_type_names_inverted) [
            | none ↦ 255
            | some code ↦ code
          ]))
          grib)

  -- `_product_definition_template_8_10_and_11`, which is called without the full cube.
  unfoldable pub save_template_8_10_and_11 : Cube F → Keys F → Result (Keys F)
  save_template_8_10_and_11 cube grib = do
    common ← product_definition_template_common cube none grib
    time_coord ← get_coord cube "time"
    (start, end) ← time_bounds x e time_coord
    date ← x.num2date time_coord.units end
    let ended = put_end (e.date_fields date) common
    let ranges =
        put "numberOfMissingInStatisticalProcess" (pos 0) (put "numberOfTimeRange" (pos 1) ended)
    ranged ← set_time_range x e time_coord ranges
    set_statistic cube.cell_methods ranged

  unfoldable pub save_template_8 : Cube F → Keys F → Result (Keys F)
  save_template_8 cube grib = save_template_8_10_and_11 cube (numbered 8 grib)

  unfoldable pub save_template_10 : Cube F → Keys F → Result (Keys F)
  save_template_10 cube grib = do
    percentile ← single_point cube "percentile_over_time"
    save_template_8_10_and_11 cube (put "percentileValue" percentile (numbered 10 grib))

  unfoldable pub save_template_11 : Cube F → Keys F → Result (Keys F)
  save_template_11 cube grib = do
    member ← set_ensemble cube (numbered 11 grib)
    save_template_8_10_and_11 cube member

  -- `cube.attributes[key]`
  abbrev attribute : Cube F → String → Result (Value F)
  attribute cube key = elim (lookup key cube.attributes) [ none ↦ err key_error | some v ↦ ok v ]

  unfoldable pub spatial_code : Value F → Result ℕ
  spatial_code (string text) = get_spatial_process_code text
  spatial_code v = err translation_error

  -- The statistical process of a type of spatial processing, where it has one.
  unfoldable pub statistical_process : InterpolationParameters → List CubeMethod → Result (Option ℕ)
  statistical_process parameters cell_methods = elim parameters.statistical_process [
    | none ↦ ok none
    | some kind ↦ do
      method ← spatial_statistic cell_methods
      code ← statistical_method_code method.method
      ok (some code)
  ]

  unfoldable pub put_process : Option ℕ → Keys F → Keys F
  put_process none grib = grib
  put_process (some code) grib = put "statisticalProcess" (pos code) grib

  -- The spatial processing of that code, with what the table holds of it.
  unfoldable pub save_processing :
      ℕ → Option InterpolationParameters → Cube F → Option (FullCube F) → Keys F → Result (Keys F)
  save_processing spatial_processing none cube full grib = err key_error
  save_processing spatial_processing (some parameters) cube full grib = do
    process ← statistical_process parameters cube.cell_methods
    common ← product_definition_template_common cube full (numbered 15 grib)
    ok (
        put_process process (
          put "numberOfPointsUsed" (pos parameters.number_of_points_used)
            (put "spatialProcessing" (pos spatial_processing) common)))

  unfoldable pub save_template_15 : Cube F → Option (FullCube F) → Keys F → Result (Keys F)
  save_template_15 cube full grib = do
    type ← attribute cube "spatial_processing_type"
    spatial_processing ← spatial_code type
    save_processing spatial_processing (lookup spatial_processing spatial_processing_types) cube
        full grib

  unfoldable pub save_template_40 : Cube F → Keys F → Result (Keys F)
  save_template_40 cube grib = do
    common ← product_definition_template_common cube none (numbered 40 grib)
    constituent_type ← attribute cube "WMO_constituent_type"
    ok (insert "constituentType" constituent_type common)

  abbrev pub has_attribute : Cube F → String → Bool
  has_attribute cube key = contains (keys cube.attributes) key

  unfoldable pub save_product_definition_section :
      Cube F → Option (FullCube F) → Keys F → Result (Keys F)
  save_product_definition_section cube full grib = do
    time_coord ← get_coord cube "time"
    if not (has_bounds time_coord)
        then (if has_coord cube "realization"
            then save_template_1 cube full grib
            else if has_attribute cube "WMO_constituent_type"
            then save_template_40 cube grib
            else if has_attribute cube "spatial_processing_type"
            then save_template_15 cube full grib
            else if has_coord cube "percentile"
            then save_template_6 cube full grib
            else save_template_0 cube full grib)
        else if cube_is_time_statistic cube
        then (if has_coord cube "realization"
            then save_template_11 cube grib
            else if has_coord cube "percentile_over_time"
            then save_template_10 cube grib
            else save_template_8 cube grib)
        else err translation_error
