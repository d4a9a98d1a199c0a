-- ===== src/Load/Product.antt =====
-- Section 4 of _load_convert.py: the product definition templates and their dispatch. Each takes
-- the metadata and returns it updated; an exception leaves no metadata, since `convert` drops it.
pub mod Grows
pub mod Frame
pub mod Templates
pub mod Appends
use gribbi.Base.{
  ℕ, zero, suc, ◌+◌, ◌-◌, ◌*◌, ◌/◌, ◌%◌, ◌^◌, ◌≤◌, ◌<◌, String, ◌≡◌, refl, sym, ap, ◌∙◌, subst, ◌≢◌,
  ◌↔◌, ◌⊎◌, inl, inr, Bool, true, false, not, ◌&&◌, ◌||◌, Option, none, some, List, [], ◌∷◌, ◌++◌,
  map, append-nil, append_assoc, arith, ltb, leb, ◌==◌, if◌then◌else◌, ltb→lt, lt→ltb, leb→le,
  ==_iff, Bool-cases, Option-cases, length, get_elem?, set, get_or, take, drop, replicate,
  length-append, length-set, get_elem?-set_self, get_elem?-set_ne, length-replicate, Eq, ◌===◌,
  contains, nat_eq, string_eq, option_eq, pair_eq, Error, translation_error, value_error, key_error,
  type_error, index_error, attribute_error, assertion_error, name_error, codes_error, Result, ok,
  err, Result-cases, ◌>>=◌, ◌>>◌, guard, is_ok, >>=-eq-ok, Returns, Returns-bind,
}
use gribbi.Base.Int.{
  ℤ, pos, negsuc, pos_part, neg_part, sub_ℕ, ◌+ℤ◌, ◌-ℤ◌, ◌*ℤ◌, ltb_ℤ, beq_ℤ, beq_ℤ_iff, int_eq,
  bit_set,
}
use gribbi.Base.Dict.{
  Dict, keys, lookup, insert, lookup-insert, lookup-insert_self, AllValues, AllValues-lookup,
}
use gribbi.Value.{Value, missing, int, real, string, ints, reals, masked, is_nat}
use gribbi.Value.{Reader, get_int, as_int, is_one_of}
use gribbi.Externals.{Externals}
use gribbi.Metadata.{Coord, CellMethod, Metadata, Attribute, plain, add_aux, scalar}
use gribbi.Phenom.{Grib1CfData, Grib2CfKey}
use gribbi.Tables.{InterpolationParameters, spatial_processing_types, lookup_value}
use gribbi.Load.Scaling.{unscale}
use gribbi.Load.Vertical.{vertical_coords}
use gribbi.Load.Time.{time_coords, statistical_forecast_period_coord, validity_time_coord}
use gribbi.Load.Statistics.{
  Probability, probability_type, statistical_cell_method, statistical_method_name,
  ensemble_identifier,
}
use gribbi.Load.Phenomenon.{translate_phenomenon, set_attribute}

-- Code table 1.0: the tables of a local version only.
abbrev pub code_tables_missing : ℕ
code_tables_missing = 255

abbrev pub Template : Type 0 → Type 0
Template F = Reader F → Coord F → Metadata F → Result (Metadata F)

module _ {F : Type 0} where
  -- `data_cutoff(section[...], section[...])` only warns: what is left is the two reads.
  abbrev data_cutoff : Reader F → Result (Unit {0})
  data_cutoff section = do
    _ ← section.get "hoursAfterDataCutoff"
    _ ← section.get "minutesAfterDataCutoff"
    ok tt

  -- The scalar coordinate of a percentile.
  abbrev add_percentile : Reader F → String → String → Metadata F → Result (Metadata F)
  add_percentile section long_name units m = do
    value ← section.get "percentileValue"
    ok (add_aux (scalar value none (some long_name) (some units)) m)

  abbrev add_realization : Reader F → Metadata F → Result (Metadata F)
  add_realization section m = do
    realization ← ensemble_identifier section
    ok (add_aux realization m)

  abbrev auxiliary : Value F → Option String → Option String → String → Coord F
  auxiliary value standard_name long_name units =
      record (scalar value standard_name long_name (some units)) { is_dim = false }

  -- `coord.name() != "time"`: a coordinate of the reference time has a standard name.
  abbrev is_time_coord : Coord F → Bool
  is_time_coord coord = coord.standard_name === some "time"

  -- `(cell_method,) = metadata["cell_methods"]`, and the reset behind it.
  abbrev pub drop_cell_method : Metadata F → Result (Metadata F)
  drop_cell_method m = elim m.cell_methods [
    | [] ↦ err value_error
    | c ∷ rest ↦ elim rest [ [] ↦ ok (record m { cell_methods = [] }) | d ∷ more ↦ err value_error ]
  ]

  -- An 'area' cell method where the type of processing has a statistic.
  abbrev pub add_area_method : Reader F → InterpolationParameters → Metadata F → Result (Metadata F)
  add_area_method section p m =
      if p.statistical_process === some "cell_method"
      then (do
        name ← statistical_method_name section
        ok (record m {
          cell_methods = record { method = name; coords = "area" ∷ []; intervals = none } ∷ [];
        }))
      else ok m

  -- A template that gives no probability.
  abbrev pub without_probability :
      Result (Metadata F) → Result (Option (Probability F) × Metadata F)
  without_probability r = do m ← r; ok (none, m)

module _ {F : Type 0} (x : Externals F) where
  unfoldable pub product_definition_template_0 : Template F
  product_definition_template_0 section rt_coord m = do
    data_cutoff section
    timed ← time_coords x section rt_coord m
    vertical_coords x section timed

  unfoldable pub product_definition_template_1 : Template F
  product_definition_template_1 section frt_coord m = do
    common ← product_definition_template_0 section frt_coord m
    add_realization section common

  unfoldable pub product_definition_template_6 : Template F
  product_definition_template_6 section frt_coord m = do
    common ← product_definition_template_0 section frt_coord m
    add_percentile section "percentile" "%" common

  unfoldable pub product_definition_template_8 : Template F
  product_definition_template_8 section frt_coord m = do
    data_cutoff section
    cell_method ← statistical_cell_method section
    fp_coord ← statistical_forecast_period_coord x section frt_coord
    t_coord ← validity_time_coord x frt_coord fp_coord
    let stated = record m { cell_methods = m.cell_methods ++ (cell_method ∷ []) }
    let referred = if is_time_coord frt_coord then stated else add_aux frt_coord stated
    vertical_coords x section (add_aux t_coord (add_aux fp_coord referred))

  unfoldable pub product_definition_template_9 :
      Reader F → Coord F → Metadata F → Result (Probability F × Metadata F)
  product_definition_template_9 section frt_coord m = do
    common ← product_definition_template_8 section frt_coord m
    cleared ← drop_cell_method common
    probability ← probability_type x section
    ok (probability, cleared)

  unfoldable pub product_definition_template_10 : Template F
  product_definition_template_10 section frt_coord m = do
    common ← product_definition_template_8 section frt_coord m
    add_percentile section "percentile_over_time" "no_unit" common

  unfoldable pub product_definition_template_11 : Template F
  product_definition_template_11 section frt_coord m = do
    common ← product_definition_template_8 section frt_coord m
    add_realization section common

  unfoldable pub product_definition_template_15 : Template F
  product_definition_template_15 section frt_coord m = do
    code ← section.get "spatialProcessing"
    elim (lookup_value code spatial_processing_types) [
      | none ↦ err translation_error
      | some p ↦ do
        common ← product_definition_template_0 section frt_coord m
        add_area_method section p
            (set_attribute "spatial_processing_type" (plain (string p.interpolation_type)) common)
    ]

  unfoldable pub satellite_common : Reader F → Metadata F → Result (Metadata F)
  satellite_common section m = do
    nb ← get_int section "NB"
    if ltb_ℤ (pos 0) nb
        then (do
          series ← section.get "satelliteSeries"
          number ← section.get "satelliteNumber"
          instrument ← section.get "instrumentType"
          factor ← section.get "scaleFactorOfCentralWaveNumber"
          value ← section.get "scaledValueOfCentralWaveNumber"
          wave_number ← unscale x value factor
          ok (
              add_aux
                (auxiliary wave_number (some "sensor_band_central_radiation_wavenumber") none "m-1")
                (add_aux (auxiliary instrument none (some "instrument_type") "1") (
                  add_aux (auxiliary number none (some "satellite_number") "1")
                    (add_aux (auxiliary series none (some "satellite_series") "1") m)))))
        else ok m

  unfoldable pub product_definition_template_31 : Template F
  product_definition_template_31 section rt_coord m = do
    common ← satellite_common section m
    ok (add_aux rt_coord common)

  unfoldable pub product_definition_template_32 : Template F
  product_definition_template_32 section rt_coord m = do
    data_cutoff section
    timed ← time_coords x section rt_coord m
    satellite_common section timed

  unfoldable pub product_definition_template_40 : Template F
  product_definition_template_40 section frt_coord m = do
    common ← product_definition_template_0 section frt_coord m
    constituent ← section.get "constituentType"
    ok (set_attribute "WMO_constituent_type" (plain constituent) common)

  -- The choice of a template.
  unfoldable pub apply_template :
      Value F → Reader F → Coord F → Metadata F → Result (Option (Probability F) × Metadata F)
  apply_template template section rt_coord m =
      if is_nat template 0
      then without_probability (product_definition_template_0 section rt_coord m)
      else if is_nat template 1
      then without_probability (product_definition_template_1 section rt_coord m)
      else if is_nat template 6
      then without_probability (product_definition_template_6 section rt_coord m)
      else if is_nat template 8
      then without_probability (product_definition_template_8 section rt_coord m)
      else if is_nat template 9
      then (do
        (probability, done) ← product_definition_template_9 section rt_coord m
        ok (some probability, done))
      else if is_nat template 10
      then without_probability (product_definition_template_10 section rt_coord m)
      else if is_nat template 11
      then without_probability (product_definition_template_11 section rt_coord m)
      else if is_nat template 15
      then without_probability (product_definition_template_15 section rt_coord m)
      else if is_nat template 31
      then without_probability (product_definition_template_31 section rt_coord m)
      else if is_nat template 32
      then without_probability (product_definition_template_32 section rt_coord m)
      else if is_nat template 40
      then without_probability (product_definition_template_40 section rt_coord m)
      else err translation_error

  -- A key of the fixed surfaces, which the satellite templates do not have.
  abbrev surface_key : Reader F → Bool → String → Result (Value F)
  surface_key section includes key = if includes then section.get key else ok missing

  -- The call of `translate_phenomenon`, with its arguments.
  unfoldable pub translate_parameter :
      Dict Grib2CfKey Grib1CfData
      → Reader F
      → Value F
      → Bool
      → Option (Probability F)
      → Metadata F
      → Result (Metadata F)
  translate_parameter table section discipline includes probability m = do
    category ← section.get "parameterCategory"
    number ← section.get "parameterNumber"
    first_type ← surface_key section includes "typeOfFirstFixedSurface"
    first_value ← surface_key section includes "scaledValueOfFirstFixedSurface"
    second_type ← surface_key section includes "typeOfSecondFixedSurface"
    translate_phenomenon table discipline category number first_type first_value second_type
        probability m

  unfoldable pub product_definition_section :
      Dict Grib2CfKey Grib1CfData
      → Reader F
      → Value F
      → Value F
      → Coord F
      → Metadata F
      → Result (Metadata F)
  product_definition_section table section discipline tables_version rt_coord m = do
    template ← section.get "productDefinitionTemplateNumber"
    (probability, done) ← apply_template template section rt_coord m
    if is_nat tables_version code_tables_missing
        then ok done
        else translate_parameter table section discipline
            (not (is_nat template 31 || is_nat template 32)) probability done
