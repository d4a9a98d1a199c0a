-- ===== src/Load/Statistics.antt =====
-- The cell methods, ensemble members and probabilities of _load_convert.py.
use gribbi.Base.{
  String, not, ◌||◌, Option, none, some, [], ◌∷◌, if◌then◌else◌, nat_eq, string_eq, option_eq,
  pair_eq, translation_error, value_error, key_error, Result, ok, err, ◌>>=◌, ◌>>◌, guard,
}
use gribbi.Base.Int.{int_eq}
use gribbi.Value.{Value, is_nat}
use gribbi.Value.{Reader, is_one_of}
use gribbi.Externals.{Externals}
use gribbi.Metadata.{Coord, CellMethod, scalar}
use gribbi.Tables.{time_range_units, time_range_missing, statistic_type_names, lookup_value}
use gribbi.Load.Scaling.{unscale, is_missing}

module _ {F : Type 0} where
  -- The key of the statistic, which depends on the template.
  abbrev pub statistic_key : Value F → Result String
  statistic_key template =
      if is_one_of template (8 ∷ 9 ∷ 10 ∷ 11 ∷ [])
      then ok "typeOfStatisticalProcessing"
      else if is_nat template 15
      then ok "statisticalProcess"
      else err value_error

  unfoldable pub statistical_method_name : Reader F → Result String
  statistical_method_name section = do
    template ← section.get "productDefinitionTemplateNumber"
    key ← statistic_key template
    code ← section.get key
    elim (lookup_value code statistic_type_names) [
      | none ↦ err translation_error
      | some name ↦ ok name
    ]

  -- The interval "{n} {units}", if one is given.
  unfoldable pub intervals_string : Reader F → Result (Option (Value F × String))
  intervals_string section = do
    number ← section.get "timeIncrement"
    if is_nat number 0 || is_nat number time_range_missing then ok none else do
      code ← section.get "indicatorOfUnitForTimeIncrement"
      elim (lookup_value code time_range_units) [
        | none ↦ err key_error
        | some units ↦ ok (some (number, units))
      ]

  unfoldable pub statistical_cell_method : Reader F → Result (CellMethod F)
  statistical_cell_method section = do
    ranges ← section.get "numberOfTimeRange"
    guard (is_nat ranges 1) translation_error
    name ← statistical_method_name section
    increment ← section.get "typeOfTimeIncrement"
    guard (is_one_of increment (2 ∷ 255 ∷ [])) translation_error
    intervals ← intervals_string section
    ok (record { method = name; coords = "time" ∷ []; intervals = intervals })

  unfoldable pub ensemble_identifier : Reader F → Result (Coord F)
  ensemble_identifier section = do
    number ← section.get "perturbationNumber"
    ok (scalar number (some "realization") none (some "no_unit"))

-- Probability(probability_type_name, threshold)
pub record Probability (F : Type 0) : Type 0 where
  pub probability_type_name : String
  pub threshold : Value F

module _ {F : Type 0} (x : Externals F) where
  -- The end of `product_definition_template_9`.
  unfoldable pub probability_type : Reader F → Result (Probability F)
  probability_type section = do
    typecode ← section.get "probabilityType"
    guard (is_nat typecode 1) translation_error
    value ← section.get "scaledValueOfUpperLimit"
    guard (not (is_missing value)) translation_error
    scaling ← section.get "scaleFactorOfUpperLimit"
    guard (not (is_missing scaling)) translation_error
    threshold ← unscale x value scaling
    ok (record { probability_type_name = "above_threshold"; threshold = threshold })
