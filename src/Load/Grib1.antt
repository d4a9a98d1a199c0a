-- ===== src/Load/Grib1.antt =====
-- _grib1_load_rules.py: the translation of a GRIB1 message. The attributes of the GribWrapper that it
-- reads are the fields of a record.
pub mod Axes
pub mod Statistics
pub mod Layout
use gribbi.Base.{
  ℕ, zero, suc, ◌+◌, ◌-◌, ◌*◌, ◌/◌, ◌%◌, ◌^◌, ◌≤◌, ◌<◌, String, ◌≡◌, refl, sym, ap, ◌∙◌, subst, ◌≢◌,
  ◌↔◌, ◌⊎◌, inl, inr, Bool, true, false, not, ◌&&◌, ◌||◌, Option, none, some, List, [], ◌∷◌, ◌++◌,
  map, append-nil, append_assoc, arith, ltb, leb, ◌==◌, if◌then◌else◌, ltb→lt, lt→ltb, leb→le,
  ==_iff, Bool-cases, Option-cases, length, get_elem?, set, get_or, take, drop, replicate,
  length-append, length-set, get_elem?-set_self, get_elem?-set_ne, length-replicate, Eq, ◌===◌,
  contains, nat_eq, string_eq, option_eq, pair_eq, Error, translation_error, value_error, key_error,
  type_error, index_error, attribute_error, assertion_error, name_error, zero_division_error,
  codes_error, Result, ok, err, Result-cases, ◌>>=◌, ◌>>◌, guard, is_ok, >>=-eq-ok, Returns,
  Returns-bind,
}
use gribbi.Base.Int.{
  ℤ, pos, negsuc, pos_part, neg_part, sub_ℕ, ◌+ℤ◌, ◌-ℤ◌, ◌*ℤ◌, ltb_ℤ, beq_ℤ, beq_ℤ_iff, int_eq,
  bit_set,
}
use gribbi.Base.Dict.{
  Dict, keys, lookup, insert, lookup-insert, lookup-insert_self, AllValues, AllValues-lookup,
}
use gribbi.Value.{Value, missing, int, real, string, ints, reals, masked, is_nat}
use gribbi.Externals.{Externals}
use gribbi.CoordSystems.{CoordSystem}
use gribbi.Metadata.{
  Coord, Metadata, CellMethod, Factory, FactoryClass, hybrid_pressure, by_long_name, by_reference,
  Attribute, code_attribute, add_aux, scalar,
}
use gribbi.Phenom.{Grib1CfData}
use gribbi.Phenom.Code.{GribCode}
use gribbi.Load.Vertical.{level_number_coord, level_value_coord, sigma_coord, index}
use gribbi.Load.Phenomenon.{set_attribute}
use gribbi.Load.Convert.{empty_metadata}

-- The attributes of grib, without their leading underscore. `has_time` is `_phenomenonDateTime !=
-- -1.0`; `phenomenon_points` and `phenomenon_bounds` are those in hours; `pv` is none where there is
-- no such attribute; `unknown_local_param` is the name that its two numbers are formatted to.
pub record GribWrapper (F : Type 0) : Type 0 where
  pub edition : ℕ
  pub grid_type : String
  pub x_points : Value F
  pub y_points : Value F
  pub x_coord_name : String
  pub y_coord_name : String
  pub coord_system : CoordSystem F
  pub x_circular : Bool
  pub j_points_are_consecutive : Result ℤ
  pub table2_version : ℕ
  pub indicator_of_parameter : ℕ
  pub cf_data : Option Grib1CfData
  pub grib_code : GribCode
  pub unknown_local_param : String
  pub has_time : Bool
  pub start_step : Value F
  pub forecast_time_unit : String
  pub forecast_time : F
  pub phenomenon_points : Result F
  pub phenomenon_bounds : Result (F × F)
  pub time_range_indicator : ℕ
  pub level_type : String
  pub type_of_level : String
  pub level : ℤ
  pub pv : Option (List F)
  pub number_of_coordinates_values : ℕ
  pub originating_centre : String

abbrev is_none : {A : Type 0} → Option A → Bool
is_none none = true
is_none (some a) = false

-- `a or b` of names
abbrev name_or : Option String → Option String → Option String
name_or none other = other
name_or (some name) other = if name === "" then other else some name

abbrev pressure_factory : Factory
pressure_factory = record {
  factory_class = hybrid_pressure;
  args =
      by_long_name "level_pressure" ∷ by_long_name "sigma" ∷ by_reference "surface_pressure" ∷ [];
}

-- Not in (0, 1) is a ValueError.
abbrev pub zero_or_one : ℤ → Result Bool
zero_or_one (pos zero) = ok false
zero_or_one (pos (suc zero)) = ok true
zero_or_one (pos (suc (suc n))) = err value_error
zero_or_one (negsuc n) = err value_error

abbrev pub set_height_of : Option Grib1CfData → Option ℕ
set_height_of none = none
set_height_of (some data_) = data_.set_height

module _ {F : Type 0} where
  abbrev horizontal : GribWrapper F → Bool → Value F → String → String → Bool → Coord F
  horizontal grib is_dim points name units circular =
      record (scalar points (some name) none (some units)) {
        is_dim = is_dim;
        coord_system = some grib.coord_system;
        circular = circular;
      }

  abbrev add_dims : Coord F → ℕ → Coord F → ℕ → Metadata F → Metadata F
  add_dims y y_dim x x_dim m = record m {
    dim_coords_and_dims = m.dim_coords_and_dims ++ ((y, some y_dim) ∷ (x, some x_dim) ∷ []);
  }

  -- A latitude-longitude grid: both axes in degrees, in the order of the points.
  unfoldable pub regular_grid : GribWrapper F → Metadata F → Result (Metadata F)
  regular_grid grib m = do
    value ← grib.j_points_are_consecutive
    consecutive ← zero_or_one value
    ok (
        add_dims (horizontal grib true grib.y_points grib.y_coord_name "degrees" false)
          (if consecutive then 1 else 0)
          (horizontal grib true grib.x_points grib.x_coord_name "degrees" grib.x_circular)
          (if consecutive then 0 else 1) m)

  unfoldable pub add_horizontal : GribWrapper F → Metadata F → Result (Metadata F)
  add_horizontal grib m =
      if grib.grid_type === "reduced_gg"
      then ok (record m {
        aux_coords_and_dims =
            m.aux_coords_and_dims
            ++ ((horizontal grib false grib.y_points grib.y_coord_name "degrees" false, some 0)
                ∷ (horizontal grib false grib.x_points grib.x_coord_name "degrees" false, some 0)
                ∷ []);
      })
      else if contains ("regular_ll" ∷ "rotated_ll" ∷ "regular_gg" ∷ []) grib.grid_type
      then regular_grid grib m
      else if contains ("polar_stereographic" ∷ "lambert" ∷ []) grib.grid_type
      then ok (
          add_dims (horizontal grib true grib.y_points grib.y_coord_name "m" false) 0
            (horizontal grib true grib.x_points grib.x_coord_name "m" false) 1 m)
      else ok m

  -- The name of a parameter that the tables do not hold.
  unfoldable pub default_name : ℕ → String → String → GribWrapper F → Metadata F → Metadata F
  default_name indicator name units grib m =
      if ltb grib.table2_version 128
        && (grib.indicator_of_parameter == indicator)
        && is_none grib.cf_data
      then record m { standard_name = some name; units = some units }
      else m

  unfoldable pub cf_name : Option Grib1CfData → Metadata F → Metadata F
  cf_name none m = m
  cf_name (some data_) m = record m {
    standard_name = data_.standard_name;
    long_name = name_or data_.standard_name data_.long_name;
    units = some data_.units;
  }

  unfoldable pub name_parameter : GribWrapper F → Metadata F → Metadata F
  name_parameter grib m =
      let defaults = default_name 34 "y_wind" "m s-1" grib (
        default_name 33 "x_wind" "m s-1" grib
          (default_name 11 "air_temperature" "kelvin" grib m)) in
      let named =
        set_attribute "GRIB_PARAM" (code_attribute grib.grib_code)
          (cf_name grib.cf_data defaults) in
      if (leb 128 grib.table2_version && is_none grib.cf_data)
        || ((grib.table2_version == 1) && leb 128 grib.indicator_of_parameter)
      then record named { long_name = some grib.unknown_local_param; units = some "???" }
      else named

  -- `DimCoord(..., attributes={"positive": "up"})`
  abbrev upward : Coord F → Coord F
  upward coord = record coord { attributes = ("positive", string "up") ∷ [] }

  abbrev pub height_coord : Value F → Coord F
  height_coord points = upward (scalar points none (some "height") (some "m"))

  -- A surface: at the height that the tables give the parameter, or at the level.
  unfoldable pub add_surface : GribWrapper F → Metadata F → Metadata F
  add_surface grib m = elim (set_height_of grib.cf_data) [
    | none ↦
        if grib.type_of_level === "heightAboveGround"
        then add_aux (height_coord (int grib.level)) m
        else m
    | some height ↦ add_aux (height_coord (int (pos height))) m
  ]

  abbrev pub model_level_coord : Value F → Coord F
  model_level_coord level = record (level_number_coord level) { is_dim = false }

  -- A model level and its two coefficients.
  unfoldable pub add_model_level : GribWrapper F → List F → Metadata F → Result (Metadata F)
  add_model_level grib pv m = do
    level_pressure ← index (map some pv) grib.level
    sigma ← index (map some pv) (pos (grib.number_of_coordinates_values / 2) +ℤ grib.level)
    let done = add_aux (sigma_coord sigma) (
        add_aux (level_value_coord false level_pressure)
          (add_aux (model_level_coord (int grib.level)) m))
    ok (record done { factories = done.factories ++ (pressure_factory ∷ []) })

  unfoldable pub add_vertical : GribWrapper F → Metadata F → Result (Metadata F)
  add_vertical grib m =
      if grib.level_type === "pl"
      then ok (add_aux (scalar (int grib.level) none (some "pressure") (some "hPa")) m)
      else if grib.level_type === "sfc"
      then ok (add_surface grib m)
      else if grib.level_type === "ml"
      then elim grib.pv [ none ↦ ok m | some pv ↦ add_model_level grib pv m ]
      else ok m

  unfoldable pub add_centre : GribWrapper F → Metadata F → Metadata F
  add_centre grib m =
      if grib.originating_centre === "unknown"
      then m
      else add_aux
          (record (scalar (string grib.originating_centre) none (some "originating_centre")
            (some "no_unit")) { is_dim = false })
          m

module _ {F : Type 0} (x : Externals F) where
  unfoldable pub add_times : GribWrapper F → Metadata F → Result (Metadata F)
  add_times grib m =
      if grib.has_time
      then (do
        points ← grib.phenomenon_points
        ok (
            add_aux (scalar (real points) (some "time") none (some "hours since epoch")) (
              add_aux
                (scalar grib.start_step (some "forecast_period") none
                  (some grib.forecast_time_unit))
                m)))
      else ok m

  unfoldable pub add_bounded_time_coords : GribWrapper F → Metadata F → Result (Metadata F)
  add_bounded_time_coords grib m = do
    (start, end) ← grib.phenomenon_bounds
    let period = x.sub end start
    let forecast =
        record (scalar (real (x.add grib.forecast_time (x.mul x.half period)))
          (some "forecast_period") none (some "hours")) {
            bounds = real grib.forecast_time ∷ real (x.add grib.forecast_time period) ∷ [];
          }
    let time =
        record (scalar (real (x.mul x.half (x.add start end))) (some "time") none
          (some "hours since epoch")) { bounds = real start ∷ real end ∷ [] }
    ok (add_aux time (add_aux forecast m))

  abbrev pub over_time : String → Metadata F → Metadata F
  over_time method m = record m {
    cell_methods =
        m.cell_methods ++ (record { method = method; coords = "time" ∷ []; intervals = none } ∷ []);
  }

  -- `if grib.timeRangeIndicator == indicator: ...`
  unfoldable pub when_indicator : ℕ → String → GribWrapper F → Metadata F → Result (Metadata F)
  when_indicator indicator method grib m =
      if grib.time_range_indicator == indicator
      then (do bounded ← add_bounded_time_coords grib m; ok (over_time method bounded))
      else ok m

  -- The fourteen statements on the indicator, of which the first adds no cell method.
  unfoldable pub add_statistics : GribWrapper F → Metadata F → Result (Metadata F)
  add_statistics grib m = do
    m2 ← if grib.time_range_indicator == 2 then add_bounded_time_coords grib m else ok m
    m3 ← when_indicator 3 "mean" grib m2
    m4 ← when_indicator 4 "sum" grib m3
    m5 ← when_indicator 5 "_difference" grib m4
    m51 ← when_indicator 51 "mean" grib m5
    m113 ← when_indicator 113 "mean" grib m51
    m114 ← when_indicator 114 "sum" grib m113
    m115 ← when_indicator 115 "mean" grib m114
    m116 ← when_indicator 116 "sum" grib m115
    m117 ← when_indicator 117 "mean" grib m116
    m118 ← when_indicator 118 "_covariance" grib m117
    m123 ← when_indicator 123 "mean" grib m118
    m124 ← when_indicator 124 "sum" grib m123
    when_indicator 125 "standard_deviation" grib m124

  unfoldable pub grib1_convert : GribWrapper F → Result (Metadata F)
  grib1_convert grib = do
    guard (grib.edition == 1) translation_error
    gridded ← add_horizontal grib empty_metadata
    timed ← add_times grib (name_parameter grib gridded)
    summarised ← add_statistics grib timed
    levelled ← add_vertical grib summarised
    ok (add_centre grib levelled)
