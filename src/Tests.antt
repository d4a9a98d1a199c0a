-- ===== src/Tests.antt =====
-- A model of floats and times over the integers, and sections with given values, for the tests.
pub mod Convert
pub mod Grid
pub mod Grib1
pub mod Product
pub mod Message
pub mod Data
pub mod Phenom
pub mod Save
pub mod Saving
pub mod Shape
pub mod Codes
use gribbi.Base.{
  ℕ, zero, suc, ◌+◌, ◌-◌, ◌*◌, ◌/◌, ◌%◌, ◌^◌, ◌≤◌, ◌<◌, String, ◌≡◌, refl, sym, ap, ◌∙◌, subst, ◌≢◌,
  ◌↔◌, ◌⊎◌, inl, inr, Bool, true, false, not, ◌&&◌, ◌||◌, Option, none, some, List, [], ◌∷◌, ◌++◌,
  map, append-nil, append_assoc, arith, ltb, leb, ◌==◌, if◌then◌else◌, ltb→lt, lt→ltb, leb→le,
  ==_iff, Bool-cases, Option-cases, length, get_elem?, set, get_or, take, drop, replicate,
  length-append, length-set, get_elem?-set_self, get_elem?-set_ne, length-replicate, Eq, ◌===◌,
  contains, nat_eq, string_eq, option_eq, pair_eq, Error, translation_error, value_error, key_error,
  type_error, index_error, attribute_error, assertion_error, name_error, codes_error, Result, ok,
  err, Result-cases, ◌>>=◌, ◌>>◌, guard, is_ok, >>=-eq-ok, Returns, Returns-bind,
}
use gribbi.Base.Int.{
  ℤ, pos, negsuc, pos_part, neg_part, sub_ℕ, ◌+ℤ◌, ◌-ℤ◌, ◌*ℤ◌, ltb_ℤ, beq_ℤ, beq_ℤ_iff, int_eq,
  bit_set,
}
use gribbi.Base.Dict.{
  Dict, keys, lookup, insert, lookup-insert, lookup-insert_self, AllValues, AllValues-lookup,
}
use gribbi.Value.{Value, missing, int, real, string, ints, reals, masked, is_nat}
use gribbi.Value.{Reader}
use gribbi.Externals.{Externals}
use gribbi.Metadata.{Coord, scalar}
use gribbi.Save.Cube.{Encoding, Cube, CubeCoord, param_numbers}
use gribbi.Load.Grid.Points.{Geometry}

-- Integers for floats; every unit is the same, and a time is its hour.
abbrev pub whole : Externals ℤ
whole = record {
  half = pos 0;
  of_int = λ n. n;
  add = λ a b. a +ℤ b;
  sub = λ a b. a -ℤ b;
  mul = λ a b. a *ℤ b;
  div = λ a b. a;
  pow10 = λ a. a;
  convert = λ from value to. ok value;
  is_time_reference = λ unit. unit === "hours since epoch";
  is_time = λ unit. unit === "hours";
  num2date = λ unit value. ok value;
  date2num = λ unit date. date;
  datetime = λ year month day hour minute second. ok hour;
  timedelta = λ seconds. seconds;
  total_seconds = λ delta. delta;
}

-- Integers for the floats of the grids: a literal is one, and every quotient is the dividend.
abbrev pub flat : Geometry ℤ
flat = record {
  literal = λ text. pos 1;
  infinity = pos 0;
  negate = λ a. pos 0 -ℤ a;
  modulo = λ a b. a;
  fmod = λ a b. a;
  divide = λ a b. ok a;
  equal = λ a b. beq_ℤ a b;
  asin = λ a. ok a;
  acos = λ a. ok a;
  atan = λ a. a;
  sin = λ a. a;
  linspace = λ first last n. replicate n first;
  sort = λ items. items;
  is_circular = λ points modulus. false;
  semi_major_axis = λ figure. pos 6371229;
  semi_minor_axis = λ figure. pos 6371229;
  transform_point = λ cs longitude latitude. (longitude, latitude);
}

-- Integers for the floats that are saved.
abbrev pub exact : Encoding ℤ
exact = record {
  truncate = λ a. ok a;
  round = λ a. ok a;
  equal = λ a b. beq_ℤ a b;
  as_float32 = λ a. a;
  zero_value = pos 0;
  hours_since = λ unit. "hours since epoch";
  same_unit = λ unit other. unit === other;
  date_fields =
      λ date. record { year = 2020; month = 1; day = 1; hour = 6; minute = 0; second = 0 };
  split = λ text. [];
  parse_float = λ text. err value_error;
}

-- A coordinate with one point and no bounds.
abbrev pub cube_coord : String → ℕ → String → CubeCoord ℤ
cube_coord name point units = record {
  name = name;
  points = pos point ∷ [];
  bounds = [];
  units = units;
  attributes = [];
  is_vertical = false;
}

-- A cube at a height of 10 m, three hours behind its reference time.
abbrev pub height_cube : Cube ℤ
height_cube = record {
  coords =
      cube_coord "height" 10 "m"
      ∷ cube_coord "forecast_period" 3 "hours"
      ∷ cube_coord "time" 9 "hours since epoch"
      ∷ [];
  standard_name = some "air_temperature";
  long_name = none;
  attributes = [];
  cell_methods = [];
  hybrid_factories = [];
  grib_param = some (param_numbers (2 ∷ 0 ∷ 0 ∷ 5 ∷ []));
}

abbrev pub known : {F : Type 0} → Dict String (Value F) → Reader F
known values = record {
  get = λ key. elim (lookup key values) [ none ↦ err key_error | some v ↦ ok v ];
  has_key = λ key. contains (keys values) key;
  get_computed_key = λ key. err key_error;
}

abbrev pub number : ℕ → Value ℤ
number n = int (pos n)

-- Section 3 of a message of three longitudes and two latitudes, from (2, 40) on in steps of 5.
abbrev pub lat_lon_grid : Reader ℤ
lat_lon_grid = known (
    ("sourceOfGridDefinition", number 0)
    ∷ ("gridDefinitionTemplateNumber", number 0)
    ∷ ("shapeOfTheEarth", number 6)
    ∷ ("scaledValueOfEarthMajorAxis", missing)
    ∷ ("scaleFactorOfEarthMajorAxis", missing)
    ∷ ("scaledValueOfEarthMinorAxis", missing)
    ∷ ("scaleFactorOfEarthMinorAxis", missing)
    ∷ ("scaledValueOfRadiusOfSphericalEarth", missing)
    ∷ ("scaleFactorOfRadiusOfSphericalEarth", missing)
    ∷ ("numberOfOctectsForNumberOfPoints", number 0)
    ∷ ("interpretationOfNumberOfPoints", number 0)
    ∷ ("scanningMode", number 64)
    ∷ ("resolutionAndComponentFlags", number 48)
    ∷ ("iDirectionIncrement", number 5)
    ∷ ("jDirectionIncrement", number 5)
    ∷ ("longitudeOfFirstGridPoint", number 2)
    ∷ ("latitudeOfFirstGridPoint", number 40)
    ∷ ("Ni", number 3)
    ∷ ("Nj", number 2)
    ∷ [])

abbrev pub reference : Coord ℤ
reference = scalar (real (pos 6)) (some "forecast_reference_time") none (some "hours since epoch")

-- What is in a result, with something for an exception.
abbrev pub result_or : {A : Type 0} → A → Result A → A
result_or a (ok b) = b
result_or a (err e) = a
