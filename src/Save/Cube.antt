-- ===== src/Save/Cube.antt =====
-- What the save rules ask of a cube, and of Python and numpy for the numbers they write.
use gribbi.Base.{
  ℕ, String, Bool, true, false, Option, List, [], ◌∷◌, if◌then◌else◌, ◌===◌, nat_eq, string_eq,
  option_eq, pair_eq, Error, key_error, index_error, Result, ok, err,
}
use gribbi.Base.Int.{ℤ, int_eq}
use gribbi.Base.Dict.{Dict}
use gribbi.Value.{Value}
use gribbi.Metadata.{FactoryClass}
use gribbi.Phenom.Code.{GribCode, Text}

-- A coordinate of a two-dimensional cube, by its name(). `bounds` has a list for each point, and is
-- empty where there are none; `is_vertical` is that coords(axis="z") finds it.
pub record CubeCoord (F : Type 0) : Type 0 where
  pub name : String
  pub points : List F
  pub bounds : List (List F)
  pub units : String
  pub attributes : Dict String (Value F)
  pub is_vertical : Bool

pub record CubeMethod : Type 0 where
  pub method : String
  pub coord_names : List String
  pub intervals : Option (List String)

-- A factory of the full cube: its class, where it is one of the two, and the points of its delta
-- and its sigma.
pub record FullFactory (F : Type 0) : Type 0 where
  pub factory_class : Option FactoryClass
  pub delta : List F
  pub sigma : List F

-- What is asked of full3d_cube: aux_factory(name), and the points of coord("model_level_number"),
-- which are none where they are not integers.
pub record FullCube (F : Type 0) : Type 0 where
  pub aux_factory : String → Result (FullFactory F)
  pub model_levels : Result (Option (List ℤ))

-- The attribute "GRIB_PARAM", where a cube has it: a text, a GRIBCode, or a tuple of natural
-- numbers.
pub data GribParam : Type 0 where
  param_text : Text → GribParam
  param_code : GribCode → GribParam
  param_numbers : List ℕ → GribParam

-- `hybrid_factories` has the name() of each factory of the cube for hybrid height or pressure.
pub record Cube (F : Type 0) : Type 0 where
  pub coords : List (CubeCoord F)
  pub standard_name : Option String
  pub long_name : Option String
  pub attributes : Dict String (Value F)
  pub cell_methods : List CubeMethod
  pub hybrid_factories : List String
  pub grib_param : Option GribParam

pub record DateFields : Type 0 where
  pub year : ℕ
  pub month : ℕ
  pub day : ℕ
  pub hour : ℕ
  pub minute : ℕ
  pub second : ℕ

-- Python's int() and round() of floats, which raise for nan and infinity, the tests `a != 0` and
-- `a == b`, the words of a text, and float() of one.
pub record Encoding (F : Type 0) : Type 0 where
  pub truncate : F → Result ℤ
  pub round : F → Result ℤ
  pub equal : F → F → Bool
  pub as_float32 : F → F
  pub zero_value : F
  -- Unit("hours since epoch", calendar=Unit(a).calendar), and Unit(a) == Unit(b)
  pub hours_since : String → String
  pub same_unit : String → String → Bool
  -- the attributes of a datetime
  pub date_fields : ℤ → DateFields
  -- text.split(), and float(text), which raises a ValueError
  pub split : String → List String
  pub parse_float : String → Result F

abbrev pub has_any : {A : Type 0} → List A → Bool
has_any [] = false
has_any (a ∷ rest) = true

-- The only element. iris' CoordinateNotFoundError is a KeyError.
abbrev pub only : {A : Type 0} → Error → List A → Result A
only e [] = err e
only e (a ∷ []) = ok a
only e (a ∷ b ∷ rest) = err e

-- `items[0]`
abbrev pub first_of : {A : Type 0} → List A → Result A
first_of [] = err index_error
first_of (a ∷ rest) = ok a

-- `row[0]` and `row[1]`
abbrev pub pair_of : {A : Type 0} → List A → Result (A × A)
pair_of [] = err index_error
pair_of (a ∷ []) = err index_error
pair_of (a ∷ b ∷ rest) = ok (a, b)

module _ {F : Type 0} where
  -- `cube.coords(name)`
  unfoldable pub named : String → List (CubeCoord F) → List (CubeCoord F)
  named name [] = []
  named name (coord ∷ rest) =
      let more = named name rest in if coord.name === name then coord ∷ more else more

  abbrev pub has_coord : Cube F → String → Bool
  has_coord cube name = has_any (named name cube.coords)

  -- `cube.coord(name)`
  abbrev pub get_coord : Cube F → String → Result (CubeCoord F)
  get_coord cube name = only key_error (named name cube.coords)
