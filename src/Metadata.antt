-- ===== src/Metadata.antt =====
-- The metadata of a cube that a translation fills in, and the objects of iris in it. The
-- constructors of iris' coordinates, cell methods and factories are modelled by their arguments;
-- what those constructors check of them is not.
use gribbi.Phenom.Code.{GribCode}
use gribbi.Base.{
  ℕ, String, Bool, true, Option, none, List, [], ◌∷◌, ◌++◌, nat_eq, string_eq, option_eq, pair_eq,
  false,
}
use gribbi.Base.Dict.{Dict}
use gribbi.Value.{Value}
use gribbi.CoordSystems.{CoordSystem}

-- A DimCoord or an AuxCoord. `bounds` is empty where there are none; only a DimCoord is circular.
pub record Coord (F : Type 0) : Type 0 where
  pub is_dim : Bool
  pub points : Value F
  pub bounds : List (Value F)
  pub standard_name : Option String
  pub long_name : Option String
  pub units : Option String
  pub attributes : Dict String (Value F)
  pub coord_system : Option (CoordSystem F)
  pub circular : Bool

pub data FactoryClass : Type 0 where
  hybrid_height hybrid_pressure : FactoryClass

-- `{"long_name": name}` and `Reference(name)`
pub data FactoryArg : Type 0 where
  by_long_name by_reference : String → FactoryArg

pub record Factory : Type 0 where
  pub factory_class : FactoryClass
  pub args : List FactoryArg

-- ReferenceTarget(name, transform), with whether the transform is
-- `ensure_surface_air_pressure_name` or None.
pub record ReferenceTarget : Type 0 where
  pub name : String
  pub ensures_pressure_name : Bool

-- The interval string "{n} {units}" is kept as the pair.
pub record CellMethod (F : Type 0) : Type 0 where
  pub method : String
  pub coords : List String
  pub intervals : Option (Value F × String)

pub data Attribute (F : Type 0) : Type 0 where
  plain : Value F → Attribute F
  -- a GRIBCode
  code_attribute : GribCode → Attribute F
  -- GRIBCode(edition=2, discipline, category, number)
  grib_code2 : Value F → Value F → Value F → Attribute F

pub record Metadata (F : Type 0) : Type 0 where
  pub factories : List Factory
  pub references : List ReferenceTarget
  pub standard_name : Option String
  pub long_name : Option String
  pub units : Option String
  pub attributes : Dict String (Attribute F)
  pub cell_methods : List (CellMethod F)
  pub dim_coords_and_dims : List (Coord F × Option ℕ)
  pub aux_coords_and_dims : List (Coord F × Option ℕ)

module _ {F : Type 0} where
  -- `metadata["aux_coords_and_dims"].append((coord, None))`
  abbrev pub add_aux : Coord F → Metadata F → Metadata F
  add_aux coord m = record m { aux_coords_and_dims = m.aux_coords_and_dims ++ ((coord, none) ∷ []) }

  -- A scalar DimCoord with no bounds and no attributes.
  abbrev pub scalar : Value F → Option String → Option String → Option String → Coord F
  scalar points standard_name long_name units = record {
    is_dim = true;
    points = points;
    bounds = [];
    standard_name = standard_name;
    long_name = long_name;
    units = units;
    attributes = [];
    coord_system = none;
    circular = false;
  }
