-- ===== src/Load/Grid/Points.antt =====
-- What the grid templates of _load_convert.py share: the floats and the packages that they use, the
-- points of an axis, and the two coordinates that they add.
use gribbi.Base.{
  ℕ, zero, suc, String, Bool, true, false, Option, none, some, List, [], ◌∷◌, ◌++◌, map,
  if◌then◌else◌, nat_eq, string_eq, option_eq, pair_eq, Result, ok, ◌>>=◌,
}
use gribbi.Base.Int.{ℤ, pos, negsuc, ◌-ℤ◌, int_eq}
use gribbi.Value.{Value, reals}
use gribbi.Value.{Reader, get_int, as_int}
use gribbi.Externals.{Externals, as_float}
use gribbi.CoordSystems.{GeogCs, CoordSystem}
use gribbi.Metadata.{Coord, Metadata}

-- Further operations on floats, and what numpy, iris and cartopy do for the grids.
pub record Geometry (F : Type 0) : Type 0 where
  -- a float literal, by its text; math.inf
  pub literal : String → F
  pub infinity : F
  -- -a; a % b; math.fmod(a, b); a / b where Python raises for a zero b; a == b
  pub negate : F → F
  pub modulo : F → F → F
  pub fmod : F → F → F
  pub divide : F → F → Result F
  pub equal : F → F → Bool
  -- math.asin, math.acos, which raise outside their domain, math.atan and math.sin
  pub asin : F → Result F
  pub acos : F → Result F
  pub atan : F → F
  pub sin : F → F
  -- numpy.linspace(first, last, n), and an array behind its sort()
  pub linspace : F → F → ℕ → List F
  pub sort : List (Option F) → List (Option F)
  -- iris.util._is_circular(points, modulus)
  pub is_circular : List F → F → Bool
  -- the attributes of a GeogCS
  pub semi_major_axis : GeogCs F → F
  pub semi_minor_axis : GeogCs F → F
  -- cs.as_cartopy_crs().transform_point(longitude, latitude, ccrs.Geodetic())
  pub transform_point : CoordSystem F → F → F → F × F

-- The numbers from `first` on.
unfoldable pub count_from : ℕ → ℕ → List ℕ
count_from first zero = []
count_from first (suc n) = first ∷ count_from (suc first) n

-- numpy.arange(n)
abbrev pub arange : ℤ → List ℕ
arange (pos n) = count_from 0 n
arange (negsuc n) = []

-- -1 or 1
abbrev pub direction : Bool → ℤ
direction true = negsuc 0
direction false = pos 1

module _ {F : Type 0} where
  abbrev pub array : List F → Value F
  array points = reals (map some points)

  -- A coordinate of a grid, without bounds.
  abbrev pub grid_coord : Value F → String → String → CoordSystem F → Bool → Coord F
  grid_coord points standard_name units cs circular = record {
    is_dim = true;
    points = points;
    bounds = [];
    standard_name = some standard_name;
    long_name = none;
    units = some units;
    attributes = [];
    coord_system = some cs;
    circular = circular;
  }

  -- The two dimensions, and the two coordinates appended.
  unfoldable pub add_grid : Bool → Coord F → Coord F → Metadata F → Metadata F
  add_grid j_consecutive y_coord x_coord m = record m {
    dim_coords_and_dims =
        m.dim_coords_and_dims
        ++ ((y_coord, some (if j_consecutive then 1 else 0))
            ∷ (x_coord, some (if j_consecutive then 0 else 1))
            ∷ []);
  }

module _ {F : Type 0} (x : Externals F) (g : Geometry F) where
  -- _GRID_ACCURACY_IN_DEGREES
  abbrev pub grid_accuracy : F
  grid_accuracy = g.literal "1e-6"

  -- An operand of float arithmetic.
  abbrev pub get_float : Reader F → String → Result F
  get_float section key = do value ← section.get key; as_float x value

  -- `section[key] * unit`
  abbrev pub get_times : Reader F → String → F → Result F
  get_times section key unit = do value ← get_float section key; ok (x.mul value unit)

  -- `_calculate_increment` of two whole numbers.
  unfoldable pub calculate_increment : ℤ → ℤ → ℤ → F → Result F
  calculate_increment first_point last_point n_increments modulus =
      g.divide (g.modulo (x.of_int (last_point -ℤ first_point)) modulus) (x.of_int n_increments)

  -- An increment in degrees, which is given, or calculated from the ends of the axis.
  unfoldable pub get_increment : Reader F → Bool → String → String → String → String → F → Result F
  get_increment section given key first_key last_key count_key modulus =
      if given then get_times section key grid_accuracy else do
        first_value ← section.get first_key
        last_value ← section.get last_key
        count ← get_int section count_key
        last ← as_int last_value
        first ← as_int first_value
        increment ← calculate_increment first last (count -ℤ pos 1) modulus
        ok (x.mul increment grid_accuracy)

  -- `np.arange(n) * increment * direction + offset`
  unfoldable pub degrees_points : ℤ → F → ℤ → F → List F
  degrees_points n increment sign offset =
      map (λ k. x.add (x.mul (x.mul (x.of_int (pos k)) increment) (x.of_int sign)) offset)
        (arange n)

  -- `offset + increment * direction * np.arange(n)`
  unfoldable pub metres_points : ℤ → F → ℤ → F → List F
  metres_points n increment sign offset =
      map (λ k. x.add offset (x.mul (x.mul increment (x.of_int sign)) (x.of_int (pos k))))
        (arange n)
