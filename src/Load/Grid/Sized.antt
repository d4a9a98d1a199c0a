-- ===== src/Load/Grid/Sized.antt =====
-- The sizes of the coordinates of a grid.
use gribbi.Base.Steps.{known, met, skip}
use gribbi.Base.{
  ℕ, zero, suc, String, ◌≡◌, refl, ap, ◌∙◌, Bool, false, List, map, arith, length, nat_eq,
  string_eq, option_eq, pair_eq, Result, ok, ◌>>=◌, Returns, length-map,
}
use gribbi.Base.Int.{ℤ, pos, negsuc, pos_part, int_eq, bit_set}
use gribbi.Value.{Reader, get_int}
use gribbi.Externals.{Externals}
use gribbi.CoordSystems.{CoordSystem}
use gribbi.Metadata.{Coord, Metadata}
use gribbi.Load.Flags.{ScanningMode, scanning_mode}
use gribbi.Load.Grid.Points.{
  Geometry, add_grid, array, arange, count_from, degrees_points, metres_points, grid_coord,
}
use gribbi.Load.Grid.LatLon.{
  longitude_points, latitude_points, grid_definition_template_0_and_1, grid_definition_template_0,
  grid_definition_template_1,
}
use gribbi.Load.Grid.Special.{grid_definition_template_90, view_points}

length-count_from : (first n : ℕ) → length (count_from first n) ≡ n
unfolding count_from
length-count_from first zero = refl
length-count_from first (suc n) = ap suc (length-count_from (suc first) n)

length-arange : (n : ℤ) → length (arange n) ≡ pos_part n
length-arange (pos n) = length-count_from 0 n
length-arange (negsuc n) = refl

pub scanning_mode-j_consecutive :
    (mode : ℤ) (scan : ScanningMode)
    → scanning_mode mode ≡ ok scan
    → scan.j_consecutive ≡ bit_set mode 5
unfolding scanning_mode
scanning_mode-j_consecutive mode scan h = ground arith

module _ {F : Type 0} where
  -- As many points as are read under the key.
  abbrev pub CountedBy : Reader F → String → List F → Type 0
  CountedBy section key points =
      (n : ℤ) × (get_int section key ≡ ok n) × (length points ≡ pos_part n)

  abbrev pub Sized : Reader F → String → Coord F → Type 0
  Sized section key coord =
      (points : List F) × (coord.points ≡ array points) × CountedBy section key points

  -- Two dimension coordinates of those sizes, in the order of the scanning mode.
  pub record AddsSized (section : Reader F) (y_key x_key : String) (m m' : Metadata F)
      : Type 0 where
    pub mode : ℤ
    pub y : Coord F
    pub x : Coord F
    pub scans : get_int section "scanningMode" ≡ ok mode
    pub y_sized : Sized section y_key y
    pub x_sized : Sized section x_key x
    pub added : m' ≡ add_grid (bit_set mode 5) y x m

module _ {F : Type 0} (x : Externals F) (g : Geometry F) where
  degrees_points-length :
      (n : ℤ) (increment offset : F) (sign : ℤ)
      → length (degrees_points x g n increment sign offset) ≡ pos_part n
  unfolding degrees_points
  degrees_points-length n increment offset sign = length-map (arange n) _ ∙ length-arange n

  degrees_points-CountedBy :
      (section : Reader F) (key : String) (n : ℤ) (increment offset : F) (sign : ℤ)
      → get_int section key ≡ ok n
      → CountedBy section key (degrees_points x g n increment sign offset)
  degrees_points-CountedBy section key n increment offset sign h =
      (n, h, degrees_points-length n increment offset sign)

  pub metres_points-length :
      (n : ℤ) (increment offset : F) (sign : ℤ)
      → length (metres_points x g n increment sign offset) ≡ pos_part n
  unfolding metres_points
  metres_points-length n increment offset sign = length-map (arange n) _ ∙ length-arange n

  longitude_points-CountedBy :
      (section : Reader F) (given negative : Bool)
      → Returns (CountedBy section "Ni") (longitude_points x g section given negative)
  unfolding longitude_points
  longitude_points-CountedBy section given negative =
      search (skip, known, degrees_points-CountedBy) depth 12

  latitude_points-CountedBy :
      (section : Reader F) (given positive : Bool)
      → Returns (CountedBy section "Nj") (latitude_points x g section given positive)
  unfolding latitude_points
  latitude_points-CountedBy section given positive =
      search (skip, known, degrees_points-CountedBy) depth 12

  longitudes_counted :
      {B : Type 0} (Q : B → Type 0) (section : Reader F) (given negative : Bool)
      (f : List F → Result B)
      → ((points : List F) → CountedBy section "Ni" points → Returns Q (f points))
      → Returns Q (longitude_points x g section given negative >>= f)
  longitudes_counted Q section given negative f k =
      met (CountedBy section "Ni") Q (longitude_points x g section given negative) f
        (longitude_points-CountedBy section given negative) k

  latitudes_counted :
      {B : Type 0} (Q : B → Type 0) (section : Reader F) (given positive : Bool)
      (f : List F → Result B)
      → ((points : List F) → CountedBy section "Nj" points → Returns Q (f points))
      → Returns Q (latitude_points x g section given positive >>= f)
  latitudes_counted Q section given positive f k =
      met (CountedBy section "Nj") Q (latitude_points x g section given positive) f
        (latitude_points-CountedBy section given positive) k

  pub add_grid-AddsSized :
      (section : Reader F) (y_key x_key : String) (mode : ℤ) (scan : ScanningMode)
      (y_points x_points : List F) (y_name x_name units : String) (y_cs x_cs : CoordSystem F)
      (circular : Bool) (m : Metadata F)
      → get_int section "scanningMode" ≡ ok mode
      → scanning_mode mode ≡ ok scan
      → CountedBy section y_key y_points
      → CountedBy section x_key x_points
      → AddsSized section y_key x_key m (
          add_grid scan.j_consecutive
            (grid_coord (array y_points) y_name units y_cs false)
            (grid_coord (array x_points) x_name units x_cs circular)
            m)
  add_grid-AddsSized section y_key x_key mode scan y_points x_points y_name x_name units y_cs x_cs
        circular m p q y_counted x_counted =
      record {
        mode = mode;
        y = grid_coord (array y_points) y_name units y_cs false;
        x = grid_coord (array x_points) x_name units x_cs circular;
        scans = p;
        y_sized = (y_points, refl, y_counted);
        x_sized = (x_points, refl, x_counted);
        added =
            ap
              (λ b.
                add_grid b (grid_coord (array y_points) y_name units y_cs false)
                  (grid_coord (array x_points) x_name units x_cs circular) m)
              (scanning_mode-j_consecutive mode scan q);
      }

  grid_definition_template_0_and_1-AddsSized :
      (y_name x_name : String) (cs : CoordSystem F) (section : Reader F) (m : Metadata F)
      → Returns
          (AddsSized section "Nj" "Ni" m)
          (grid_definition_template_0_and_1 x g y_name x_name cs section m)
  unfolding grid_definition_template_0_and_1
  grid_definition_template_0_and_1-AddsSized y_name x_name cs section m =
      search (known, longitudes_counted, latitudes_counted, add_grid-AddsSized) depth 30

  pub grid_definition_template_0-AddsSized :
      (section : Reader F) (m : Metadata F)
      → Returns (AddsSized section "Nj" "Ni" m) (grid_definition_template_0 x g section m)
  unfolding grid_definition_template_0
  grid_definition_template_0-AddsSized section m =
      search (skip, grid_definition_template_0_and_1-AddsSized) depth 12

  pub grid_definition_template_1-AddsSized :
      (section : Reader F) (m : Metadata F)
      → Returns (AddsSized section "Nj" "Ni" m) (grid_definition_template_1 x g section m)
  unfolding grid_definition_template_1
  grid_definition_template_1-AddsSized section m =
      search (skip, grid_definition_template_0_and_1-AddsSized) depth 12

  view_points-CountedBy :
      (section : Reader F) (key : String) (n : ℤ) (start step : F)
      → get_int section key ≡ ok n
      → CountedBy section key (view_points x g start step n)
  unfolding view_points
  view_points-CountedBy section key n start step h =
      (n, h, length-map (arange n) _ ∙ length-arange n)

  negated-CountedBy :
      (section : Reader F) (key : String) (points : List F)
      → CountedBy section key points
      → CountedBy section key (map g.negate points)
  negated-CountedBy section key points (n, h, p) = (n, h, length-map points g.negate ∙ p)

  pub grid_definition_template_90-AddsSized :
      (section : Reader F) (m : Metadata F)
      → Returns (AddsSized section "Ny" "Nx" m) (grid_definition_template_90 x g section m)
  unfolding grid_definition_template_90
  grid_definition_template_90-AddsSized section m =
      search (known, view_points-CountedBy, negated-CountedBy, add_grid-AddsSized) depth 40
