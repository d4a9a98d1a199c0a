-- ===== src/Load/Ellipsoid.antt =====
-- The figure of the earth in section 3, `ellipsoid` and `ellipsoid_geometry` of _load_convert.py.
-- The three lengths are scalars: the keys that they are read from hold no arrays.
use gribbi.Base.{
  ℕ, String, Bool, true, false, not, none, some, [], ◌∷◌, if◌then◌else◌, nat_eq, string_eq,
  option_eq, pair_eq, translation_error, value_error, Result, ok, ◌>>=◌, ◌>>◌, guard,
}
use gribbi.Base.Int.{pos, int_eq}
use gribbi.Value.{Value, int, real, masked, is_nat}
use gribbi.Value.{Reader, is_one_of}
use gribbi.Externals.{Externals, as_float}
use gribbi.CoordSystems.{GeogCs}
use gribbi.Load.Scaling.{unscale}

module _ {F : Type 0} where
  abbrev pub sphere : Value F → GeogCs F
  sphere radius = record {
    semi_major_axis = radius;
    semi_minor_axis = none;
    inverse_flattening = none;
  }

  abbrev pub spheroid : Value F → Value F → GeogCs F
  spheroid major minor = record {
    semi_major_axis = major;
    semi_minor_axis = some minor;
    inverse_flattening = none;
  }

  abbrev flattened : ℕ → String → GeogCs F
  flattened major inverse_flattening = record {
    semi_major_axis = int (pos major);
    semi_minor_axis = none;
    inverse_flattening = some inverse_flattening;
  }

  abbrev pub is_masked : Value F → Bool
  is_masked masked = true
  is_masked v = false

module _ {F : Type 0} (x : Externals F) where
  -- `axis *= 1000`
  abbrev times_1000 : Value F → Result (Value F)
  times_1000 axis = do a ← as_float x axis; ok (real (x.mul a (x.of_int (pos 1000))))

  -- Shapes 3 and 7: the axes are given, in km or in m.
  unfoldable pub oblate : Bool → Value F → Value F → Result (GeogCs F)
  oblate in_km major minor = do
    guard (not (is_masked major)) value_error
    guard (not (is_masked minor)) value_error
    if in_km
        then (do
          major_m ← times_1000 major
          minor_m ← times_1000 minor
          ok (spheroid major_m minor_m))
        else ok (spheroid major minor)

  unfoldable pub ellipsoid : Value F → Value F → Value F → Value F → Result (GeogCs F)
  ellipsoid shape major minor radius = do
    guard (is_one_of shape (0 ∷ 1 ∷ 2 ∷ 3 ∷ 4 ∷ 5 ∷ 6 ∷ 7 ∷ [])) translation_error
    if is_nat shape 0
        then ok (sphere (int (pos 6367470)))
        else if is_nat shape 1
        then (do guard (not (is_masked radius)) value_error; ok (sphere radius))
        else if is_nat shape 2
        then ok (flattened 6378160 "297.0")
        else if is_one_of shape (3 ∷ 7 ∷ [])
        then oblate (is_nat shape 3) major minor
        else if is_nat shape 4
        then ok (flattened 6378137 "298.257222101")
        else if is_nat shape 5
        then ok (flattened 6378137 "298.257223563")
        else ok (sphere (int (pos 6371229)))

  -- A length: its scaled value, unscaled by its factor.
  abbrev scaled_length : Reader F → String → String → Result (Value F)
  scaled_length section value_key factor_key = do
    value ← section.get value_key
    factor ← section.get factor_key
    unscale x value factor

  unfoldable pub ellipsoid_geometry : Reader F → Result (Value F × (Value F × Value F))
  ellipsoid_geometry section = do
    major ← scaled_length section "scaledValueOfEarthMajorAxis" "scaleFactorOfEarthMajorAxis"
    minor ← scaled_length section "scaledValueOfEarthMinorAxis" "scaleFactorOfEarthMinorAxis"
    radius ←
        scaled_length section "scaledValueOfRadiusOfSphericalEarth"
          "scaleFactorOfRadiusOfSphericalEarth"
    ok (major, (minor, radius))

  -- How the grid templates use the two.
  unfoldable pub earth : Reader F → Result (GeogCs F)
  earth section = do
    (major, (minor, radius)) ← ellipsoid_geometry section
    shape ← section.get "shapeOfTheEarth"
    ellipsoid shape major minor radius
