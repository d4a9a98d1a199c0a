-- ===== src/Save/Shape.antt =====
-- `shape_of_the_earth` of _save_rules.py: the figure of the earth of a cube's coordinate system.
pub mod RoundTrip
use gribbi.Base.{
  ℕ, zero, suc, ◌+◌, ◌-◌, ◌*◌, ◌/◌, ◌%◌, ◌^◌, ◌≤◌, ◌<◌, String, ◌≡◌, refl, sym, ap, ◌∙◌, subst, ◌≢◌,
  ◌↔◌, ◌⊎◌, inl, inr, Bool, true, false, not, ◌&&◌, ◌||◌, Option, none, some, List, [], ◌∷◌, ◌++◌,
  map, append-nil, append_assoc, arith, ltb, leb, ◌==◌, if◌then◌else◌, ltb→lt, lt→ltb, leb→le,
  ==_iff, Bool-cases, Option-cases, length, get_elem?, set, get_or, take, drop, replicate,
  length-append, length-set, get_elem?-set_self, get_elem?-set_ne, length-replicate, Eq, ◌===◌,
  contains, nat_eq, string_eq, option_eq, pair_eq, Error, translation_error, value_error, key_error,
  type_error, index_error, attribute_error, assertion_error, name_error, codes_error, Result, ok,
  err, Result-cases, ◌>>=◌, ◌>>◌, guard, is_ok, >>=-eq-ok, Returns, Returns-bind,
}
use gribbi.Base.Int.{
  ℤ, pos, negsuc, pos_part, neg_part, sub_ℕ, ◌+ℤ◌, ◌-ℤ◌, ◌*ℤ◌, ltb_ℤ, beq_ℤ, beq_ℤ_iff, int_eq,
  bit_set,
}
use gribbi.Base.Dict.{
  Dict, keys, lookup, insert, lookup-insert, lookup-insert_self, AllValues, AllValues-lookup,
}
use gribbi.Save.Cube.{Encoding}
use gribbi.Value.{Value, missing, int, real, string, ints, reals, masked, is_nat}

-- The attributes of the ellipsoid that are used: the axes in metres, and whether its inverse
-- flattening is 0.
pub record Figure (F : Type 0) : Type 0 where
  pub is_spherical : Bool
  pub semi_major_axis : F
  pub semi_minor_axis : F

-- The keys of section 3 that a message holds, where 255 and GRIB_MISSING_LONG are missing. A later
-- `codes_set_long` of a key replaces an earlier one.
abbrev pub Keys : Type 0 → Type 0
Keys F = Dict String (Value F)

module _ {F : Type 0} where
  unfoldable pub unset_lengths : Keys F → Keys F
  unset_lengths grib = insert "scaledValueOfEarthMinorAxis" missing (
      insert "scaleFactorOfEarthMinorAxis" missing (
        insert "scaledValueOfEarthMajorAxis" missing (
          insert "scaleFactorOfEarthMajorAxis" missing (
            insert "scaledValueOfRadiusOfSphericalEarth" missing
              (insert "scaleFactorOfRadiusOfSphericalEarth" missing grib)))))

  abbrev set_axes : ℤ → ℤ → Keys F → Keys F
  set_axes major minor grib = insert "scaledValueOfEarthMinorAxis" (int minor) (
      insert "scaleFactorOfEarthMinorAxis" (int (pos 0)) (
        insert "scaledValueOfEarthMajorAxis" (int major)
          (insert "scaleFactorOfEarthMajorAxis" (int (pos 0)) grib)))

  -- The ellipsoid is none where the coordinate system has none. `codes_set_long` of a float cuts it
  -- to a whole number, as int() does.
  unfoldable pub shape_of_the_earth : Encoding F → Option (Figure F) → Keys F → Result (Keys F)
  shape_of_the_earth e none grib = err translation_error
  shape_of_the_earth e (some figure) grib =
      if figure.is_spherical
      then (do
        radius ← e.truncate figure.semi_major_axis
        ok (
            set_axes (pos 0) (pos 0) (
              insert "scaledValueOfRadiusOfSphericalEarth" (int radius) (
                insert "scaleFactorOfRadiusOfSphericalEarth" (int (pos 0))
                  (insert "shapeOfTheEarth" (int (pos 1)) (unset_lengths grib))))))
      else (do
        major ← e.truncate figure.semi_major_axis
        minor ← e.truncate figure.semi_minor_axis
        ok (set_axes major minor (insert "shapeOfTheEarth" (int (pos 7)) (unset_lengths grib))))
