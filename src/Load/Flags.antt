-- ===== src/Load/Flags.antt =====
-- The flag tables 3.3 to 3.5 of _load_convert.py, and their encoding by `scanning_mode_flags` of
-- _save_rules.py.
pub mod RoundTrip
use gribbi.Base.{
  ℕ, zero, suc, ◌+◌, ◌-◌, ◌*◌, ◌/◌, ◌%◌, ◌^◌, ◌≤◌, ◌<◌, String, ◌≡◌, refl, sym, ap, ◌∙◌, subst, ◌≢◌,
  ◌↔◌, ◌⊎◌, inl, inr, Bool, true, false, not, ◌&&◌, ◌||◌, Option, none, some, List, [], ◌∷◌, ◌++◌,
  map, append-nil, append_assoc, arith, ltb, leb, ◌==◌, if◌then◌else◌, ltb→lt, lt→ltb, leb→le,
  ==_iff, Bool-cases, Option-cases, length, get_elem?, set, get_or, take, drop, replicate,
  length-append, length-set, get_elem?-set_self, get_elem?-set_ne, length-replicate, Eq, ◌===◌,
  contains, nat_eq, string_eq, option_eq, pair_eq, Error, translation_error, value_error, key_error,
  type_error, index_error, attribute_error, assertion_error, name_error, codes_error, Result, ok,
  err, Result-cases, ◌>>=◌, ◌>>◌, guard, is_ok, >>=-eq-ok, Returns, Returns-bind,
}
use gribbi.Base.Int.{
  ℤ, pos, negsuc, pos_part, neg_part, sub_ℕ, ◌+ℤ◌, ◌-ℤ◌, ◌*ℤ◌, ltb_ℤ, beq_ℤ, beq_ℤ_iff, int_eq,
  bit_set,
}
use gribbi.Base.Dict.{
  Dict, keys, lookup, insert, lookup-insert, lookup-insert_self, AllValues, AllValues-lookup,
}
use gribbi.Value.{Value, missing, int, real, string, ints, reals, masked, is_nat}
use gribbi.Externals.{Externals}

pub record ProjectionCentre : Type 0 where
  pub south_pole_on_projection_plane : Bool
  pub bipolar_and_symmetric : Bool

pub record ScanningMode : Type 0 where
  pub i_negative : Bool
  pub j_positive : Bool
  pub j_consecutive : Bool
  pub i_alternative : Bool

pub record ResolutionFlags : Type 0 where
  pub i_increments_given : Bool
  pub j_increments_given : Bool
  pub uv_resolved : Bool

-- 0x80 is bit 7, and so on.
unfoldable pub projection_centre : ℤ → ProjectionCentre
projection_centre flag = record {
  south_pole_on_projection_plane = bit_set flag 7;
  bipolar_and_symmetric = bit_set flag 6;
}

unfoldable pub scanning_mode : ℤ → Result ScanningMode
scanning_mode mode =
    if bit_set mode 4
    then err translation_error
    else ok (record {
      i_negative = bit_set mode 7;
      j_positive = bit_set mode 6;
      j_consecutive = bit_set mode 5;
      i_alternative = bit_set mode 4;
    })

unfoldable pub resolution_flags : ℤ → ResolutionFlags
resolution_flags flags = record {
  i_increments_given = bit_set flags 5;
  j_increments_given = bit_set flags 4;
  uv_resolved = bit_set flags 3;
}

-- The flag that is set. The bits set so far are others, so `|=` adds.
abbrev pub set_flag : Bool → ℕ → ℕ → ℕ
set_flag true flag flags = flags + flag
set_flag false flag flags = flags

module _ {F : Type 0} (x : Externals F) (is_positive : F → Bool) where
  -- `coord.points[1] - coord.points[0] > 0`
  unfoldable pub increases : List F → Result Bool
  increases (first ∷ second ∷ rest) = ok (is_positive (x.sub second first))
  increases points = err index_error

  -- The value that is set under "scanningMode", from the points of the two coordinates.
  unfoldable pub scanning_mode_flags : List F → List F → Result ℕ
  scanning_mode_flags x_points y_points = do
    x_positive ← increases x_points
    y_positive ← increases y_points
    ok (set_flag y_positive 64 (set_flag (not x_positive) 128 0))
