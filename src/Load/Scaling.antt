-- ===== src/Load/Scaling.antt =====
-- `unscale` and `_hindcast_fix` of _load_convert.py.
pub mod Hindcast
use gribbi.Base.{
  ℕ, zero, suc, ◌+◌, ◌-◌, ◌*◌, ◌/◌, ◌%◌, ◌^◌, ◌≤◌, ◌<◌, String, ◌≡◌, refl, sym, ap, ◌∙◌, subst, ◌≢◌,
  ◌↔◌, ◌⊎◌, inl, inr, Bool, true, false, not, ◌&&◌, ◌||◌, Option, none, some, List, [], ◌∷◌, ◌++◌,
  map, append-nil, append_assoc, arith, ltb, leb, ◌==◌, if◌then◌else◌, ltb→lt, lt→ltb, leb→le,
  ==_iff, Bool-cases, Option-cases, length, get_elem?, set, get_or, take, drop, replicate,
  length-append, length-set, get_elem?-set_self, get_elem?-set_ne, length-replicate, Eq, ◌===◌,
  contains, nat_eq, string_eq, option_eq, pair_eq, Error, translation_error, value_error, key_error,
  type_error, index_error, attribute_error, assertion_error, codes_error, Result, ok, err,
  Result-cases, ◌>>=◌, ◌>>◌, guard, is_ok, >>=-eq-ok, Returns, Returns-bind,
}
use gribbi.Base.Int.{
  ℤ, pos, negsuc, pos_part, neg_part, sub_ℕ, ◌+ℤ◌, ◌-ℤ◌, ◌*ℤ◌, ltb_ℤ, beq_ℤ, beq_ℤ_iff, int_eq,
  bit_set,
}
use gribbi.Base.Dict.{
  Dict, keys, lookup, insert, lookup-insert, lookup-insert_self, AllValues, AllValues-lookup,
}
use gribbi.Value.{Value, missing, int, real, string, ints, reals, masked, is_nat}
use gribbi.Externals.{Externals, as_float}

abbrev pub is_missing : {F : Type 0} → Value F → Bool
is_missing missing = true
is_missing v = false

abbrev pub is_array : {F : Type 0} → Value F → Bool
is_array (ints items) = true
is_array (reals items) = true
is_array v = false

module _ {F : Type 0} (x : Externals F) where
  -- `_unscale(v, f)`
  unfoldable pub unscale_one : F → F → F
  unscale_one v f = x.div v (x.pow10 f)

  -- `_masker`: None and the number that stands for it are masked.
  mask_int : Option ℤ → Option F
  mask_int none = none
  mask_int (some z) = if beq_ℤ z (pos (2 ^ 32 - 1)) then none else some (x.of_int z)

  masker : Value F → Result (List (Option F))
  unfolding mask_int
  masker (ints items) = ok (map mask_int items)
  masker (reals items) = ok items
  masker v = err type_error

  unscale_elements : List (Option F) → List (Option F) → List (Option F)
  unfolding unscale_one
  unscale_elements [] factors = []
  unscale_elements (v ∷ values) [] = []
  unscale_elements (v ∷ values) (f ∷ factors) =
      (elim v [ none ↦ none | some a ↦ elim f [ none ↦ none | some b ↦ some (unscale_one a b) ] ])
      ∷ unscale_elements values factors

  -- numpy's broadcasting of two arrays of one dimension.
  broadcast : List (Option F) → List (Option F) → Result (List (Option F))
  unfolding unscale_elements
  broadcast (v ∷ []) factors = ok (unscale_elements (replicate (length factors) v) factors)
  broadcast values (f ∷ []) = ok (unscale_elements values (replicate (length values) f))
  broadcast values factors =
      if length values == length factors
      then ok (unscale_elements values factors)
      else err value_error

  unfoldable pub unscale_scalar : Value F → Value F → Result (Value F)
  unfolding unscale_one
  unscale_scalar value factor =
      if is_missing value || is_missing factor
      then ok masked
      else do v ← as_float x value; f ← as_float x factor; ok (real (unscale_one v f))

  unfoldable pub unscale : Value F → Value F → Result (Value F)
  unfolding unscale_scalar masker broadcast
  unscale value factor =
      if is_array value || is_array factor
      then (do
        values ← masker value
        factors ← masker factor
        result ← broadcast values factors
        ok (reals result))
      else unscale_scalar value factor
