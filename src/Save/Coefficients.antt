-- ===== src/Save/Coefficients.antt =====
-- The end of `set_fixed_surfaces` of _save_rules.py: the vector of the coefficients of hybrid levels.
-- The level numbers are integers, of which the source makes sure.
pub mod RoundTrip
use gribbi.Base.{
  ℕ, zero, suc, ◌+◌, ◌-◌, ◌*◌, ◌/◌, ◌%◌, ◌^◌, ◌≤◌, ◌<◌, String, ◌≡◌, refl, sym, ap, ◌∙◌, subst, ◌≢◌,
  ◌↔◌, ◌⊎◌, inl, inr, Bool, true, false, not, ◌&&◌, ◌||◌, Option, none, some, List, [], ◌∷◌, ◌++◌,
  map, append-nil, append_assoc, arith, ltb, leb, ◌==◌, if◌then◌else◌, ltb→lt, lt→ltb, leb→le,
  ==_iff, Bool-cases, Option-cases, length, get_elem?, set, get_or, take, drop, replicate,
  length-append, length-set, get_elem?-set_self, get_elem?-set_ne, length-replicate, Eq, ◌===◌,
  contains, nat_eq, string_eq, option_eq, pair_eq, Error, translation_error, value_error, key_error,
  type_error, index_error, attribute_error, assertion_error, name_error, codes_error, Result, ok,
  err, Result-cases, ◌>>=◌, ◌>>◌, guard, is_ok, >>=-eq-ok, Returns, Returns-bind,
}
use gribbi.Base.Int.{ℤ, pos, negsuc, pos_part, ltb_ℤ}

-- `np.max(model_levels)` of level numbers above zero.
unfoldable pub max_level : List ℕ → ℕ
max_level [] = 0
max_level (n ∷ ns) = let rest = max_level ns in if ltb rest n then n else rest

-- `np.min(model_levels) < 1`
unfoldable pub has_level_below_1 : List ℤ → Bool
has_level_below_1 [] = false
has_level_below_1 (z ∷ zs) = ltb_ℤ z (pos 1) || has_level_below_1 zs

abbrev pub is_empty : {A : Type 0} → List A → Bool
is_empty [] = true
is_empty (x ∷ xs) = false

-- The arrays of a zip(..., strict=False) loop end with the shortest.
unfoldable pub write_levels : {F : Type 0} → ℕ → List F → List ℕ → List F → List F → List F
write_levels n_coeffs coeffs (n_lev ∷ levels) (height ∷ heights) (sigma ∷ sigmas) =
    write_levels n_coeffs (set (set coeffs n_lev height) (n_coeffs + n_lev) sigma) levels heights
      sigmas
write_levels n_coeffs coeffs (n_lev ∷ levels) (height ∷ heights) [] = coeffs
write_levels n_coeffs coeffs (n_lev ∷ levels) [] sigmas = coeffs
write_levels n_coeffs coeffs [] heights sigmas = coeffs

abbrev pub max_valid_nlevels : ℕ
max_valid_nlevels = 9999

-- The values that are set under "NV" and "pv". `as_float32` is the rounding to a float32 and back,
-- and `zero_value` is 0.0. numpy raises where it has no level.
unfoldable pub hybrid_coefficients :
    {F : Type 0} → (F → F) → F → List ℤ → List F → List F → Result (ℕ × List F)
hybrid_coefficients as_float32 zero_value model_levels heights sigmas = do
  guard (not (is_empty model_levels)) value_error
  guard (not (has_level_below_1 model_levels)) value_error
  let levels = map pos_part model_levels
  let n_levels = max_level levels
  guard (not (ltb max_valid_nlevels n_levels)) value_error
  let n_coeffs = n_levels + 1
  let coeffs = replicate (n_coeffs * 2) zero_value
  ok (
    n_coeffs * 2,
    write_levels n_coeffs coeffs levels (map as_float32 heights) (map as_float32 sigmas),
  )
