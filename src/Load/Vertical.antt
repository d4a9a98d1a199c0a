-- ===== src/Load/Vertical.antt =====
-- `hybrid_factories` and `vertical_coords` of _load_convert.py.
pub mod Laws
use gribbi.Base.{
  ℕ, zero, suc, ◌+◌, ◌-◌, ◌*◌, ◌/◌, ◌%◌, ◌^◌, ◌≤◌, ◌<◌, String, ◌≡◌, refl, sym, ap, ◌∙◌, subst, ◌≢◌,
  ◌↔◌, ◌⊎◌, inl, inr, Bool, true, false, not, ◌&&◌, ◌||◌, Option, none, some, List, [], ◌∷◌, ◌++◌,
  map, append-nil, append_assoc, arith, ltb, leb, ◌==◌, if◌then◌else◌, ltb→lt, lt→ltb, leb→le,
  ==_iff, Bool-cases, Option-cases, length, get_elem?, set, get_or, take, drop, replicate,
  length-append, length-set, get_elem?-set_self, get_elem?-set_ne, length-replicate, Eq, ◌===◌,
  contains, nat_eq, string_eq, option_eq, pair_eq, Error, translation_error, value_error, key_error,
  type_error, index_error, attribute_error, assertion_error, codes_error, Result, ok, err,
  Result-cases, ◌>>=◌, ◌>>◌, guard, is_ok, >>=-eq-ok, Returns, Returns-bind,
}
use gribbi.Base.Int.{
  ℤ, pos, negsuc, pos_part, neg_part, sub_ℕ, ◌+ℤ◌, ◌-ℤ◌, ◌*ℤ◌, ltb_ℤ, beq_ℤ, beq_ℤ_iff, int_eq,
  bit_set,
}
use gribbi.Base.Dict.{
  Dict, keys, lookup, insert, lookup-insert, lookup-insert_self, AllValues, AllValues-lookup,
}
use gribbi.Value.{Value, missing, int, real, string, ints, reals, masked, is_nat}
use gribbi.Value.{Reader, get_int, is_one_of, as_int}
use gribbi.Externals.{Externals, as_float}
use gribbi.Metadata.{
  Coord, FactoryClass, hybrid_height, hybrid_pressure, FactoryArg, by_long_name, by_reference,
  Factory, Metadata, add_aux, scalar,
}
use gribbi.Tables.{FixedSurface, fixed_surfaces, lookup_value, type_of_fixed_surface_missing}
use gribbi.Load.Scaling.{unscale, is_missing}

abbrev pub level_name : Bool → String
level_name height = if height then "level_height" else "level_pressure"

abbrev pub hybrid_factory : Bool → Factory
hybrid_factory height = record {
  factory_class = if height then hybrid_height else hybrid_pressure;
  args =
      by_long_name (level_name height)
      ∷ by_long_name "sigma"
      ∷ by_reference (if height then "ref_orography" else "ref_surface_pressure")
      ∷ [];
}

abbrev pub no_surface : FixedSurface
no_surface = record { standard_name = none; long_name = none; units = none }

-- `_FIXED_SURFACE.get(type, fixed_surface_missing)`
abbrev pub surface_or : Option FixedSurface → FixedSurface
surface_or none = no_surface
surface_or (some s) = s

module _ {F : Type 0} where
  -- `array[offset]` of Python: an offset below zero counts from the end.
  unfoldable pub index : List (Option F) → ℤ → Result (Value F)
  index values (pos n) = elim (get_elem? values n) [
    | none ↦ err index_error
    | some none ↦ ok masked
    | some (some a) ↦ ok (real a)
  ]
  index values (negsuc n) =
      if ltb n (length values)
      then elim (get_elem? values (length values - suc n)) [
        | none ↦ err index_error
        | some none ↦ ok masked
        | some (some a) ↦ ok (real a)
      ]
      else err index_error

  abbrev pub as_reals : Value F → Result (List (Option F))
  as_reals (reals values) = ok values
  as_reals v = err type_error

  abbrev pub level_number_coord : Value F → Coord F
  level_number_coord level = record (scalar level (some "model_level_number") none (some "1")) {
    attributes = ("positive", string "up") ∷ [];
  }

  abbrev pub level_value_coord : Bool → Value F → Coord F
  level_value_coord height delta =
      scalar delta none (some (level_name height)) (some (if height then "m" else "Pa"))

  abbrev pub sigma_coord : Value F → Coord F
  sigma_coord sigma = record (scalar sigma none (some "sigma") (some "1")) { is_dim = false }

  -- The branch of `hybrid_factories` for hybrid levels, behind its tests.
  unfoldable pub add_hybrid : Reader F → ℤ → Bool → Metadata F → Result (Metadata F)
  unfolding index
  add_hybrid section nv height m = do
    level ← get_int section "scaledValueOfFirstFixedSurface"
    pv ← section.get "pv"
    values ← as_reals pv
    delta ← index values level
    sigma ← index values (pos (pos_part nv / 2) +ℤ level)
    ok
        (record (add_aux (sigma_coord sigma)
          (add_aux (level_value_coord height delta) (add_aux (level_number_coord (int level)) m))) {
            factories = m.factories ++ (hybrid_factory height ∷ []);
          })

  -- Called with NV > 0.
  unfoldable pub hybrid_factories : Reader F → ℤ → Metadata F → Result (Metadata F)
  hybrid_factories section nv m = do
    first ← section.get "typeOfFirstFixedSurface"
    guard (not (is_nat first type_of_fixed_surface_missing)) translation_error
    second ← section.get "typeOfSecondFixedSurface"
    guard (is_nat second type_of_fixed_surface_missing) translation_error
    guard (is_one_of first (105 ∷ 118 ∷ 119 ∷ [])) translation_error
    factor ← section.get "scaleFactorOfFirstFixedSurface"
    guard (is_nat factor 0) translation_error
    add_hybrid section nv (is_nat first 118) m

  -- The coordinate of a surface; a type that is not in the table is kept as an attribute.
  abbrev pub surface_coord : Value F → Value F → List (Value F) → Coord F
  surface_coord type point bounds =
      let surface = surface_or (lookup_value type fixed_surfaces) in
      record (scalar point surface.standard_name surface.long_name surface.units) {
        bounds = bounds;
        attributes = elim (lookup_value type fixed_surfaces) [
          | none ↦ ("GRIB_fixed_surface_type", type) ∷ []
          | some _ ↦ []
        ];
      }

-- `first == second` of two header elements that are integers or missing.
abbrev pub same_type : {F : Type 0} → Value F → Value F → Bool
same_type (int a) (int b) = beq_ℤ a b
same_type missing missing = true
same_type a b = false

module _ {F : Type 0} (x : Externals F) where
  -- `0.5 * (first + second)`; arithmetic with a masked value is masked.
  unfoldable pub middle : Value F → Value F → Result (Value F)
  middle masked b = ok masked
  middle a masked = ok masked
  middle a b = do u ← as_float x a; v ← as_float x b; ok (real (x.mul x.half (x.add u v)))

  -- A layer between two surfaces of the same type.
  unfoldable pub layer :
      Reader F → Value F → Value F → Value F → Value F → Metadata F → Result (Metadata F)
  layer section first_type second_type value factor m = do
    guard (same_type first_type second_type) translation_error
    value2 ← section.get "scaledValueOfSecondFixedSurface"
    guard (not (is_missing value2)) translation_error
    factor2 ← section.get "scaleFactorOfSecondFixedSurface"
    first ← unscale x value factor
    second ← unscale x value2 factor2
    point ← middle first second
    ok (add_aux (surface_coord first_type point (first ∷ second ∷ [])) m)

  unfoldable pub level : Value F → Value F → Value F → Metadata F → Result (Metadata F)
  level type value factor m = do
    point ← unscale x value factor
    ok (add_aux (surface_coord type point []) m)

  -- The vertical coordinate of a type of surface that is neither missing nor the ground.
  unfoldable pub surface : Reader F → Value F → Metadata F → Result (Metadata F)
  surface section type m = do
    value ← section.get "scaledValueOfFirstFixedSurface"
    if is_missing value then ok m else do
      factor ← section.get "scaleFactorOfFirstFixedSurface"
      second ← section.get "typeOfSecondFixedSurface"
      if is_nat second type_of_fixed_surface_missing
          then level type value factor m
          else layer section type second value factor m

  unfoldable pub vertical_coords : Reader F → Metadata F → Result (Metadata F)
  vertical_coords section m = do
    nv ← get_int section "NV"
    if ltb_ℤ (pos 0) nv then hybrid_factories section nv m else do
      type ← section.get "typeOfFirstFixedSurface"
      if is_one_of type (type_of_fixed_surface_missing ∷ 1 ∷ [])
          then ok m
          else surface section type m
