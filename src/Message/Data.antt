-- ===== src/Message/Data.antt =====
-- GribMessage.data and _DataProxy of message.py: the shape and the values of a message's data.
-- The proxy is modelled by its shape, and its `__getitem__` before the final indexing by `keys`,
-- which is numpy's. Floats are a parameter; of them only the zero that numpy fills in is used.
pub mod Shape
pub mod Bitmap
use gribbi.Base.{
  ℕ, zero, suc, ◌+◌, ◌-◌, ◌*◌, ◌/◌, ◌%◌, ◌^◌, ◌≤◌, ◌<◌, String, ◌≡◌, refl, sym, ap, ◌∙◌, subst, ◌≢◌,
  ◌↔◌, ◌⊎◌, inl, inr, Bool, true, false, not, ◌&&◌, ◌||◌, Option, none, some, List, [], ◌∷◌, ◌++◌,
  map, append-nil, append_assoc, arith, ltb, leb, ◌==◌, if◌then◌else◌, ltb→lt, lt→ltb, leb→le,
  ==_iff, Bool-cases, Option-cases, length, get_elem?, set, get_or, take, drop, replicate,
  length-append, length-set, get_elem?-set_self, get_elem?-set_ne, length-replicate, Eq, ◌===◌,
  contains, nat_eq, string_eq, option_eq, pair_eq, Error, translation_error, value_error, key_error,
  type_error, index_error, attribute_error, assertion_error, codes_error, Result, ok, err, ◌>>=◌,
  ◌>>◌, guard, is_ok, >>=-eq-ok, Returns, Returns-bind,
}
use gribbi.Base.Int.{
  ℤ, pos, negsuc, pos_part, neg_part, sub_ℕ, ◌+ℤ◌, ◌-ℤ◌, ◌*ℤ◌, ltb_ℤ, beq_ℤ, beq_ℤ_iff, int_eq,
  bit_set,
}
use gribbi.Base.Dict.{
  Dict, keys, lookup, insert, lookup-insert, lookup-insert_self, AllValues, AllValues-lookup,
}
use gribbi.Value.{Value, missing, int, real, string, ints, reals, masked, is_nat}
use gribbi.Value.{is_one_of, as_int, Reader, get_int}

abbrev supported_grid_definitions : List ℕ
supported_grid_definitions = 0 ∷ 1 ∷ 5 ∷ 10 ∷ 12 ∷ 20 ∷ 30 ∷ 40 ∷ 90 ∷ 140 ∷ []

-- `z & 0x3F != 0`
abbrev pub low_six_set : ℤ → Bool
low_six_set (pos n) = not (n % 64 == 0)
low_six_set (negsuc n) = not (n % 64 == 63)

-- `numpy.count_nonzero`
abbrev pub count_set : List Bool → ℕ
count_set [] = 0
count_set (b ∷ bits) = (if b then 1 else 0) + count_set bits

abbrev pub is_set : Option ℤ → Bool
is_set none = false
is_set (some (pos zero)) = false
is_set (some z) = true

abbrev pub product : List ℕ → ℕ
product [] = 1
product (n ∷ ns) = n * product ns

module _ {F : Type 0} where
  -- `section[a] != 0 or section[b] != 0`, which reads the second key only if need be.
  unfoldable pub is_reduced : Reader F → Result Bool
  is_reduced grid_section = do
    octets ← grid_section.get "numberOfOctectsForNumberOfPoints"
    if not (is_nat octets 0) then ok true else do
      interpretation ← grid_section.get "interpretationOfNumberOfPoints"
      ok (not (is_nat interpretation 0))

  unfoldable pub get_shape : Reader F → Value F → Bool → Result (List (Value F))
  get_shape grid_section template reduced =
      if is_one_of template (20 ∷ 30 ∷ 90 ∷ [])
      then (do ny ← grid_section.get "Ny"; nx ← grid_section.get "Nx"; ok (ny ∷ nx ∷ []))
      else if is_nat template 140
      then (do
        ny ← grid_section.get "numberOfPointsAlongYAxis"
        nx ← grid_section.get "numberOfPointsAlongXAxis"
        ok (ny ∷ nx ∷ []))
      else if is_nat template 40 && reduced
      then (do n ← grid_section.get "numberOfDataPoints"; ok (n ∷ []))
      else (do nj ← grid_section.get "Nj"; ni ← grid_section.get "Ni"; ok (nj ∷ ni ∷ []))

  -- The shape of the data, from section 3.
  unfoldable pub data_shape : Reader F → Result (List (Value F))
  unfolding is_reduced get_shape
  data_shape grid_section = do
    source ← grid_section.get "sourceOfGridDefinition"
    guard (is_nat source 0) translation_error
    reduced ← is_reduced grid_section
    template ← grid_section.get "gridDefinitionTemplateNumber"
    guard (not (reduced && not (is_nat template 40))) translation_error
    guard (is_one_of template supported_grid_definitions) translation_error
    scanning ← get_int grid_section "scanningMode"
    guard (not (low_six_set scanning)) translation_error
    get_shape grid_section template reduced

  -- An array of zeros and ones, where a bit is set.
  pub as_bits : Value F → Result (Option (List Bool))
  as_bits (ints bits) = ok (some (map is_set bits))
  as_bits v = err type_error

  -- `_DataProxy._bitmap`: the bitmap as a list of its bits, or none.
  unfoldable pub bitmap : Reader F → Result (Option (List Bool))
  unfolding as_bits
  bitmap bitmap_section = do
    indicator ← bitmap_section.get "bitMapIndicator"
    if is_nat indicator 0
        then (do bits ← bitmap_section.get "bitmap"; as_bits bits)
        else if is_nat indicator 255
        then ok none
        else err translation_error

  abbrev pub as_array : Value F → Result (List (Option F))
  as_array (reals values) = ok values
  as_array v = err type_error

  -- `sections[n]`
  pub section_of : (ℕ → Option (Reader F)) → ℕ → Result (Reader F)
  section_of sections n = elim (sections n) [ none ↦ err key_error | some s ↦ ok s ]

  -- `_data[bitmap] = data` in an empty array, masked where the bitmap is not set. With as many
  -- values as bits that are set, as the caller tests, the second clause is not reached.
  unfoldable pub unpack : List Bool → List (Option F) → List (Option F)
  unpack [] values = []
  unpack (true ∷ bits) [] = none ∷ unpack bits []
  unpack (true ∷ bits) (v ∷ values) = v ∷ unpack bits values
  unpack (false ∷ bits) values = none ∷ unpack bits values

  unfoldable pub apply_bitmap : Option (List Bool) → List (Option F) → Result (List (Option F))
  apply_bitmap none values = ok values
  apply_bitmap (some bits) values =
      if count_set bits == length values then ok (unpack bits values) else err translation_error

  -- Zeros are generated where the message stores no data.
  pub stored_values : F → List ℕ → (ℕ → Option (Reader F)) → Result (Option (List (Option F)))
  stored_values zero_value shape sections = elim (sections 5) [
    | none ↦ ok none
    | some representation ↦ do
      bits ← representation.get "bitsPerValue"
      ok (if is_nat bits 0 then some (replicate (product shape) (some zero_value)) else none)
  ]

  pub coded_values : (ℕ → Option (Reader F)) → Option (List (Option F)) → Result (List (Option F))
  coded_values sections (some values) = ok values
  coded_values sections none = do
    section ← section_of sections 7
    values ← section.get "codedValues"
    as_array values

  -- `data.reshape(shape)`, which raises on another number of elements.
  pub reshape : List ℕ → List (Option F) → Result (List (Option F))
  reshape shape values = if length values == product shape then ok values else err value_error

  -- `_DataProxy.__getitem__`
  unfoldable pub get_data : F → List ℕ → (ℕ → Option (Reader F)) → Result (List (Option F))
  unfolding stored_values coded_values section_of reshape
  get_data zero_value shape sections = do
    stored ← stored_values zero_value shape sections
    values ← coded_values sections stored
    bitmap_section ← section_of sections 6
    bits ← bitmap bitmap_section
    unpacked ← apply_bitmap bits values
    reshape shape unpacked
