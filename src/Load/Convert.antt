-- ===== src/Load/Convert.antt =====
-- _load_convert.py: sections 1, 5 and 6 of a GRIB2 message and the translation of all of it,
-- `grib2_convert` and the branch of `convert` for a message with sections.
pub mod Safety
pub mod Layout
use gribbi.Base.{
  ℕ, zero, suc, ◌+◌, ◌-◌, ◌*◌, ◌/◌, ◌%◌, ◌^◌, ◌≤◌, ◌<◌, String, ◌≡◌, refl, sym, ap, ◌∙◌, subst, ◌≢◌,
  ◌↔◌, ◌⊎◌, inl, inr, Bool, true, false, not, ◌&&◌, ◌||◌, Option, none, some, List, [], ◌∷◌, ◌++◌,
  map, append-nil, append_assoc, arith, ltb, leb, ◌==◌, if◌then◌else◌, ltb→lt, lt→ltb, leb→le,
  ==_iff, Bool-cases, Option-cases, length, get_elem?, set, get_or, take, drop, replicate,
  length-append, length-set, get_elem?-set_self, get_elem?-set_ne, length-replicate, Eq, ◌===◌,
  contains, nat_eq, string_eq, option_eq, pair_eq, Error, translation_error, value_error, key_error,
  type_error, index_error, attribute_error, assertion_error, name_error, codes_error, Result, ok,
  err, Result-cases, ◌>>=◌, ◌>>◌, guard, is_ok, >>=-eq-ok, Returns, Returns-bind,
}
use gribbi.Base.Int.{
  ℤ, pos, negsuc, pos_part, neg_part, sub_ℕ, ◌+ℤ◌, ◌-ℤ◌, ◌*ℤ◌, ltb_ℤ, beq_ℤ, beq_ℤ_iff, int_eq,
  bit_set,
}
use gribbi.Base.Dict.{
  Dict, keys, lookup, insert, lookup-insert, lookup-insert_self, AllValues, AllValues-lookup,
}
use gribbi.Value.{Value, missing, int, real, string, ints, reals, masked, is_nat}
use gribbi.Value.{Reader, get_int, as_int, is_one_of}
use gribbi.Externals.{Externals}
use gribbi.Metadata.{Coord, Metadata, Attribute, plain}
use gribbi.Phenom.{Grib1CfData, Grib2CfKey}
use gribbi.Load.Time.{reference_time_coord}
use gribbi.Load.Phenomenon.{set_attribute}
use gribbi.Load.Grid.Points.{Geometry}
use gribbi.Load.Grid.{grid_definition_section}
use gribbi.Load.Product.{product_definition_section}

abbrev pub centres : Dict String String
centres = ("ecmf", "European Centre for Medium Range Weather Forecasts") ∷ []

abbrev pub bitmap_codes : List ℕ
bitmap_codes = 255 ∷ 0 ∷ []

abbrev pub grid_point_templates : List ℕ
grid_point_templates = 0 ∷ 1 ∷ 2 ∷ 3 ∷ 4 ∷ 40 ∷ 41 ∷ 42 ∷ 61 ∷ []

abbrev pub spectral_templates : List ℕ
spectral_templates = 50 ∷ 51 ∷ []

module _ {F : Type 0} where
  unfoldable pub data_representation_section : Reader F → Result (Unit {0})
  data_representation_section section = do
    template ← section.get "dataRepresentationTemplateNumber"
    guard (is_one_of template (grid_point_templates ++ spectral_templates)) translation_error

  unfoldable pub bitmap_section : Reader F → Result (Unit {0})
  bitmap_section section = do
    indicator ← section.get "bitMapIndicator"
    guard (is_one_of indicator bitmap_codes) translation_error

  -- `field.sections[number]`
  abbrev pub section_of : Dict ℕ (Reader F) → ℕ → Result (Reader F)
  section_of sections number = elim (lookup number sections) [
    | none ↦ err key_error
    | some section ↦ ok section
  ]

  -- `_CENTRES.get(centre)`
  abbrev pub centre_name : Value F → Option String
  centre_name (string name) = lookup name centres
  centre_name v = none

  abbrev pub set_centre : Value F → Metadata F → Metadata F
  set_centre centre m = elim (centre_name centre) [
    | none ↦ m
    | some name ↦ set_attribute "centre" (plain (string name)) m
  ]

  abbrev pub empty_metadata : Metadata F
  empty_metadata = record {
    factories = [];
    references = [];
    standard_name = none;
    long_name = none;
    units = none;
    attributes = [];
    cell_methods = [];
    dim_coords_and_dims = [];
    aux_coords_and_dims = [];
  }

module _ {F : Type 0} (x : Externals F) (g : Geometry F) (table : Dict Grib2CfKey Grib1CfData) where
  unfoldable pub grib2_convert : Dict ℕ (Reader F) → Metadata F → Result (Metadata F)
  grib2_convert sections m = do
    identification ← section_of sections 1
    centre ← identification.get "centre"
    rt_coord ← reference_time_coord x identification
    grid ← section_of sections 3
    gridded ← grid_definition_section x g grid (set_centre centre m)
    product ← section_of sections 4
    indicator ← section_of sections 0
    discipline ← indicator.get "discipline"
    tables_version ← identification.get "tablesVersion"
    done ← product_definition_section x table product discipline tables_version rt_coord gridded
    representation ← section_of sections 5
    data_representation_section representation
    bitmap ← section_of sections 6
    bitmap_section bitmap
    ok done

  unfoldable pub convert : Dict ℕ (Reader F) → Result (Metadata F)
  convert sections = do
    indicator ← section_of sections 0
    edition ← indicator.get "editionNumber"
    guard (is_nat edition 2) translation_error
    grib2_convert sections empty_metadata
