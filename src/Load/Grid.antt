-- ===== src/Load/Grid.antt =====
-- Section 3 of _load_convert.py: the grid templates and their dispatch.
pub mod Form
pub mod Points
pub mod LatLon
pub mod Projected
pub mod Special
pub mod Adds
pub mod Sized
pub mod Fits
pub mod Agrees
use gribbi.Base.{
  ℕ, zero, suc, ◌+◌, ◌-◌, ◌*◌, ◌/◌, ◌%◌, ◌^◌, ◌≤◌, ◌<◌, String, ◌≡◌, refl, sym, ap, ◌∙◌, subst, ◌≢◌,
  ◌↔◌, ◌⊎◌, inl, inr, Bool, true, false, not, ◌&&◌, ◌||◌, Option, none, some, List, [], ◌∷◌, ◌++◌,
  map, append-nil, append_assoc, arith, ltb, leb, ◌==◌, if◌then◌else◌, ltb→lt, lt→ltb, leb→le,
  ==_iff, Bool-cases, Option-cases, length, get_elem?, set, get_or, take, drop, replicate,
  length-append, length-set, get_elem?-set_self, get_elem?-set_ne, length-replicate, Eq, ◌===◌,
  contains, nat_eq, string_eq, option_eq, pair_eq, Error, translation_error, value_error, key_error,
  type_error, index_error, attribute_error, assertion_error, name_error, zero_division_error,
  codes_error, Result, ok, err, Result-cases, ◌>>=◌, ◌>>◌, guard, is_ok, >>=-eq-ok, Returns,
  Returns-bind,
}
use gribbi.Value.{Value, is_nat, Reader}
use gribbi.Externals.{Externals}
use gribbi.Metadata.{Metadata}
use gribbi.Load.Grid.Points.{Geometry}
use gribbi.Load.Grid.LatLon.{
  grid_definition_template_0, grid_definition_template_1, grid_definition_template_4,
  grid_definition_template_5,
}
use gribbi.Load.Grid.Projected.{
  grid_definition_template_10, grid_definition_template_20, grid_definition_template_30,
  grid_definition_template_140,
}
use gribbi.Load.Grid.Special.{
  grid_definition_template_12, grid_definition_template_40, grid_definition_template_90,
}

module _ {F : Type 0} (x : Externals F) (g : Geometry F) where
  -- The choice of a template.
  unfoldable pub apply_grid_template : Value F → Reader F → Metadata F → Result (Metadata F)
  apply_grid_template template section m =
      if is_nat template 0
      then grid_definition_template_0 x g section m
      else if is_nat template 1
      then grid_definition_template_1 x g section m
      else if is_nat template 4
      then grid_definition_template_4 x g section m
      else if is_nat template 5
      then grid_definition_template_5 x g section m
      else if is_nat template 10
      then grid_definition_template_10 x g section m
      else if is_nat template 12
      then grid_definition_template_12 x g section m
      else if is_nat template 20
      then grid_definition_template_20 x g section m
      else if is_nat template 30
      then grid_definition_template_30 x g section m
      else if is_nat template 40
      then grid_definition_template_40 x g section m
      else if is_nat template 90
      then grid_definition_template_90 x g section m
      else if is_nat template 140
      then grid_definition_template_140 x g section m
      else err translation_error

  unfoldable pub grid_definition_section : Reader F → Metadata F → Result (Metadata F)
  grid_definition_section section m = do
    source ← section.get "sourceOfGridDefinition"
    guard (is_nat source 0) translation_error
    template ← section.get "gridDefinitionTemplateNumber"
    apply_grid_template template section m
