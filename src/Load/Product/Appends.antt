-- ===== src/Load/Product/Appends.antt =====
-- The whole of section 4 only appends to the coordinates.
use gribbi.Base.Steps.{either, skip}
use gribbi.Base.{
  ◌≡◌, refl, ◌∙◌, Option, none, some, List, ◌++◌, map, arith, nat_eq, string_eq, option_eq, pair_eq,
  Returns, Returns-bind,
}
use gribbi.Base.Int.{int_eq}
use gribbi.Base.Dict.{Dict}
use gribbi.Value.{Value, is_nat}
use gribbi.Value.{Reader}
use gribbi.Externals.{Externals}
use gribbi.Metadata.{Coord, Metadata}
use gribbi.Phenom.{Grib1CfData, Grib2CfKey, grib2_phenom_to_cf_info}
use gribbi.Load.Statistics.{Probability}
use gribbi.Load.Phenomenon.{name_phenomenon, add_reference, translate_phenomenon, as_octet}
use gribbi.Load.Product.{
  product_definition_section, translate_parameter, apply_template, code_tables_missing,
}
use gribbi.Load.Product.Grows.{Grows, Grows-add_aux}
use gribbi.Load.Product.Templates.{apply_template-Grows}

module _ {F : Type 0} where
  -- The auxiliary coordinates are those there were and some without a dimension behind them, and
  -- the dimension coordinates are those there were.
  pub record Appends (m m' : Metadata F) : Type 0 where
    pub aux :
        (added : List (Coord F)) × (m'.aux_coords_and_dims
          ≡ m.aux_coords_and_dims ++ map (λ c. (c, none)) added)
    pub dim_coords : m'.dim_coords_and_dims ≡ m.dim_coords_and_dims

  Appends-Grows : (m m' : Metadata F) → Grows m m' → Appends m m'
  Appends-Grows m m' g = record { aux = g.aux; dim_coords = g.dim_coords }

  -- Where the coordinates are the same.
  Appends-same :
      (m m' n : Metadata F)
      → n.aux_coords_and_dims ≡ m'.aux_coords_and_dims
      → n.dim_coords_and_dims ≡ m'.dim_coords_and_dims
      → Appends m m'
      → Appends m n
  Appends-same m m' n h k g = record { aux = (g.aux.0, h ∙ g.aux.1); dim_coords = k ∙ g.dim_coords }

  name_phenomenon-Appends :
      (cf : Option Grib1CfData) (probability : Option (Probability F)) (m m' : Metadata F)
      → Grows m m'
      → Appends m (name_phenomenon cf probability m')
  unfolding name_phenomenon
  name_phenomenon-Appends none probability m m' g = Appends-Grows m m' g
  name_phenomenon-Appends (some cf) none m m' g =
      Appends-same m m' _ refl refl (Appends-Grows m m' g)
  name_phenomenon-Appends (some cf) (some probability) m m' g =
      Appends-same m _ _ refl refl (Appends-Grows m _ (Grows-add_aux m m' _ g))

  add_reference-same :
      (discipline category number first_type first_value second_type : Value F) (m : Metadata F)
      → ((add_reference discipline category number first_type first_value second_type
            m).aux_coords_and_dims
          ≡ m.aux_coords_and_dims)
        × ((add_reference discipline category number first_type first_value second_type
              m).dim_coords_and_dims
            ≡ m.dim_coords_and_dims)
  unfolding add_reference
  add_reference-same discipline category number first_type first_value second_type m = ground arith

  translate_phenomenon-Appends :
      (table : Dict Grib2CfKey Grib1CfData)
      (discipline category number first_type first_value second_type : Value F)
      (probability : Option (Probability F)) (m m' : Metadata F)
      → Grows m m'
      → Returns (Appends m) (
          translate_phenomenon table discipline category number first_type first_value second_type
            probability m')
  unfolding translate_phenomenon
  translate_phenomenon-Appends table d c n t v t2 probability m m' g = skip _ (as_octet d) _ (λ d1.
      skip _ (as_octet c) _ (λ c1. skip _ (as_octet n) _ (λ n1.
        Appends-same m (name_phenomenon (grib2_phenom_to_cf_info table d1 c1 n1) probability m') _
          (add_reference-same d c n t v t2 _).0 (add_reference-same d c n t v t2 _).1
          (name_phenomenon-Appends (grib2_phenom_to_cf_info table d1 c1 n1) probability m m' g))))

module _ {F : Type 0} (x : Externals F) where
  -- Where section 4 is translated, the auxiliary coordinates are those there were and behind them
  -- some without a dimension, and the dimension coordinates are those there were.
  pub product_definition_section-Appends :
      (table : Dict Grib2CfKey Grib1CfData) (section : Reader F) (discipline version : Value F)
      (rt_coord : Coord F) (m : Metadata F)
      → Returns
          (Appends m)
          (product_definition_section x table section discipline version rt_coord m)
  unfolding product_definition_section translate_parameter
  product_definition_section-Appends table section discipline version rt_coord m =
      skip _ (section.get "productDefinitionTemplateNumber") _ (λ template.
        Returns-bind (λ (p, done). Grows m done) (Appends m)
          (apply_template x template section rt_coord m) _
          (apply_template-Grows x template section rt_coord m)
          (λ (p, done) g.
            either _ (is_nat version code_tables_missing) _ _ (Appends-Grows m done g)
              (search (skip, translate_phenomenon-Appends) depth 9)))
