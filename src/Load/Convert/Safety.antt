-- ===== src/Load/Convert/Safety.antt =====
-- What a message must hold where its translation succeeds.
use gribbi.Base.{
  ℕ, String, ◌≡◌, refl, inl, inr, Bool, true, false, not, ◌||◌, List, [], ◌∷◌, ◌++◌, arith,
  if◌then◌else◌, Bool-cases, nat_eq, string_eq, option_eq, pair_eq, Error, translation_error, ok,
  err, ◌>>=◌, guard, >>=-eq-ok,
}
use gribbi.Base.Int.{int_eq}
use gribbi.Base.Dict.{Dict}
use gribbi.Value.{Value, is_nat}
use gribbi.Value.{Reader, is_one_of}
use gribbi.Externals.{Externals}
use gribbi.Metadata.{Coord, Metadata}
use gribbi.Phenom.{Grib1CfData, Grib2CfKey}
use gribbi.Load.Grid.Points.{Geometry}
use gribbi.Load.Grid.{grid_definition_section}
use gribbi.Load.Product.{
  product_definition_section, apply_template, code_tables_missing, translate_parameter,
}
use gribbi.Load.Convert.{
  convert, grib2_convert, data_representation_section, bitmap_section, section_of,
  grid_point_templates, spectral_templates, bitmap_codes, empty_metadata, reference_time_coord,
  set_centre,
}

abbrev pub product_templates : List ℕ
product_templates = 0 ∷ 1 ∷ 6 ∷ 8 ∷ 9 ∷ 10 ∷ 11 ∷ 15 ∷ 31 ∷ 32 ∷ 40 ∷ []

guarded : (b : Bool) (e : Error) (u : Unit {0}) → guard b e ≡ ok u → b ≡ true
guarded true e u h = refl
guarded false e u h = cc

module _ {F : Type 0} where
  -- What is read under a key of one of the sections is one of these numbers.
  abbrev pub Holds : Dict ℕ (Reader F) → ℕ → String → List ℕ → Type 0
  Holds sections number key allowed =
      (section : Reader F) × (value : Value F) × (section_of sections number ≡ ok section)
      × (section.get key ≡ ok value)
      × (is_one_of value allowed ≡ true)

  -- A read that a guard follows.
  checked :
      (sections : Dict ℕ (Reader F)) (number : ℕ) (section : Reader F) (key : String)
      (allowed : List ℕ) (u : Unit {0})
      → section_of sections number ≡ ok section
      → (do value ← section.get key; guard (is_one_of value allowed) translation_error) ≡ ok u
      → Holds sections number key allowed
  checked sections number section key allowed u p h =
      let (value, read, passed) = >>=-eq-ok (section.get key) _ h in
      (section, value, p, read, guarded (is_one_of value allowed) translation_error u passed)

module _ {F : Type 0} (x : Externals F) where
  not_supported :
      (template : Value F) (section : Reader F) (rt_coord : Coord F) (m : Metadata F)
      → is_one_of template product_templates ≡ false
      → apply_template x template section rt_coord m ≡ err translation_error
  unfolding apply_template
  not_supported template section rt_coord m h = ground arith

  product_definition_section-supported :
      (table : Dict Grib2CfKey Grib1CfData) (section : Reader F) (discipline version : Value F)
      (rt_coord : Coord F) (m done : Metadata F)
      → product_definition_section x table section discipline version rt_coord m ≡ ok done
      → (value : Value F) × (section.get "productDefinitionTemplateNumber" ≡ ok value)
        × (is_one_of value product_templates ≡ true)
  unfolding product_definition_section
  product_definition_section-supported table section discipline version rt_coord m done h =
      let (template, read, rest) = >>=-eq-ok (section.get "productDefinitionTemplateNumber") _ h in
      (
        template,
        read,
        elim (Bool-cases (is_one_of template product_templates)) [
          | inl supported ↦ supported
          | inr other ↦ absurd template (not_supported template section rt_coord m other) rest
        ],
      )
    where
      absurd :
          (template : Value F)
          → apply_template x template section rt_coord m ≡ err translation_error
          → (do
            (probability, gone) ← apply_template x template section rt_coord m
            if is_nat version code_tables_missing
                then ok gone
                else translate_parameter x table section discipline
                    (not (is_nat template 31 || is_nat template 32))
                    probability
                    gone)
            ≡ ok done
          → is_one_of template product_templates ≡ true
      absurd template p q = ground (arith, p, q)

module _ {F : Type 0} (x : Externals F) (g : Geometry F) (table : Dict Grib2CfKey Grib1CfData) where
  grib2_convert-supported :
      (sections : Dict ℕ (Reader F)) (before m : Metadata F)
      → grib2_convert x g table sections before ≡ ok m
      → Holds sections 4 "productDefinitionTemplateNumber" product_templates
        × Holds sections 5 "dataRepresentationTemplateNumber"
            (grid_point_templates ++ spectral_templates)
        × Holds sections 6 "bitMapIndicator" bitmap_codes
  unfolding grib2_convert data_representation_section bitmap_section
  grib2_convert-supported sections before m h =
      let (identification, p1, h1) = >>=-eq-ok (section_of sections 1) _ h in
      let (centre, p2, h2) = >>=-eq-ok (identification.get "centre") _ h1 in
      let (rt_coord, p3, h3) = >>=-eq-ok (reference_time_coord x identification) _ h2 in
      let (grid, p4, h4) = >>=-eq-ok (section_of sections 3) _ h3 in
      let (gridded, p5, h5) =
        >>=-eq-ok (grid_definition_section x g grid (set_centre centre before)) _ h4 in
      let (product, p6, h6) = >>=-eq-ok (section_of sections 4) _ h5 in
      let (indicator, p7, h7) = >>=-eq-ok (section_of sections 0) _ h6 in
      let (discipline, p8, h8) = >>=-eq-ok (indicator.get "discipline") _ h7 in
      let (version, p9, h9) = >>=-eq-ok (identification.get "tablesVersion") _ h8 in
      let (done, p10, h10) =
        >>=-eq-ok (product_definition_section x table product discipline version rt_coord gridded) _
          h9 in
      let (representation, p11, h11) = >>=-eq-ok (section_of sections 5) _ h10 in
      let (u, p12, h12) = >>=-eq-ok (data_representation_section representation) _ h11 in
      let (bitmap, p13, h13) = >>=-eq-ok (section_of sections 6) _ h12 in
      let (v, p14, h14) = >>=-eq-ok (bitmap_section bitmap) _ h13 in
      let (template, read, found) =
        product_definition_section-supported x table product discipline version rt_coord gridded
          done p10 in
      (
        (product, template, p6, read, found),
        checked sections 5 representation "dataRepresentationTemplateNumber"
            (grid_point_templates ++ spectral_templates) u p11 p12,
        checked sections 6 bitmap "bitMapIndicator" bitmap_codes v p13 p14,
      )

  -- Where a message is translated, its edition is 2, its product template one of the eleven, its
  -- data representation one of the eleven, and its bitmap indicator 0 or 255.
  pub convert-supported :
      (sections : Dict ℕ (Reader F)) (m : Metadata F)
      → convert x g table sections ≡ ok m
      → Holds sections 0 "editionNumber" (2 ∷ [])
        × Holds sections 4 "productDefinitionTemplateNumber" product_templates
        × Holds sections 5 "dataRepresentationTemplateNumber"
            (grid_point_templates ++ spectral_templates)
        × Holds sections 6 "bitMapIndicator" bitmap_codes
  unfolding convert grib2_convert data_representation_section bitmap_section
  convert-supported sections m h =
      let (indicator, at_indicator, h1) = >>=-eq-ok (section_of sections 0) _ h in
      let (edition, read_edition, h2) = >>=-eq-ok (indicator.get "editionNumber") _ h1 in
      let (u, is_2, h3) = >>=-eq-ok (guard (is_nat edition 2) translation_error) _ h2 in
      let (product, representation, bitmap) =
        grib2_convert-supported sections empty_metadata m h3 in
      (
        (
          indicator,
          edition,
          at_indicator,
          read_edition,
          rw (guarded (is_nat edition 2) translation_error u is_2) refl,
        ),
        product,
        representation,
        bitmap,
      )
