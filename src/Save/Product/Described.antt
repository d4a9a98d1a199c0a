-- ===== src/Save/Product/Described.antt =====
-- The choice of the product template by `save_product_definition_section`.
use gribbi.Base.Steps.{known}
use gribbi.Base.{
  ℕ, ◌≡◌, refl, true, false, Bool, not, ◌&&◌, ◌==◌, [], ◌∷◌, if◌then◌else◌, translation_error,
  Option, contains, nat_eq, string_eq, option_eq, pair_eq, Result, ok, err, Returns,
}
use gribbi.Base.Int.{int_eq}
use gribbi.Base.Dict.{Dict}
use gribbi.Externals.{Externals}
use gribbi.Phenom.{CfGrib2Key, CfGrib2Data}
use gribbi.Load.Convert.Safety.{product_templates}
use gribbi.Save.Shape.{Keys}
use gribbi.Save.Cube.{Cube, CubeCoord, FullCube, Encoding, get_coord, has_coord}
use gribbi.Save.Times.{has_bounds}
use gribbi.Save.Product.{save_product_definition_section, has_attribute, cube_is_time_statistic}
use gribbi.Save.Product.Keeps.{HasTemplate}
use gribbi.Save.Product.Template.{
  save_template_0-HasTemplate, save_template_1-HasTemplate, save_template_6-HasTemplate,
  save_template_8-HasTemplate, save_template_10-HasTemplate, save_template_11-HasTemplate,
  save_template_15-HasTemplate, save_template_40-HasTemplate,
}

-- What a number of a product template says of a cube: which of the bounds of its time, a statistic
-- over time, a realization, a constituent, a spatial processing and the two percentiles it has.
pub record DescribesBy
    (bounded over_time member constituent processed percentile time_percentile : Bool) (n : ℕ)
    : Type 0 where
  pub loaded : contains product_templates n ≡ true
  pub over_interval : contains (8 ∷ 10 ∷ 11 ∷ []) n ≡ bounded
  pub summarised : (bounded && not over_time) ≡ false
  pub of_member : contains (1 ∷ 11 ∷ []) n ≡ member
  pub of_constituent : (n == 40) ≡ (not bounded && (not member && constituent))
  pub of_processing : (n == 15) ≡ (not bounded && (not member && (not constituent && processed)))
  pub of_percentile :
      (n == 6) ≡ (not bounded && (not member && (not constituent && (not processed && percentile))))
  pub of_time_percentile : (n == 10) ≡ (bounded && (not member && time_percentile))

module _ {F : Type 0} (x : Externals F) (e : Encoding F) (table : Dict CfGrib2Key CfGrib2Data) where
  abbrev pub Describes : Cube F → CubeCoord F → ℕ → Type 0
  Describes cube time_coord n =
      DescribesBy (has_bounds time_coord) (cube_is_time_statistic cube)
        (has_coord cube "realization") (has_attribute x e table cube "WMO_constituent_type")
        (has_attribute x e table cube "spatial_processing_type") (has_coord cube "percentile")
        (has_coord cube "percentile_over_time") n

  -- The message has a product template that is loaded and that describes the cube.
  abbrev pub IsDescribed : Cube F → Keys F → Type 0
  IsDescribed cube written =
      (time_coord : CubeCoord F) × (get_coord cube "time" ≡ ok time_coord)
      × (n : ℕ) × HasTemplate n written
      × Describes cube time_coord n

  leaf :
      (b st r w s p q : Bool) (n : ℕ) (result : Result (Keys F))
      → Returns (HasTemplate n) result
      → DescribesBy b st r w s p q n
      → Returns (λ written. (n : ℕ) × HasTemplate n written × DescribesBy b st r w s p q n) result
  leaf b st r w s p q n (ok written) h d = (n, h, d)
  leaf b st r w s p q n (err error) h d = tt

  -- The choice of a template by its tests.
  chosen :
      (b st r w s p q : Bool) (r0 r1 r6 r8 r10 r11 r15 r40 : Result (Keys F))
      → Returns (HasTemplate 0) r0
      → Returns (HasTemplate 1) r1
      → Returns (HasTemplate 6) r6
      → Returns (HasTemplate 8) r8
      → Returns (HasTemplate 10) r10
      → Returns (HasTemplate 11) r11
      → Returns (HasTemplate 15) r15
      → Returns (HasTemplate 40) r40
      → Returns
          (λ written. (n : ℕ) × HasTemplate n written × DescribesBy b st r w s p q n)
          (if not b
            then (if r then r1 else if w then r40 else if s then r15 else if p then r6 else r0)
            else if st
            then (if r then r11 else if q then r10 else r8)
            else err translation_error)
  chosen false st true w s p q r0 r1 r6 r8 r10 r11 r15 r40 h0 h1 h6 h8 h10 h11 h15 h40 =
      leaf false st true w s p q 1 r1 h1 (record {
        loaded = refl;
        over_interval = refl;
        summarised = refl;
        of_member = refl;
        of_constituent = refl;
        of_processing = refl;
        of_percentile = refl;
        of_time_percentile = refl;
      })
  chosen false st false true s p q r0 r1 r6 r8 r10 r11 r15 r40 h0 h1 h6 h8 h10 h11 h15 h40 =
      leaf false st false true s p q 40 r40 h40 (record {
        loaded = refl;
        over_interval = refl;
        summarised = refl;
        of_member = refl;
        of_constituent = refl;
        of_processing = refl;
        of_percentile = refl;
        of_time_percentile = refl;
      })
  chosen false st false false true p q r0 r1 r6 r8 r10 r11 r15 r40 h0 h1 h6 h8 h10 h11 h15 h40 =
      leaf false st false false true p q 15 r15 h15 (record {
        loaded = refl;
        over_interval = refl;
        summarised = refl;
        of_member = refl;
        of_constituent = refl;
        of_processing = refl;
        of_percentile = refl;
        of_time_percentile = refl;
      })
  chosen false st false false false true q r0 r1 r6 r8 r10 r11 r15 r40 h0 h1 h6 h8 h10 h11 h15 h40 =
      leaf false st false false false true q 6 r6 h6 (record {
        loaded = refl;
        over_interval = refl;
        summarised = refl;
        of_member = refl;
        of_constituent = refl;
        of_processing = refl;
        of_percentile = refl;
        of_time_percentile = refl;
      })
  chosen false st false false false false q r0 r1 r6 r8 r10 r11 r15 r40 h0 h1 h6 h8 h10 h11 h15
        h40 =
      leaf false st false false false false q 0 r0 h0 (record {
        loaded = refl;
        over_interval = refl;
        summarised = refl;
        of_member = refl;
        of_constituent = refl;
        of_processing = refl;
        of_percentile = refl;
        of_time_percentile = refl;
      })
  chosen true true true w s p q r0 r1 r6 r8 r10 r11 r15 r40 h0 h1 h6 h8 h10 h11 h15 h40 =
      leaf true true true w s p q 11 r11 h11 (record {
        loaded = refl;
        over_interval = refl;
        summarised = refl;
        of_member = refl;
        of_constituent = refl;
        of_processing = refl;
        of_percentile = refl;
        of_time_percentile = refl;
      })
  chosen true true false w s p true r0 r1 r6 r8 r10 r11 r15 r40 h0 h1 h6 h8 h10 h11 h15 h40 =
      leaf true true false w s p true 10 r10 h10 (record {
        loaded = refl;
        over_interval = refl;
        summarised = refl;
        of_member = refl;
        of_constituent = refl;
        of_processing = refl;
        of_percentile = refl;
        of_time_percentile = refl;
      })
  chosen true true false w s p false r0 r1 r6 r8 r10 r11 r15 r40 h0 h1 h6 h8 h10 h11 h15 h40 =
      leaf true true false w s p false 8 r8 h8 (record {
        loaded = refl;
        over_interval = refl;
        summarised = refl;
        of_member = refl;
        of_constituent = refl;
        of_processing = refl;
        of_percentile = refl;
        of_time_percentile = refl;
      })
  chosen true false r w s p q r0 r1 r6 r8 r10 r11 r15 r40 h0 h1 h6 h8 h10 h11 h15 h40 = tt

  -- Where the product section of a cube is written, the message has a product template that the
  -- loading of a message supports, and that describes the cube: 8, 10 or 11 exactly where its time
  -- has bounds, which then are those of a statistic over time, 1 or 11 exactly where it has a
  -- realization, 40, 15 and 6 exactly where it is at an instant, has no realization, and has, before
  -- the others in this order, a constituent, a spatial processing or a percentile, and 10 exactly
  -- where its time has bounds and it has no realization and a percentile over time.
  pub save_product_definition_section-IsDescribed :
      (cube : Cube F) (full : Option (FullCube F)) (grib : Keys F)
      → Returns (IsDescribed cube) (save_product_definition_section x e table cube full grib)
  unfolding save_product_definition_section
  save_product_definition_section-IsDescribed cube full grib =
      known _ (get_coord cube "time") _ (λ time_coord p. timed cube time_coord _ p (
        chosen (has_bounds time_coord) (cube_is_time_statistic cube) (has_coord cube "realization")
          (has_attribute x e table cube "WMO_constituent_type")
          (has_attribute x e table cube "spatial_processing_type") (has_coord cube "percentile")
          (has_coord cube "percentile_over_time") _ _ _ _ _ _ _ _
          (save_template_0-HasTemplate x e table cube full grib)
          (save_template_1-HasTemplate x e table cube full grib)
          (save_template_6-HasTemplate x e table cube full grib)
          (save_template_8-HasTemplate x e table cube grib)
          (save_template_10-HasTemplate x e table cube grib)
          (save_template_11-HasTemplate x e table cube grib)
          (save_template_15-HasTemplate x e table cube full grib)
          (save_template_40-HasTemplate x e table cube grib)))
    where
      timed :
          (cube : Cube F) (time_coord : CubeCoord F) (r : Result (Keys F))
          → get_coord cube "time" ≡ ok time_coord
          → Returns (λ written. (n : ℕ) × HasTemplate n written × Describes cube time_coord n) r
          → Returns (IsDescribed cube) r
      timed cube time_coord (ok written) p (n, h, d) = (time_coord, p, n, h, d)
      timed cube time_coord (err error) p h = tt
