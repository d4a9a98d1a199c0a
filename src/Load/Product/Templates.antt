-- ===== src/Load/Product/Templates.antt =====
-- The other product templates and the choice of one leave the same alone.
use gribbi.Base.Steps.{either, skip}
use gribbi.Base.{
  Bool, true, false, Option, none, some, [], ◌∷◌, if◌then◌else◌, ◌===◌, nat_eq, string_eq,
  option_eq, pair_eq, translation_error, Result, ok, err, ◌>>=◌, Returns, Returns-bind,
}
use gribbi.Base.Int.{int_eq}
use gribbi.Value.{Value, string, is_nat}
use gribbi.Value.{Reader}
use gribbi.Externals.{Externals}
use gribbi.Metadata.{Coord, Metadata, plain}
use gribbi.Tables.{InterpolationParameters, spatial_processing_types, lookup_value}
use gribbi.Load.Product.Grows.{Grows, Grows-refl, Grows-add_aux, Grows-free}
use gribbi.Load.Product.{
  product_definition_template_0, product_definition_template_8, product_definition_template_15,
  product_definition_template_40, product_definition_template_1, product_definition_template_11,
  product_definition_template_32, product_definition_template_9, product_definition_template_31,
  product_definition_template_10, product_definition_template_6, set_attribute, drop_cell_method,
  statistical_method_name, add_area_method, apply_template, without_probability, Probability,
}
use gribbi.Load.Product.Frame.{
  further, dropped, attributed, product_definition_template_0-Grows,
  product_definition_template_8-Grows, time_coords-Grows, satellite_common-Grows,
}

module _ {F : Type 0} (x : Externals F) where
  product_definition_template_1-Grows :
      (section : Reader F) (frt_coord : Coord F) (m m' : Metadata F)
      → Grows m m'
      → Returns (Grows m) (product_definition_template_1 x section frt_coord m')
  unfolding product_definition_template_1
  product_definition_template_1-Grows section frt_coord m m' g =
      search (skip, further, product_definition_template_0-Grows, Grows-add_aux) depth 9

  product_definition_template_6-Grows :
      (section : Reader F) (frt_coord : Coord F) (m m' : Metadata F)
      → Grows m m'
      → Returns (Grows m) (product_definition_template_6 x section frt_coord m')
  unfolding product_definition_template_6
  product_definition_template_6-Grows section frt_coord m m' g =
      search (skip, further, product_definition_template_0-Grows, Grows-add_aux) depth 9

  product_definition_template_10-Grows :
      (section : Reader F) (frt_coord : Coord F) (m m' : Metadata F)
      → Grows m m'
      → Returns (Grows m) (product_definition_template_10 x section frt_coord m')
  unfolding product_definition_template_10
  product_definition_template_10-Grows section frt_coord m m' g =
      search (skip, further, product_definition_template_8-Grows, Grows-add_aux) depth 9

  product_definition_template_11-Grows :
      (section : Reader F) (frt_coord : Coord F) (m m' : Metadata F)
      → Grows m m'
      → Returns (Grows m) (product_definition_template_11 x section frt_coord m')
  unfolding product_definition_template_11
  product_definition_template_11-Grows section frt_coord m m' g =
      search (skip, further, product_definition_template_8-Grows, Grows-add_aux) depth 9

  product_definition_template_31-Grows :
      (section : Reader F) (rt_coord : Coord F) (m m' : Metadata F)
      → Grows m m'
      → Returns (Grows m) (product_definition_template_31 x section rt_coord m')
  unfolding product_definition_template_31
  product_definition_template_31-Grows section rt_coord m m' g =
      search (further, satellite_common-Grows, Grows-add_aux) depth 9

  product_definition_template_32-Grows :
      (section : Reader F) (rt_coord : Coord F) (m m' : Metadata F)
      → Grows m m'
      → Returns (Grows m) (product_definition_template_32 x section rt_coord m')
  unfolding product_definition_template_32
  product_definition_template_32-Grows section rt_coord m m' g =
      search (skip, further, time_coords-Grows, satellite_common-Grows) depth 9

  product_definition_template_40-Grows :
      (section : Reader F) (frt_coord : Coord F) (m m' : Metadata F)
      → Grows m m'
      → Returns (Grows m) (product_definition_template_40 x section frt_coord m')
  unfolding product_definition_template_40
  product_definition_template_40-Grows section frt_coord m m' g =
      search (skip, further, product_definition_template_0-Grows, attributed) depth 9

  product_definition_template_15-Grows :
      (section : Reader F) (frt_coord : Coord F) (m m' : Metadata F)
      → Grows m m'
      → Returns (Grows m) (product_definition_template_15 x section frt_coord m')
  unfolding product_definition_template_15
  product_definition_template_15-Grows section frt_coord m m' g =
      skip (Grows m) (section.get "spatialProcessing") _
        (λ code. processed (lookup_value code spatial_processing_types))
    where
      area :
          (is_statistic : Bool) (common : Metadata F)
          → Grows m common
          → Returns (Grows m) (
              if is_statistic
              then (do
                name ← statistical_method_name section
                ok (record common {
                  cell_methods =
                      record { method = name; coords = "area" ∷ []; intervals = none } ∷ [];
                }))
              else ok common)
      area true common h =
          skip (Grows m) (statistical_method_name section) _
            (λ name. Grows-free m common common.attributes _ h)
      area false common h = h

      processed :
          (found : Option InterpolationParameters)
          → Returns (Grows m) (elim found [
            | none ↦ err translation_error
            | some p ↦ do
              common ← product_definition_template_0 x section frt_coord m'
              add_area_method section p (
                  set_attribute "spatial_processing_type"
                    (plain (string p.interpolation_type))
                    common)
          ])
      processed none = tt
      processed (some p) =
          further (product_definition_template_0 x section frt_coord m') _
            (product_definition_template_0-Grows x section frt_coord m m' g)
            (λ common h.
              area (p.statistical_process === some "cell_method") _ (attributed m common _ _ h))

  product_definition_template_9-Grows :
      (section : Reader F) (frt_coord : Coord F) (m m' : Metadata F)
      → Grows m m'
      → Returns (λ (p, done). Grows m done) (product_definition_template_9 x section frt_coord m')
  unfolding product_definition_template_9
  product_definition_template_9-Grows section frt_coord m m' g =
      Returns-bind (Grows m) (λ (p, done). Grows m done)
        (product_definition_template_8 x section frt_coord m') _
        (product_definition_template_8-Grows x section frt_coord m m' g)
        (λ common h.
          Returns-bind (Grows m) (λ (p, done). Grows m done) (drop_cell_method common) _
            (dropped m common common.cell_methods h) (λ cleared k. search (skip)))

  -- The template read from the message picks one of these, or none.
  unnamed :
      (m : Metadata F) (r : Result (Metadata F))
      → Returns (Grows m) r
      → Returns (λ (p, done). Grows m done) (without_probability r)
  unnamed m (ok a) h = h
  unnamed m (err e) h = tt

  named :
      (m : Metadata F) (r : Result (Probability F × Metadata F))
      → Returns (λ (p, done). Grows m done) r
      → Returns
          (λ (p, done). Grows m done)
          (do (probability, done) ← r; ok (some probability, done))
  named m (ok (p, a)) h = h
  named m (err e) h = tt

  -- Where a product template is translated, auxiliary coordinates without a dimension and
  -- factories are appended to those there were, and the dimension coordinates, the references,
  -- the names and the units are those there were.
  pub apply_template-Grows :
      (template : Value F) (section : Reader F) (rt_coord : Coord F) (m : Metadata F)
      → Returns (λ (p, done). Grows m done) (apply_template x template section rt_coord m)
  unfolding apply_template
  apply_template-Grows template section rt_coord m =
      either _ (is_nat template 0) _ _
        (unnamed m (product_definition_template_0 x section rt_coord m)
          (product_definition_template_0-Grows x section rt_coord m m (Grows-refl m)))
        (either _ (is_nat template 1) _ _
          (unnamed m (product_definition_template_1 x section rt_coord m)
            (product_definition_template_1-Grows section rt_coord m m (Grows-refl m)))
          (either _ (is_nat template 6) _ _
            (unnamed m (product_definition_template_6 x section rt_coord m)
              (product_definition_template_6-Grows section rt_coord m m (Grows-refl m)))
            (either _ (is_nat template 8) _ _
              (unnamed m (product_definition_template_8 x section rt_coord m)
                (product_definition_template_8-Grows x section rt_coord m m (Grows-refl m)))
              (either _ (is_nat template 9) _ _
                (named m (product_definition_template_9 x section rt_coord m)
                  (product_definition_template_9-Grows section rt_coord m m (Grows-refl m)))
                (either _ (is_nat template 10) _ _
                  (unnamed m (product_definition_template_10 x section rt_coord m)
                    (product_definition_template_10-Grows section rt_coord m m (Grows-refl m)))
                  (either _ (is_nat template 11) _ _
                    (unnamed m (product_definition_template_11 x section rt_coord m)
                      (product_definition_template_11-Grows section rt_coord m m (Grows-refl m)))
                    (either _ (is_nat template 15) _ _
                      (unnamed m (product_definition_template_15 x section rt_coord m)
                        (product_definition_template_15-Grows section rt_coord m m (Grows-refl m)))
                      (either _ (is_nat template 31) _ _
                        (unnamed m (product_definition_template_31 x section rt_coord m) (
                          product_definition_template_31-Grows section rt_coord m m (Grows-refl m)))
                        (either _ (is_nat template 32) _ _
                          (unnamed m (product_definition_template_32 x section rt_coord m) (
                            product_definition_template_32-Grows section rt_coord m m
                              (Grows-refl m)))
                          (either _ (is_nat template 40) _ _
                            (unnamed m (product_definition_template_40 x section rt_coord m) (
                              product_definition_template_40-Grows section rt_coord m m
                                (Grows-refl m)))
                            (tt)))))))))))
