-- ===== src/Save/Product/Template.antt =====
-- The number of the product template that each way of saving sets.
use gribbi.Base.Steps.{kept, skip}
use gribbi.Base.{ℕ, refl, Option, none, some, nat_eq, string_eq, option_eq, pair_eq, Returns}
use gribbi.Base.Int.{pos, int_eq}
use gribbi.Base.Dict.{Dict}
use gribbi.Value.{int}
use gribbi.Externals.{Externals}
use gribbi.Phenom.{CfGrib2Key, CfGrib2Data}
use gribbi.Save.Shape.{Keys}
use gribbi.Save.Cube.{Cube, FullCube, Encoding}
use gribbi.Save.Product.{
  save_template_0, save_template_1, save_template_6, save_template_8, save_template_10,
  save_template_11, save_template_15, save_template_40, put_process, save_processing,
  InterpolationParameters,
}
use gribbi.Save.Product.Keeps.{
  HasTemplate, insert-HasTemplate, numbered-HasTemplate,
  product_definition_template_common-HasTemplate, save_template_8_10_and_11-HasTemplate,
  set_ensemble-HasTemplate,
}

module _ {F : Type 0} (x : Externals F) (e : Encoding F) (table : Dict CfGrib2Key CfGrib2Data) where
  pub save_template_0-HasTemplate :
      (cube : Cube F) (full : Option (FullCube F)) (grib : Keys F)
      → Returns (HasTemplate 0) (save_template_0 x e table cube full grib)
  unfolding save_template_0
  save_template_0-HasTemplate cube full grib =
      (product_definition_template_common-HasTemplate x e table 0 cube full _
        (numbered-HasTemplate 0 grib))

  pub save_template_1-HasTemplate :
      (cube : Cube F) (full : Option (FullCube F)) (grib : Keys F)
      → Returns (HasTemplate 1) (save_template_1 x e table cube full grib)
  unfolding save_template_1
  save_template_1-HasTemplate cube full grib =
      (search
        (
          kept, product_definition_template_common-HasTemplate, numbered-HasTemplate,
          set_ensemble-HasTemplate,
        )
        depth 12)

  pub save_template_6-HasTemplate :
      (cube : Cube F) (full : Option (FullCube F)) (grib : Keys F)
      → Returns (HasTemplate 6) (save_template_6 x e table cube full grib)
  unfolding save_template_6
  save_template_6-HasTemplate cube full grib =
      (search
        (
          kept, skip, product_definition_template_common-HasTemplate, numbered-HasTemplate,
          insert-HasTemplate,
        )
        depth 12)

  pub save_template_8-HasTemplate :
      (cube : Cube F) (grib : Keys F)
      → Returns (HasTemplate 8) (save_template_8 x e table cube grib)
  unfolding save_template_8
  save_template_8-HasTemplate cube grib =
      (save_template_8_10_and_11-HasTemplate x e table 8 cube _ (numbered-HasTemplate 8 grib))

  pub save_template_10-HasTemplate :
      (cube : Cube F) (grib : Keys F)
      → Returns (HasTemplate 10) (save_template_10 x e table cube grib)
  unfolding save_template_10
  save_template_10-HasTemplate cube grib =
      (search
        (skip, save_template_8_10_and_11-HasTemplate, numbered-HasTemplate, insert-HasTemplate)
        depth 12)

  pub save_template_11-HasTemplate :
      (cube : Cube F) (grib : Keys F)
      → Returns (HasTemplate 11) (save_template_11 x e table cube grib)
  unfolding save_template_11
  save_template_11-HasTemplate cube grib =
      (search
        (
          kept, save_template_8_10_and_11-HasTemplate, numbered-HasTemplate,
          set_ensemble-HasTemplate,
        )
        depth 12)

  put_process-HasTemplate :
      (n : ℕ) (process : Option ℕ) (grib : Keys F)
      → HasTemplate n grib
      → HasTemplate n (put_process x e table process grib)
  unfolding put_process
  put_process-HasTemplate n none grib h = h
  put_process-HasTemplate n (some code) grib h =
      insert-HasTemplate n "statisticalProcess" (int (pos code)) grib refl h

  save_processing-HasTemplate :
      (code : ℕ) (parameters : Option InterpolationParameters) (cube : Cube F)
      (full : Option (FullCube F)) (grib : Keys F)
      → Returns (HasTemplate 15) (save_processing x e table code parameters cube full grib)
  unfolding save_processing
  save_processing-HasTemplate code none cube full grib = tt
  save_processing-HasTemplate code (some parameters) cube full grib =
      search
        (
          kept, skip, product_definition_template_common-HasTemplate, numbered-HasTemplate,
          put_process-HasTemplate, insert-HasTemplate,
        )
        depth 16

  pub save_template_15-HasTemplate :
      (cube : Cube F) (full : Option (FullCube F)) (grib : Keys F)
      → Returns (HasTemplate 15) (save_template_15 x e table cube full grib)
  unfolding save_template_15
  save_template_15-HasTemplate cube full grib = (search (skip, save_processing-HasTemplate) depth 8)

  pub save_template_40-HasTemplate :
      (cube : Cube F) (grib : Keys F)
      → Returns (HasTemplate 40) (save_template_40 x e table cube grib)
  unfolding save_template_40
  save_template_40-HasTemplate cube grib =
      (search
        (
          kept, skip, product_definition_template_common-HasTemplate, numbered-HasTemplate,
          insert-HasTemplate,
        )
        depth 12)
