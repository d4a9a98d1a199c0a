-- ===== src/Save/Product/Keeps.antt =====
-- The number of the product template, through the settings that follow it.
use gribbi.Base.Steps.{kept, skip}
use gribbi.Base.{
  ℕ, String, ◌≡◌, ◌∙◌, false, Option, none, some, List, [], ◌∷◌, ◌===◌, nat_eq, string_eq,
  option_eq, pair_eq, Returns,
}
use gribbi.Base.Int.{ℤ, pos, int_eq}
use gribbi.Base.Dict.{Dict, lookup, insert, lookup-insert, lookup-insert_self}
use gribbi.Value.{Value, int}
use gribbi.Externals.{Externals}
use gribbi.Phenom.{CfGrib2Key, CfGrib2Data}
use gribbi.Save.Shape.{Keys}
use gribbi.Save.Cube.{Cube, CubeCoord, CubeMethod, FullCube, FullFactory, Encoding, DateFields}
use gribbi.Save.Times.{set_forecast_time, set_time_range, set_time_increment}
use gribbi.Save.Parameter.{set_discipline_and_parameter, put_parameter}
use gribbi.Save.Surfaces.{
  Vertical, put_surfaces, write_surfaces, write_found, write_pv, write_hybrid, set_fixed_surfaces,
}
use gribbi.Save.Product.{
  numbered, set_ensemble, product_definition_template_common, put_end, set_statistic,
  save_template_8_10_and_11,
}

module _ {F : Type 0} where
  -- The message has product template n.
  abbrev pub HasTemplate : ℕ → Keys F → Type 0
  HasTemplate n grib = lookup "productDefinitionTemplateNumber" grib ≡ some (int (pos n))

  -- Another key.
  pub insert-HasTemplate :
      (n : ℕ) (key : String) (v : Value F) (grib : Keys F)
      → (key === "productDefinitionTemplateNumber") ≡ false
      → HasTemplate n grib
      → HasTemplate n (insert key v grib)
  insert-HasTemplate n key v grib p h =
      lookup-insert "productDefinitionTemplateNumber" key v grib ∙ rw p h

  pub numbered-HasTemplate : (n : ℕ) (grib : Keys F) → HasTemplate n (numbered n grib)
  numbered-HasTemplate n grib =
      lookup-insert_self "productDefinitionTemplateNumber" (int (pos n)) grib

  pub put_surfaces-HasTemplate :
      (n : ℕ) (t v t2 f2 v2 : Value F) (grib : Keys F)
      → HasTemplate n grib
      → HasTemplate n (put_surfaces t v t2 f2 v2 grib)
  unfolding put_surfaces
  put_surfaces-HasTemplate n t v t2 f2 v2 grib h = search (insert-HasTemplate) depth 20

  pub put_parameter-HasTemplate :
      (n : ℕ) (param : ℕ × (ℕ × ℕ)) (grib : Keys F)
      → HasTemplate n grib
      → HasTemplate n (put_parameter param grib)
  unfolding put_parameter
  put_parameter-HasTemplate n (d, (c, m)) grib h = search (insert-HasTemplate) depth 20

module _ {F : Type 0} (x : Externals F) (e : Encoding F) (table : Dict CfGrib2Key CfGrib2Data) where
  pub set_forecast_time-HasTemplate :
      (n : ℕ) (cube : Cube F) (grib : Keys F)
      → HasTemplate n grib
      → Returns (HasTemplate n) (set_forecast_time x e cube grib)
  unfolding set_forecast_time
  set_forecast_time-HasTemplate n cube grib h = search (skip, insert-HasTemplate) depth 20

  pub write_found-HasTemplate :
      (n : ℕ) (found : Vertical F) (code : Value F) (bounds : List (List F)) (grib : Keys F)
      → HasTemplate n grib
      → Returns (HasTemplate n) (write_found x e found code bounds grib)
  unfolding write_found
  write_found-HasTemplate n found code [] grib h = search (skip, put_surfaces-HasTemplate) depth 12
  write_found-HasTemplate n found code (row ∷ rows) grib h =
      search (skip, put_surfaces-HasTemplate) depth 12

  pub write_surfaces-HasTemplate :
      (n : ℕ) (found : Option (Vertical F)) (grib : Keys F)
      → HasTemplate n grib
      → Returns (HasTemplate n) (write_surfaces x e found grib)
  unfolding write_surfaces
  write_surfaces-HasTemplate n none grib h = put_surfaces-HasTemplate n _ _ _ _ _ grib h
  write_surfaces-HasTemplate n (some found) grib h =
      write_found-HasTemplate n found found.code found.coord.bounds grib h

  pub write_pv-HasTemplate :
      (n : ℕ) (levels : Option (List ℤ)) (factory : FullFactory F) (grib : Keys F)
      → HasTemplate n grib
      → Returns (HasTemplate n) (write_pv x e levels factory grib)
  unfolding write_pv
  write_pv-HasTemplate n none factory grib h = tt
  write_pv-HasTemplate n (some levels) factory grib h = search (skip, insert-HasTemplate) depth 12

  pub write_hybrid-HasTemplate :
      (n : ℕ) (full : Option (FullCube F)) (factory : Option (FullFactory F)) (grib : Keys F)
      → HasTemplate n grib
      → Returns (HasTemplate n) (write_hybrid x e full factory grib)
  unfolding write_hybrid
  write_hybrid-HasTemplate n full none grib h = h
  write_hybrid-HasTemplate n full (some factory) grib h =
      search (skip, write_pv-HasTemplate) depth 8

  pub set_fixed_surfaces-HasTemplate :
      (n : ℕ) (cube : Cube F) (full : Option (FullCube F)) (grib : Keys F)
      → HasTemplate n grib
      → Returns (HasTemplate n) (set_fixed_surfaces x e cube full grib)
  unfolding set_fixed_surfaces
  set_fixed_surfaces-HasTemplate n cube full grib h =
      search (kept, skip, write_surfaces-HasTemplate, write_hybrid-HasTemplate) depth 12

  pub product_definition_template_common-HasTemplate :
      (n : ℕ) (cube : Cube F) (full : Option (FullCube F)) (grib : Keys F)
      → HasTemplate n grib
      → Returns (HasTemplate n) (product_definition_template_common x e table cube full grib)
  unfolding product_definition_template_common set_discipline_and_parameter
  product_definition_template_common-HasTemplate n cube full grib h =
      search
        (
          kept, set_forecast_time-HasTemplate, set_fixed_surfaces-HasTemplate, insert-HasTemplate,
          put_parameter-HasTemplate,
        )
        depth 20

  pub set_ensemble-HasTemplate :
      (n : ℕ) (cube : Cube F) (grib : Keys F)
      → HasTemplate n grib
      → Returns (HasTemplate n) (set_ensemble x e table cube grib)
  unfolding set_ensemble
  set_ensemble-HasTemplate n cube grib h = search (skip, insert-HasTemplate) depth 12

  pub put_end-HasTemplate :
      (n : ℕ) (end : DateFields) (grib : Keys F)
      → HasTemplate n grib
      → HasTemplate n (put_end x e table end grib)
  unfolding put_end
  put_end-HasTemplate n end grib h = search (insert-HasTemplate) depth 20

  pub set_time_range-HasTemplate :
      (n : ℕ) (coord : CubeCoord F) (grib : Keys F)
      → HasTemplate n grib
      → Returns (HasTemplate n) (set_time_range x e coord grib)
  unfolding set_time_range
  set_time_range-HasTemplate n coord grib h = search (skip, insert-HasTemplate) depth 20

  pub set_time_increment-HasTemplate :
      (n : ℕ) (method : CubeMethod) (grib : Keys F)
      → HasTemplate n grib
      → Returns (HasTemplate n) (set_time_increment x e method grib)
  unfolding set_time_increment
  set_time_increment-HasTemplate n method grib h = search (skip, insert-HasTemplate) depth 20

  pub set_statistic-HasTemplate :
      (n : ℕ) (methods : List CubeMethod) (grib : Keys F)
      → HasTemplate n grib
      → Returns (HasTemplate n) (set_statistic x e table methods grib)
  unfolding set_statistic
  set_statistic-HasTemplate n [] grib h = h
  set_statistic-HasTemplate n (first ∷ rest) grib h =
      search (skip, set_time_increment-HasTemplate, insert-HasTemplate) depth 20

  pub save_template_8_10_and_11-HasTemplate :
      (n : ℕ) (cube : Cube F) (grib : Keys F)
      → HasTemplate n grib
      → Returns (HasTemplate n) (save_template_8_10_and_11 x e table cube grib)
  unfolding save_template_8_10_and_11
  save_template_8_10_and_11-HasTemplate n cube grib h =
      search
        (
          kept, skip, product_definition_template_common-HasTemplate, put_end-HasTemplate,
          set_time_range-HasTemplate, set_statistic-HasTemplate, insert-HasTemplate,
        )
        depth 30
