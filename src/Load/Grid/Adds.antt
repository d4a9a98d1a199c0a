-- ===== src/Load/Grid/Adds.antt =====
-- What a grid adds to the metadata.
use gribbi.Base.Steps.{known, met, skip}
use gribbi.Base.{
  if◌then◌else◌, ◌≡◌, ◌==◌, ℕ, refl, inl, inr, true, false, Bool-cases, arith, Result, ok, String,
  nat_eq, string_eq, option_eq, pair_eq, Returns,
}
use gribbi.Value.{Value, Reader}
use gribbi.Externals.{Externals}
use gribbi.CoordSystems.{CoordSystem, geog}
use gribbi.Metadata.{Metadata}
use gribbi.Base.Int.{pos, negsuc}
use gribbi.Message.Data.{is_reduced}
use gribbi.Load.Grid.Points.{Geometry}
use gribbi.Load.Grid.LatLon.{
  grid_definition_template_0_and_1, grid_definition_template_4_and_5, grid_definition_template_0,
  grid_definition_template_1, grid_definition_template_4, grid_definition_template_5,
}
use gribbi.Load.Grid.Projected.{
  grid_definition_template_10, grid_definition_template_20, grid_definition_template_30,
  grid_definition_template_140, calculate_proj_coords_from_grid_lengths, add_projected,
}
use gribbi.Load.Grid.Special.{
  grid_definition_template_12, grid_definition_template_40, grid_definition_template_40_regular,
  grid_definition_template_40_reduced, grid_definition_template_90,
}
use gribbi.Value.{is_nat, missing, int, real, string, ints, reals, masked}
use gribbi.Load.Grid.{apply_grid_template, grid_definition_section}
use gribbi.Load.Ellipsoid.{earth}
use gribbi.Load.Grid.Form.{
  one_by_one, columns_first, form_of, AddsGrid, one_dimension, AddsRows, rows,
  scanning_mode-columns_first, add_grid-AddsRows, AddsRows-AddsGrid,
}

module _ {F : Type 0} (x : Externals F) (g : Geometry F) where
  grid_definition_template_0_and_1-AddsRows :
      (y_name x_name : String) (cs : CoordSystem F) (section : Reader F) (m : Metadata F)
      → Returns
          (AddsRows section m)
          (grid_definition_template_0_and_1 x g y_name x_name cs section m)
  unfolding grid_definition_template_0_and_1
  grid_definition_template_0_and_1-AddsRows y_name x_name cs section m =
      search (known, add_grid-AddsRows) depth 40

  grid_definition_template_4_and_5-AddsRows :
      (y_name x_name : String) (cs : CoordSystem F) (section : Reader F) (m : Metadata F)
      → Returns
          (AddsRows section m)
          (grid_definition_template_4_and_5 x g y_name x_name cs section m)
  unfolding grid_definition_template_4_and_5
  grid_definition_template_4_and_5-AddsRows y_name x_name cs section m =
      search (known, add_grid-AddsRows) depth 40

  grid_definition_template_0-AddsRows :
      (section : Reader F) (m : Metadata F)
      → Returns (AddsRows section m) (grid_definition_template_0 x g section m)
  unfolding grid_definition_template_0
  grid_definition_template_0-AddsRows section m =
      search (skip, grid_definition_template_0_and_1-AddsRows) depth 40

  grid_definition_template_1-AddsRows :
      (section : Reader F) (m : Metadata F)
      → Returns (AddsRows section m) (grid_definition_template_1 x g section m)
  unfolding grid_definition_template_1
  grid_definition_template_1-AddsRows section m =
      search (skip, grid_definition_template_0_and_1-AddsRows) depth 40

  grid_definition_template_4-AddsRows :
      (section : Reader F) (m : Metadata F)
      → Returns (AddsRows section m) (grid_definition_template_4 x g section m)
  unfolding grid_definition_template_4
  grid_definition_template_4-AddsRows section m =
      search (skip, grid_definition_template_4_and_5-AddsRows) depth 40

  grid_definition_template_5-AddsRows :
      (section : Reader F) (m : Metadata F)
      → Returns (AddsRows section m) (grid_definition_template_5 x g section m)
  unfolding grid_definition_template_5
  grid_definition_template_5-AddsRows section m =
      search (skip, grid_definition_template_4_and_5-AddsRows) depth 40

  calculate_proj_coords_from_grid_lengths-columns_first :
      (section : Reader F) (cs : CoordSystem F)
      → Returns
          (λ (x_coord, (y_coord, scan)). columns_first section ≡ ok scan.j_consecutive)
          (calculate_proj_coords_from_grid_lengths x g section cs)
  unfolding calculate_proj_coords_from_grid_lengths
  calculate_proj_coords_from_grid_lengths-columns_first section cs =
      search (known, scanning_mode-columns_first) depth 40

  add_projected-AddsRows :
      (section : Reader F) (cs : CoordSystem F) (m : Metadata F)
      → Returns (AddsRows section m) (add_projected x g section cs m)
  add_projected-AddsRows section cs m =
      met _ _ (calculate_proj_coords_from_grid_lengths x g section cs) _
        (calculate_proj_coords_from_grid_lengths-columns_first section cs)
        (λ (x_coord, (y_coord, scan)) p. rows scan.j_consecutive y_coord x_coord p)

  grid_definition_template_10-AddsRows :
      (section : Reader F) (m : Metadata F)
      → Returns (AddsRows section m) (grid_definition_template_10 x g section m)
  unfolding grid_definition_template_10
  grid_definition_template_10-AddsRows section m = search (skip, add_projected-AddsRows) depth 40

  grid_definition_template_20-AddsRows :
      (section : Reader F) (m : Metadata F)
      → Returns (AddsRows section m) (grid_definition_template_20 x g section m)
  unfolding grid_definition_template_20
  grid_definition_template_20-AddsRows section m = search (skip, add_projected-AddsRows) depth 40

  grid_definition_template_30-AddsRows :
      (section : Reader F) (m : Metadata F)
      → Returns (AddsRows section m) (grid_definition_template_30 x g section m)
  unfolding grid_definition_template_30
  grid_definition_template_30-AddsRows section m = search (skip, add_projected-AddsRows) depth 40

  grid_definition_template_140-AddsRows :
      (section : Reader F) (m : Metadata F)
      → Returns (AddsRows section m) (grid_definition_template_140 x g section m)
  unfolding grid_definition_template_140
  grid_definition_template_140-AddsRows section m = search (skip, add_projected-AddsRows) depth 40

  grid_definition_template_12-AddsRows :
      (section : Reader F) (m : Metadata F)
      → Returns (AddsRows section m) (grid_definition_template_12 x g section m)
  unfolding grid_definition_template_12
  grid_definition_template_12-AddsRows section m = search (known, add_grid-AddsRows) depth 40

  grid_definition_template_90-AddsRows :
      (section : Reader F) (m : Metadata F)
      → Returns (AddsRows section m) (grid_definition_template_90 x g section m)
  unfolding grid_definition_template_90
  grid_definition_template_90-AddsRows section m = search (known, add_grid-AddsRows) depth 40

  grid_definition_template_40_regular-AddsRows :
      (cs : CoordSystem F) (section : Reader F) (m : Metadata F)
      → Returns (AddsRows section m) (grid_definition_template_40_regular x g cs section m)
  unfolding grid_definition_template_40_regular
  grid_definition_template_40_regular-AddsRows cs section m =
      search (known, add_grid-AddsRows) depth 40

  grid_definition_template_40_reduced-AddsGrid :
      (cs : CoordSystem F) (section : Reader F) (m : Metadata F)
      → form_of section ≡ ok one_by_one
      → Returns (AddsGrid section m) (grid_definition_template_40_reduced x g cs section m)
  unfolding grid_definition_template_40_reduced
  grid_definition_template_40_reduced-AddsGrid cs section m h =
      search (skip, one_dimension) depth 20

  grid_definition_template_40-AddsGrid :
      (template : Value F) (section : Reader F) (m : Metadata F)
      → section.get "gridDefinitionTemplateNumber" ≡ ok template
      → is_nat template 40 ≡ true
      → Returns (AddsGrid section m) (grid_definition_template_40 x g section m)
  unfolding grid_definition_template_40
  grid_definition_template_40-AddsGrid template section m p q =
      skip _ (earth x section) _ (λ figure. known _ (is_reduced section) _ (λ reduced.
        elim reduced
          as (λ reduced.
            is_reduced section ≡ ok reduced
            → Returns (AddsGrid section m) (
                if reduced
                then grid_definition_template_40_reduced x g (geog figure) section m
                else grid_definition_template_40_regular x g (geog figure) section m)) [
                  | true ↦ λ r.
                      grid_definition_template_40_reduced-AddsGrid (geog figure) section m
                        (rw (p, q, r) refl)
                  | false ↦ λ r.
                      AddsRows-AddsGrid template section m
                        (grid_definition_template_40_regular x g (geog figure) section m) p (inr r)
                        (grid_definition_template_40_regular-AddsRows (geog figure) section m)
                ]))

  -- A template of another number than 40.
  other_template :
      (n : ℕ) (template : Value F) (section : Reader F) (m : Metadata F) (r s : Result (Metadata F))
      → section.get "gridDefinitionTemplateNumber" ≡ ok template
      → (40 == n) ≡ false
      → Returns (AddsRows section m) r
      → Returns (AddsGrid section m) s
      → Returns (AddsGrid section m) (if is_nat template n then r else s)
  other_template n template section m r s p q h k = elim (Bool-cases (is_nat template n)) [
    | inl hit ↦
        rw hit (AddsRows-AddsGrid template section m r p (inl (only_one template n hit q)) h)
    | inr miss ↦ rw miss k
  ]
    where
      only_one :
          (template : Value F) (n : ℕ)
          → is_nat template n ≡ true
          → (40 == n) ≡ false
          → is_nat template 40 ≡ false
      only_one (int (pos m)) n hit q = ground arith
      only_one (int (negsuc m)) n hit q = refl
      only_one missing n hit q = refl
      only_one (real a) n hit q = refl
      only_one (string t) n hit q = refl
      only_one (ints l) n hit q = refl
      only_one (reals l) n hit q = refl
      only_one masked n hit q = refl

  apply_grid_template-AddsGrid :
      (template : Value F) (section : Reader F) (m : Metadata F)
      → section.get "gridDefinitionTemplateNumber" ≡ ok template
      → Returns (AddsGrid section m) (apply_grid_template x g template section m)
  unfolding apply_grid_template
  apply_grid_template-AddsGrid template section m p =
      other_template 0 template section m _ _ p refl (grid_definition_template_0-AddsRows section m)
        (other_template 1 template section m _ _ p refl
          (grid_definition_template_1-AddsRows section m)
          (other_template 4 template section m _ _ p refl
            (grid_definition_template_4-AddsRows section m)
            (other_template 5 template section m _ _ p refl
              (grid_definition_template_5-AddsRows section m)
              (other_template 10 template section m _ _ p refl
                (grid_definition_template_10-AddsRows section m)
                (other_template 12 template section m _ _ p refl
                  (grid_definition_template_12-AddsRows section m)
                  (other_template 20 template section m _ _ p refl
                    (grid_definition_template_20-AddsRows section m)
                    (other_template 30 template section m _ _ p refl
                      (grid_definition_template_30-AddsRows section m)
                      (elim (Bool-cases (is_nat template 40)) [
                        | inl hit ↦
                            rw hit (grid_definition_template_40-AddsGrid template section m p hit)
                        | inr miss ↦ rw miss (
                            other_template 90 template section m _ _ p refl
                              (grid_definition_template_90-AddsRows section m)
                              (other_template 140 template section m _ _ p refl
                                (grid_definition_template_140-AddsRows section m) tt))
                      ]))))))))

  -- Where section 3 is translated, and its points are on rows and columns, there are appended two
  -- dimension coordinates on the two dimensions, in the order of bit 3 of the scanning mode; for a
  -- reduced grid of template 40 there are appended two auxiliary coordinates on the one dimension;
  -- and all else stays.
  pub grid_definition_section-AddsGrid :
      (section : Reader F) (m : Metadata F)
      → Returns (AddsGrid section m) (grid_definition_section x g section m)
  unfolding grid_definition_section
  grid_definition_section-AddsGrid section m = search (known, apply_grid_template-AddsGrid) depth 8
