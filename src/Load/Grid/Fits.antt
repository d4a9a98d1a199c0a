-- ===== src/Load/Grid/Fits.antt =====
-- The sizes of the coordinates of a projected grid.
use gribbi.Base.Steps.{found, known, met, skip}
use gribbi.Base.{
  String, ◌≡◌, refl, ap, false, List, nat_eq, string_eq, option_eq, pair_eq, ok, Returns,
}
use gribbi.Base.Int.{ℤ, int_eq}
use gribbi.Value.{Value}
use gribbi.Value.{Reader, get_int, as_int}
use gribbi.Externals.{Externals}
use gribbi.CoordSystems.{CoordSystem}
use gribbi.Metadata.{Coord, Metadata}
use gribbi.Load.Flags.{ScanningMode, scanning_mode}
use gribbi.Load.Grid.Points.{Geometry, add_grid, metres_points, array, grid_coord}
use gribbi.Load.Grid.Projected.{
  LengthKeys, grid_length_keys, calculate_proj_coords_from_grid_lengths, add_projected,
  grid_definition_template_10, grid_definition_template_20, grid_definition_template_30,
  grid_definition_template_140,
}
use gribbi.Load.Grid.Sized.{
  CountedBy, Sized, AddsSized, metres_points-length, scanning_mode-j_consecutive,
}

module _ {F : Type 0} where
  abbrev Sizes : Reader F → LengthKeys → Coord F × (Coord F × ScanningMode) → Type 0
  Sizes section names (x, (y, scan)) =
      (mode : ℤ) × (get_int section "scanningMode" ≡ ok mode)
      × (scanning_mode mode ≡ ok scan)
      × Sized section names.ny y
      × Sized section names.nx x

module _ {F : Type 0} (x : Externals F) (g : Geometry F) where
  metres_points-CountedBy :
      (section : Reader F) (key : String) (value : Value F) (n : ℤ) (increment offset : F)
      (sign : ℤ)
      → section.get key ≡ ok value
      → as_int value ≡ ok n
      → CountedBy section key (metres_points x g n increment sign offset)
  metres_points-CountedBy section key value n increment offset sign p q =
      (n, rw p q, metres_points-length x g n increment offset sign)

  Sizes-end :
      (section : Reader F) (names : LengthKeys) (mode : ℤ) (scan : ScanningMode)
      (y_points x_points : List F) (y_name x_name units : String) (y_cs x_cs : CoordSystem F)
      → get_int section "scanningMode" ≡ ok mode
      → scanning_mode mode ≡ ok scan
      → CountedBy section names.ny y_points
      → CountedBy section names.nx x_points
      → Sizes section names (
        grid_coord (array x_points) x_name units x_cs false,
        (grid_coord (array y_points) y_name units y_cs false, scan),
      )
  Sizes-end section names mode scan y_points x_points y_name x_name units y_cs x_cs p q y_counted
        x_counted =
      (mode, p, q, (y_points, refl, y_counted), (x_points, refl, x_counted))

  calculate_proj_coords_from_grid_lengths-Sizes :
      (section : Reader F) (cs : CoordSystem F) (template : Value F) (names : LengthKeys)
      → section.get "gridDefinitionTemplateNumber" ≡ ok template
      → grid_length_keys template ≡ ok names
      → Returns (Sizes section names) (calculate_proj_coords_from_grid_lengths x g section cs)
  unfolding calculate_proj_coords_from_grid_lengths
  calculate_proj_coords_from_grid_lengths-Sizes section cs template names p q =
      rw p (rw q (search (found, known, metres_points-CountedBy, Sizes-end) depth 40))

  add_projected-AddsSized :
      (section : Reader F) (cs : CoordSystem F) (m : Metadata F) (template : Value F)
      (names : LengthKeys)
      → section.get "gridDefinitionTemplateNumber" ≡ ok template
      → grid_length_keys template ≡ ok names
      → Returns (AddsSized section names.ny names.nx m) (add_projected x g section cs m)
  add_projected-AddsSized section cs m template names p q =
      met (Sizes section names) (AddsSized section names.ny names.nx m)
        (calculate_proj_coords_from_grid_lengths x g section cs) _
        (calculate_proj_coords_from_grid_lengths-Sizes section cs template names p q)
        (λ (x_coord, (y_coord, scan)) (mode, scans, e, y_sized, x_sized). record {
          mode = mode;
          y = y_coord;
          x = x_coord;
          scans = scans;
          y_sized = y_sized;
          x_sized = x_sized;
          added = ap (λ b. add_grid b y_coord x_coord m) (scanning_mode-j_consecutive mode scan e);
        })

  pub grid_definition_template_10-AddsSized :
      (section : Reader F) (m : Metadata F) (template : Value F) (names : LengthKeys)
      → section.get "gridDefinitionTemplateNumber" ≡ ok template
      → grid_length_keys template ≡ ok names
      → Returns (AddsSized section names.ny names.nx m) (grid_definition_template_10 x g section m)
  unfolding grid_definition_template_10
  grid_definition_template_10-AddsSized section m template names p q =
      search (skip, add_projected-AddsSized) depth 30

  pub grid_definition_template_20-AddsSized :
      (section : Reader F) (m : Metadata F) (template : Value F) (names : LengthKeys)
      → section.get "gridDefinitionTemplateNumber" ≡ ok template
      → grid_length_keys template ≡ ok names
      → Returns (AddsSized section names.ny names.nx m) (grid_definition_template_20 x g section m)
  unfolding grid_definition_template_20
  grid_definition_template_20-AddsSized section m template names p q =
      search (skip, add_projected-AddsSized) depth 30

  pub grid_definition_template_30-AddsSized :
      (section : Reader F) (m : Metadata F) (template : Value F) (names : LengthKeys)
      → section.get "gridDefinitionTemplateNumber" ≡ ok template
      → grid_length_keys template ≡ ok names
      → Returns (AddsSized section names.ny names.nx m) (grid_definition_template_30 x g section m)
  unfolding grid_definition_template_30
  grid_definition_template_30-AddsSized section m template names p q =
      search (skip, add_projected-AddsSized) depth 30

  pub grid_definition_template_140-AddsSized :
      (section : Reader F) (m : Metadata F) (template : Value F) (names : LengthKeys)
      → section.get "gridDefinitionTemplateNumber" ≡ ok template
      → grid_length_keys template ≡ ok names
      → Returns (AddsSized section names.ny names.nx m) (grid_definition_template_140 x g section m)
  unfolding grid_definition_template_140
  grid_definition_template_140-AddsSized section m template names p q =
      search (skip, add_projected-AddsSized) depth 30
