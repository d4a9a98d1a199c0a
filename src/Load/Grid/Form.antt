-- ===== src/Load/Grid/Form.antt =====
-- The form of a grid, and what its coordinates add to the metadata.
use gribbi.Base.Steps.{either, returned}
use gribbi.Base.{
  ◌++◌, if◌then◌else◌, ◌>>=◌, ◌≡◌, ◌⊎◌, err, refl, inl, inr, false, Bool-cases, Result, ok, Bool,
  some, [], ◌∷◌, ◌++◌, nat_eq, string_eq, option_eq, pair_eq, Returns,
}
use gribbi.Value.{Value, Reader, get_int}
use gribbi.Metadata.{Coord, Metadata}
use gribbi.Base.Int.{ℤ, bit_set}
use gribbi.Load.Flags.{ScanningMode, scanning_mode}
use gribbi.Message.Data.{is_reduced}
use gribbi.Load.Grid.Points.{add_grid}
use gribbi.Value.{is_nat}

-- Whether the points are on rows and columns, or only one behind the other, which is so for the
-- reduced grids of template 40.
pub data GridForm : Type 0 where
  rows_and_columns : (j_consecutive : Bool) → GridForm
  one_by_one : GridForm

module _ {F : Type 0} where
  -- Bit 3 of the scanning mode: points that follow each other lie along y.
  abbrev pub columns_first : Reader F → Result Bool
  columns_first section = do mode ← get_int section "scanningMode"; ok (bit_set mode 5)

  abbrev pub form_of : Reader F → Result GridForm
  form_of section = do
    template ← section.get "gridDefinitionTemplateNumber"
    reduced ← if is_nat template 40 then is_reduced section else ok false
    if reduced
        then ok one_by_one
        else do j_consecutive ← columns_first section; ok (rows_and_columns j_consecutive)

  -- Two dimension coordinates on the two dimensions, whose order the scanning mode gives, or two
  -- auxiliary coordinates along one.
  pub data AddsGrid (section : Reader F) (m : Metadata F) : Metadata F → Type 0 where
    two_dimensions :
        (j_consecutive : Bool) (y x : Coord F)
        → form_of section ≡ ok (rows_and_columns j_consecutive)
        → AddsGrid section m (record m {
          dim_coords_and_dims =
              m.dim_coords_and_dims
              ++ ((y, some (if j_consecutive then 1 else 0))
                  ∷ (x, some (if j_consecutive then 0 else 1))
                  ∷ []);
        })
    one_dimension :
        (y x : Coord F)
        → form_of section ≡ ok one_by_one
        → AddsGrid section m (record m {
          aux_coords_and_dims = m.aux_coords_and_dims ++ ((y, some 0) ∷ (x, some 0) ∷ []);
        })

  -- A grid on rows and columns, in the order of the scanning mode.
  pub data AddsRows (section : Reader F) (m : Metadata F) : Metadata F → Type 0 where
    rows :
        (j_consecutive : Bool) (y x : Coord F)
        → columns_first section ≡ ok j_consecutive
        → AddsRows section m (add_grid j_consecutive y x m)

  pub scanning_mode-columns_first :
      (section : Reader F) (mode : ℤ) (scan : ScanningMode)
      → get_int section "scanningMode" ≡ ok mode
      → scanning_mode mode ≡ ok scan
      → columns_first section ≡ ok scan.j_consecutive
  unfolding scanning_mode
  scanning_mode-columns_first section mode scan p q =
      returned (λ s. columns_first section ≡ ok s.j_consecutive) (scanning_mode mode) scan q
        (either _ (bit_set mode 4) _ _ tt (rw p refl))

  pub add_grid-AddsRows :
      (section : Reader F) (mode : ℤ) (scan : ScanningMode) (y x : Coord F) (m : Metadata F)
      → get_int section "scanningMode" ≡ ok mode
      → scanning_mode mode ≡ ok scan
      → AddsRows section m (add_grid scan.j_consecutive y x m)
  add_grid-AddsRows section mode scan y x m p q =
      rows scan.j_consecutive y x (scanning_mode-columns_first section mode scan p q)

  -- Where the grid is not reduced.
  pub AddsRows-AddsGrid :
      (template : Value F) (section : Reader F) (m : Metadata F) (r : Result (Metadata F))
      → section.get "gridDefinitionTemplateNumber" ≡ ok template
      → (is_nat template 40 ≡ false) ⊎ (is_reduced section ≡ ok false)
      → Returns (AddsRows section m) r
      → Returns (AddsGrid section m) r
  unfolding add_grid
  AddsRows-AddsGrid template section m (ok _) p (inl q) (rows j y x c) =
      two_dimensions j y x (rw (p, q, c) refl)
  AddsRows-AddsGrid template section m (ok _) p (inr q) (rows j y x c) =
      two_dimensions j y x (elim (Bool-cases (is_nat template 40)) [
        | inl hit ↦ rw (p, hit, q, c) refl
        | inr miss ↦ rw (p, miss, c) refl
      ])
  AddsRows-AddsGrid template section m (err e) p q h = tt
