-- ===== src/Load/Grid/Agrees.antt =====
-- `grid_definition_section` beside the shape of the data of the same message.
use gribbi.Base.Steps.{returned}
use gribbi.Base.{
  ◌++◌, ℕ, ◌%◌, String, ◌≡◌, refl, sym, ap, ◌∙◌, subst, inl, inr, Bool, true, false, List, [], ◌∷◌,
  arith, ◌==◌, ==_iff, Bool-cases, length, contains, nat_eq, string_eq, option_eq, pair_eq,
  translation_error, Result, ok, err, ◌>>=◌, guard, >>=-eq-ok, Returns, some,
}
use gribbi.Base.Int.{ℤ, pos, pos_part, int_eq, bit_set}
use gribbi.Value.{Value, int, is_nat}
use gribbi.Value.{Reader, get_int}
use gribbi.Externals.{Externals}
use gribbi.Metadata.{Coord, Metadata}
use gribbi.Message.Data.{data_shape}
use gribbi.Message.Data.Shape.{shape_keys, get_all, data_shape_supported}
use gribbi.Load.Grid.Points.{Geometry, add_grid, array}
use gribbi.Load.Grid.{apply_grid_template, grid_definition_section}
use gribbi.Load.Grid.Projected.{grid_length_keys}
use gribbi.Load.Grid.Sized.{
  AddsSized, grid_definition_template_0-AddsSized, grid_definition_template_1-AddsSized,
  grid_definition_template_90-AddsSized,
}
use gribbi.Load.Grid.Fits.{
  grid_definition_template_10-AddsSized, grid_definition_template_20-AddsSized,
  grid_definition_template_30-AddsSized, grid_definition_template_140-AddsSized,
}

-- The templates whose points are all calculated from the ends or the lengths of the grid.
abbrev pub sized_templates : List ℕ
sized_templates = 0 ∷ 1 ∷ 10 ∷ 20 ∷ 30 ∷ 90 ∷ 140 ∷ []

abbrev AllOf : (ℕ → Type 0) → List ℕ → Type 0
AllOf P [] = Unit {0}
AllOf P (n ∷ ns) = P n × AllOf P ns

one_of : (P : ℕ → Type 0) (n : ℕ) (ns : List ℕ) → contains ns n ≡ true → AllOf P ns → P n
one_of P n [] h ps = cc
one_of P n (k ∷ ns) h (p, ps) = elim (Bool-cases (k == n)) [
  | inl e ↦ subst P (((==_iff k n).0 e)) p
  | inr e ↦ one_of P n ns (rw (← h) (rw e refl)) ps
]

module _ {F : Type 0} where
  -- Two dimension coordinates of the sizes under the keys of the shape.
  pub record Keyed (section : Reader F) (template : ℕ) (m m' : Metadata F) : Type 0 where
    pub y_key : String
    pub x_key : String
    pub shaped : shape_keys template false ≡ y_key ∷ x_key ∷ []
    pub adds : AddsSized section y_key x_key m m'

  -- Two dimension coordinates, the first along y, of the sizes of the shape.
  pub record Agrees (shape : List (Value F)) (m m' : Metadata F) : Type 0 where
    pub ny : ℤ
    pub nx : ℤ
    pub y : Coord F
    pub x : Coord F
    pub y_points : List F
    pub x_points : List F
    pub shaped : shape ≡ int ny ∷ int nx ∷ []
    pub added : m' ≡ record m {
      dim_coords_and_dims = m.dim_coords_and_dims ++ ((y, some 0) ∷ (x, some 1) ∷ []);
    }
    pub y_held : y.points ≡ array y_points
    pub x_held : x.points ≡ array x_points
    pub y_long : length y_points ≡ pos_part ny
    pub x_long : length x_points ≡ pos_part nx

module _ {F : Type 0} (x : Externals F) (g : Geometry F) where
  keyed :
      (section : Reader F) (template : ℕ) (m : Metadata F) (y_key x_key : String)
      (r : Result (Metadata F))
      → shape_keys template false ≡ y_key ∷ x_key ∷ []
      → Returns (AddsSized section y_key x_key m) r
      → Returns (Keyed section template m) r
  keyed section template m y_key x_key (ok a) p h = record {
    y_key = y_key;
    x_key = x_key;
    shaped = p;
    adds = h;
  }
  keyed section template m y_key x_key (err e) p h = tt

  apply_grid_template-Keyed :
      (section : Reader F) (template : ℕ) (m : Metadata F)
      → contains sized_templates template ≡ true
      → section.get "gridDefinitionTemplateNumber" ≡ ok (int (pos template))
      → Returns (Keyed section template m) (apply_grid_template x g (int (pos template)) section m)
  unfolding apply_grid_template grid_length_keys
  apply_grid_template-Keyed section template m sized =
      one_of
        (λ n.
          section.get "gridDefinitionTemplateNumber" ≡ ok (int (pos n))
          → Returns (Keyed section n m) (apply_grid_template x g (int (pos n)) section m))
        template sized_templates sized
        (
          λ _.
              keyed section 0 m "Nj" "Ni" _ refl
                (grid_definition_template_0-AddsSized x g section m),
          (
            λ _.
                keyed section 1 m "Nj" "Ni" _ refl
                  (grid_definition_template_1-AddsSized x g section m),
            (
              λ p.
                  keyed section 10 m "Nj" "Ni" _ refl
                    (grid_definition_template_10-AddsSized x g section m _ _ p refl),
              (
                λ p.
                    keyed section 20 m "Ny" "Nx" _ refl
                      (grid_definition_template_20-AddsSized x g section m _ _ p refl),
                (
                  λ p.
                      keyed section 30 m "Ny" "Nx" _ refl
                        (grid_definition_template_30-AddsSized x g section m _ _ p refl),
                  (
                    λ _.
                        keyed section 90 m "Ny" "Nx" _ refl
                          (grid_definition_template_90-AddsSized x g section m),
                    (
                      λ p.
                          keyed section 140 m "numberOfPointsAlongYAxis" "numberOfPointsAlongXAxis"
                            _ refl
                            (grid_definition_template_140-AddsSized x g section m _ _ p refl),
                      tt,
                    ),
                  ),
                ),
              ),
            ),
          ),
        )

  low_bits : (n : ℕ) → n % 64 ≡ 0 → bit_set (pos n) 5 ≡ false
  low_bits n h = ground arith

  -- The number that is read at a key.
  counted :
      (section : Reader F) (key : String) (value : Value F) (n : ℤ)
      → section.get key ≡ ok value
      → get_int section key ≡ ok n
      → value ≡ int n
  counted section key value n p q = ground arith

  not_reduced :
      (template : ℕ) (reduced : Bool)
      → contains sized_templates template ≡ true
      → (reduced ≡ true → template ≡ 40)
      → reduced ≡ false
  not_reduced template true h k = absurd (subst (λ n. contains sized_templates n ≡ true) (k refl) h)
    where
      absurd : contains sized_templates 40 ≡ true → true ≡ false
      absurd h = sym h
  not_reduced template false h k = refl

  -- The shape is what is read under two keys.
  two_values :
      (section : Reader F) (y_key x_key : String) (shape : List (Value F)) (ny nx : ℤ)
      → get_all section (y_key ∷ x_key ∷ []) ≡ ok shape
      → get_int section y_key ≡ ok ny
      → get_int section x_key ≡ ok nx
      → shape ≡ int ny ∷ int nx ∷ []
  two_values section y_key x_key shape ny nx p q r = ground arith

  same_mode :
      (section : Reader F) (scanning : ℕ) (mode : ℤ)
      → section.get "scanningMode" ≡ ok (int (pos scanning))
      → get_int section "scanningMode" ≡ ok mode
      → mode ≡ pos scanning
  same_mode section scanning mode p q = ground arith

  Keyed-Agrees :
      (section : Reader F) (template scanning : ℕ) (shape : List (Value F)) (m m' : Metadata F)
      → section.get "scanningMode" ≡ ok (int (pos scanning))
      → scanning % 64 ≡ 0
      → get_all section (shape_keys template false) ≡ ok shape
      → Keyed section template m m'
      → Agrees shape m m'
  unfolding add_grid
  Keyed-Agrees section template scanning shape m m' scans low keys k =
      let (y_points, y_held, (ny, y_counted, y_long)) = k.adds.y_sized in
      let (x_points, x_held, (nx, x_counted, x_long)) = k.adds.x_sized in
      record {
        ny = ny;
        nx = nx;
        y = k.adds.y;
        x = k.adds.x;
        y_points = y_points;
        x_points = x_points;
        shaped =
            two_values section k.y_key k.x_key shape ny nx
              (subst (λ ks. get_all section ks ≡ ok shape) k.shaped keys) y_counted x_counted;
        added =
            k.adds.added
            ∙ ap (λ b. add_grid b k.adds.y k.adds.x m)
                (ap (λ mode. bit_set mode 5)
                    (same_mode section scanning k.adds.mode scans k.adds.scans)
                  ∙ low_bits scanning low);
        y_held = y_held;
        x_held = x_held;
        y_long = y_long;
        x_long = x_long;
      }

  with_template :
      (section : Reader F) (template : ℕ) (m m' : Metadata F)
      → section.get "gridDefinitionTemplateNumber" ≡ ok (int (pos template))
      → (do
        template ← section.get "gridDefinitionTemplateNumber"
        apply_grid_template x g template section m)
        ≡ ok m'
      → apply_grid_template x g (int (pos template)) section m ≡ ok m'
  with_template section template m m' p h = sym (rw p refl) ∙ h

  -- For a template of 0, 1, 10, 20, 30, 90 and 140, where the shape of the message's data is found
  -- and section 3 is translated, with numbers for the template and the scanning mode: there are
  -- appended a coordinate along y and one along x, on the dimensions 0 and 1, and their numbers of
  -- points are those of the shape (none where such a number is negative).
  pub grid_definition_section-Agrees :
      (section : Reader F) (template scanning : ℕ) (shape : List (Value F)) (m m' : Metadata F)
      → contains sized_templates template ≡ true
      → section.get "gridDefinitionTemplateNumber" ≡ ok (int (pos template))
      → section.get "scanningMode" ≡ ok (int (pos scanning))
      → data_shape section ≡ ok shape
      → grid_definition_section x g section m ≡ ok m'
      → Agrees shape m m'
  unfolding grid_definition_section
  grid_definition_section-Agrees section template scanning shape m m' sized numbered scans shaped
        done =
      let (reduced, p1, only_40, keys, p2, low) =
        data_shape_supported section template scanning shape numbered scans shaped in
      let (source, q1, h1) = >>=-eq-ok (section.get "sourceOfGridDefinition") _ done in
      let (u, q2, h2) = >>=-eq-ok (guard (is_nat source 0) translation_error) _ h1 in
      Keyed-Agrees section template scanning shape m m' scans low
        (subst (λ b. get_all section (shape_keys template b) ≡ ok shape)
          (not_reduced template reduced sized only_40) keys)
        (returned (Keyed section template m) _ m' (with_template section template m m' numbered h2)
          (apply_grid_template-Keyed section template m sized numbered))
