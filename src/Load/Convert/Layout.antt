-- ===== src/Load/Convert/Layout.antt =====
-- How the coordinates of a translated message lie on the dimensions of its data.
use gribbi.Base.{
  ℕ, ◌≡◌, Bool, Option, none, some, List, [], ◌∷◌, map, if◌then◌else◌, nat_eq, string_eq, option_eq,
  pair_eq, ok,
}
use gribbi.Base.Int.{int_eq}
use gribbi.Value.{Value}
use gribbi.Base.Dict.{Dict}
use gribbi.Value.{Reader}
use gribbi.Externals.{Externals}
use gribbi.Metadata.{Coord, Metadata}
use gribbi.Load.Product.Appends.{Appends}
use gribbi.Load.Grid.Form.{GridForm, rows_and_columns, one_by_one, form_of}
use gribbi.Load.Convert.{section_of}

module _ {F : Type 0} where
  abbrev pub undimensioned : List (Coord F) → List (Coord F × Option ℕ)
  undimensioned = map (λ c. (c, none))

  -- On rows and columns: two dimension coordinates on their dimensions, and no auxiliary coordinate
  -- with a dimension. One by one: no dimension coordinate, and two auxiliary coordinates with the one
  -- dimension before others without.
  pub data Lies (dims aux : List (Coord F × Option ℕ)) : GridForm → Type 0 where
    regular :
        (y x : Coord F) (j_consecutive : Bool) (others : List (Coord F))
        → dims
          ≡ (y, some (if j_consecutive then 1 else 0))
            ∷ (x, some (if j_consecutive then 0 else 1))
            ∷ []
        → aux ≡ undimensioned others
        → Lies dims aux (rows_and_columns j_consecutive)
    reduced :
        (y x : Coord F) (others : List (Coord F))
        → dims ≡ []
        → aux ≡ (y, some 0) ∷ (x, some 0) ∷ undimensioned others
        → Lies dims aux one_by_one

  abbrev pub Layout : GridForm → Metadata F → Type 0
  Layout form m = Lies m.dim_coords_and_dims m.aux_coords_and_dims form

  -- The coordinates lie in the form of the grid of section 3.
  abbrev pub FollowsGrid : Dict ℕ (Reader F) → Metadata F → Type 0
  FollowsGrid sections m =
      (grid : Reader F) × (section_of sections 3 ≡ ok grid)
      × (form : GridForm) × (form_of grid ≡ ok form)
      × Layout form m
