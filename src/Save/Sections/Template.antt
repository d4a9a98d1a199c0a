-- ===== src/Save/Sections/Template.antt =====
-- The number of the grid template that is saved.
use gribbi.Base.{
  ℕ, String, ◌≡◌, refl, false, ◌||◌, Option, none, some, [], ◌∷◌, ◌===◌, nat_eq, string_eq,
  option_eq, pair_eq, Returns,
}
use gribbi.Base.Int.{pos, int_eq}
use gribbi.Base.Dict.{insert}
use gribbi.Value.{Value, int}
use gribbi.Base.Steps.{skip, either, kept}
use gribbi.Externals.{Externals}
use gribbi.Load.Grid.Points.{Geometry}
use gribbi.Save.Shape.{Keys, Figure, shape_of_the_earth, unset_lengths}
use gribbi.Save.Cube.{Encoding}
use gribbi.Save.Grid.{
  GridCube, Spacing, RotatedPole, numbered_grid, latlon_first_last, dx_dy, latlon_points_regular,
  latlon_points_irregular, grid_dims, horizontal_grid_common, rotated_pole, save_grid_0,
  save_grid_1, save_grid_4, save_grid_5,
}
use gribbi.Save.Grid.Holds.{Holds, insert-Holds, insert-Holds_new}

module _ {F : Type 0} where
  -- The message has grid template n.
  abbrev pub OnGrid : ℕ → Keys F → Type 0
  OnGrid n grib = Holds (("gridDefinitionTemplateNumber", int (pos n)) ∷ []) grib

  pub insert-OnGrid :
      (n : ℕ) (key : String) (v : Value F) (grib : Keys F)
      → (("gridDefinitionTemplateNumber" === key) || false) ≡ false
      → OnGrid n grib
      → OnGrid n (insert key v grib)
  insert-OnGrid n key v grib p h =
      insert-Holds (("gridDefinitionTemplateNumber", int (pos n)) ∷ []) key v grib p h

  pub shape_of_the_earth-OnGrid :
      (e : Encoding F) (n : ℕ) (figure : Option (Figure F)) (grib : Keys F)
      → OnGrid n grib
      → Returns (OnGrid n) (shape_of_the_earth e figure grib)
  unfolding shape_of_the_earth unset_lengths
  shape_of_the_earth-OnGrid e n none grib h = tt
  shape_of_the_earth-OnGrid e n (some figure) grib h = search (skip, either, insert-OnGrid) depth 20

module _ {F : Type 0} (x : Externals F) (g : Geometry F) (e : Encoding F) (s : Spacing F) where
  pub numbered_grid-OnGrid : (n : ℕ) (grib : Keys F) → OnGrid n (numbered_grid x g e s n grib)
  numbered_grid-OnGrid n grib =
      insert-Holds_new [] "gridDefinitionTemplateNumber" (int (pos n)) grib refl tt

  pub horizontal_grid_common-OnGrid :
      (n : ℕ) (cube : GridCube F) (grib : Keys F)
      → OnGrid n grib
      → Returns (OnGrid n) (horizontal_grid_common x g e s cube grib)
  unfolding horizontal_grid_common grid_dims
  horizontal_grid_common-OnGrid n cube grib h =
      search (kept, skip, shape_of_the_earth-OnGrid, insert-OnGrid) depth 20

  pub latlon_first_last-OnGrid :
      (n : ℕ) (cube : GridCube F) (grib : Keys F)
      → OnGrid n grib
      → Returns (OnGrid n) (latlon_first_last x g e s cube grib)
  unfolding latlon_first_last
  latlon_first_last-OnGrid n cube grib h = search (skip, insert-OnGrid) depth 30

  pub dx_dy-OnGrid :
      (n : ℕ) (cube : GridCube F) (grib : Keys F)
      → OnGrid n grib
      → Returns (OnGrid n) (dx_dy x g e s cube grib)
  unfolding dx_dy
  dx_dy-OnGrid n cube grib h = search (skip, insert-OnGrid) depth 30

  pub latlon_points_regular-OnGrid :
      (n : ℕ) (cube : GridCube F) (grib : Keys F)
      → OnGrid n grib
      → Returns (OnGrid n) (latlon_points_regular x g e s cube grib)
  unfolding latlon_points_regular
  latlon_points_regular-OnGrid n cube grib h =
      search (kept, latlon_first_last-OnGrid, dx_dy-OnGrid) depth 12

  pub latlon_points_irregular-OnGrid :
      (n : ℕ) (cube : GridCube F) (grib : Keys F)
      → OnGrid n grib
      → Returns (OnGrid n) (latlon_points_irregular x g e s cube grib)
  unfolding latlon_points_irregular
  latlon_points_irregular-OnGrid n cube grib h = search (skip, insert-OnGrid) depth 20

  pub rotated_pole-OnGrid :
      (n : ℕ) (cs : RotatedPole F) (grib : Keys F)
      → OnGrid n grib
      → Returns (OnGrid n) (rotated_pole x g e s cs grib)
  unfolding rotated_pole
  rotated_pole-OnGrid n cs grib h = search (skip, insert-OnGrid) depth 20

  pub save_grid_0-OnGrid :
      (cube : GridCube F) (grib : Keys F) → Returns (OnGrid 0) (save_grid_0 x g e s cube grib)
  unfolding save_grid_0
  save_grid_0-OnGrid cube grib =
      (search
        (kept, numbered_grid-OnGrid, horizontal_grid_common-OnGrid, latlon_points_regular-OnGrid)
        depth 10)

  pub save_grid_1-OnGrid :
      (cs : RotatedPole F) (cube : GridCube F) (grib : Keys F)
      → Returns (OnGrid 1) (save_grid_1 x g e s cs cube grib)
  unfolding save_grid_1
  save_grid_1-OnGrid cs cube grib =
      (search
        (
          kept, numbered_grid-OnGrid, rotated_pole-OnGrid, horizontal_grid_common-OnGrid,
          latlon_points_regular-OnGrid,
        )
        depth 10)

  pub save_grid_4-OnGrid :
      (cube : GridCube F) (grib : Keys F) → Returns (OnGrid 4) (save_grid_4 x g e s cube grib)
  unfolding save_grid_4
  save_grid_4-OnGrid cube grib =
      (search
        (kept, numbered_grid-OnGrid, horizontal_grid_common-OnGrid, latlon_points_irregular-OnGrid)
        depth 10)

  pub save_grid_5-OnGrid :
      (cs : RotatedPole F) (cube : GridCube F) (grib : Keys F)
      → Returns (OnGrid 5) (save_grid_5 x g e s cs cube grib)
  unfolding save_grid_5
  save_grid_5-OnGrid cs cube grib =
      (search
        (
          kept, numbered_grid-OnGrid, rotated_pole-OnGrid, horizontal_grid_common-OnGrid,
          latlon_points_irregular-OnGrid,
        )
        depth 10)
