-- ===== src/Save/Sections/Loadable.antt =====
-- The grid template, through the settings of the projected grids, and its meaning in the code table.
use gribbi.Base.Dict.{Dict, lookup}
use gribbi.Base.{
  Bool, true, some, [], ◌∷◌, if◌then◌else◌, Result, ok, err, ℕ, String, ◌≡◌, refl, false, ◌||◌,
  List, ◌===◌, nat_eq, string_eq, option_eq, pair_eq, Returns,
}
use gribbi.Base.Int.{ℤ, int_eq}
use gribbi.Base.Steps.{skip, kept}
use gribbi.Externals.{Externals}
use gribbi.Load.Grid.Points.{Geometry}
use gribbi.Save.Shape.{Keys}
use gribbi.Save.Cube.{Encoding}
use gribbi.Save.Grid.{GridCube, Spacing}
use gribbi.Save.Projected.{
  Projection, TransverseCs, PerspectiveCs, StereographicCs, LambertCs, put_steps, put_place,
  put_first, put_last, put_extent, horizontal_grid_common_xy, perspective_projection_common,
  save_grid_10, save_grid_12,
}
use gribbi.Save.Sections.{
  GridCs, AzimuthalCs, geog_cs, rotated_cs, mercator_cs, transverse_cs, stereographic_cs,
  lambert_cs, azimuthal_cs, other_cs, save_grid_20, save_grid_30, save_grid_140,
  save_grid_definition_section, is_regular_grid,
}
use gribbi.Save.Sections.Template.{
  OnGrid, insert-OnGrid, shape_of_the_earth-OnGrid, numbered_grid-OnGrid,
  horizontal_grid_common-OnGrid, save_grid_0-OnGrid, save_grid_1-OnGrid, save_grid_4-OnGrid,
  save_grid_5-OnGrid,
}

-- The grids of code table 3.1 that are saved. The spacing is regular or not.
pub data GridMeaning : Type 0 where
  latitude_longitude : (regular : Bool) → GridMeaning
  rotated_latitude_longitude : (regular : Bool) → GridMeaning
  mercator : GridMeaning
  transverse_mercator : GridMeaning
  polar_stereographic : GridMeaning
  lambert_conformal : GridMeaning
  lambert_azimuthal_equal_area : GridMeaning
  unknown_grid : GridMeaning

abbrev pub grid_templates : Dict ℕ GridMeaning
grid_templates =
    (0, latitude_longitude true)
    ∷ (1, rotated_latitude_longitude true)
    ∷ (4, latitude_longitude false)
    ∷ (5, rotated_latitude_longitude false)
    ∷ (10, mercator)
    ∷ (12, transverse_mercator)
    ∷ (20, polar_stereographic)
    ∷ (30, lambert_conformal)
    ∷ (140, lambert_azimuthal_equal_area)
    ∷ []

module _ {F : Type 0} (x : Externals F) (g : Geometry F) (e : Encoding F) (s : Spacing F)
    (p : Projection F) where
  put_steps-OnGrid :
      (n : ℕ) (x_key y_key : String) (xs ys : List ℤ) (grib : Keys F)
      → (("gridDefinitionTemplateNumber" === x_key) || false) ≡ false
      → (("gridDefinitionTemplateNumber" === y_key) || false) ≡ false
      → OnGrid n grib
      → Returns (OnGrid n) (put_steps x g e s p x_key y_key xs ys grib)
  unfolding put_steps
  put_steps-OnGrid n x_key y_key xs ys grib q r h = search (skip, insert-OnGrid) depth 12

  put_place-OnGrid :
      (n : ℕ) (lat_key lon_key : String) (point_x point_y : F) (grib : Keys F)
      → (("gridDefinitionTemplateNumber" === lat_key) || false) ≡ false
      → (("gridDefinitionTemplateNumber" === lon_key) || false) ≡ false
      → OnGrid n grib
      → Returns (OnGrid n) (put_place x g e s p lat_key lon_key point_x point_y grib)
  unfolding put_place
  put_place-OnGrid n lat_key lon_key point_x point_y grib q r h =
      search (skip, insert-OnGrid) depth 12

  put_first-OnGrid :
      (n : ℕ) (cube : GridCube F) (grib : Keys F)
      → OnGrid n grib
      → Returns (OnGrid n) (put_first x g e s p cube grib)
  unfolding put_first
  put_first-OnGrid n cube grib h = search (skip, put_place-OnGrid) depth 12

  put_last-OnGrid :
      (n : ℕ) (cube : GridCube F) (grib : Keys F)
      → OnGrid n grib
      → Returns (OnGrid n) (put_last x g e s p cube grib)
  unfolding put_last
  put_last-OnGrid n cube grib h = search (skip, put_place-OnGrid) depth 12

  put_extent-OnGrid :
      (n : ℕ) (xs ys : List ℤ) (grib : Keys F)
      → OnGrid n grib
      → Returns (OnGrid n) (put_extent x g e s p xs ys grib)
  unfolding put_extent
  put_extent-OnGrid n xs ys grib h = search (skip, insert-OnGrid) depth 14

  horizontal_grid_common_xy-OnGrid :
      (n : ℕ) (cube : GridCube F) (grib : Keys F)
      → OnGrid n grib
      → Returns (OnGrid n) (horizontal_grid_common_xy x g e s p cube grib)
  unfolding horizontal_grid_common_xy
  horizontal_grid_common_xy-OnGrid n cube grib h =
      search (kept, skip, shape_of_the_earth-OnGrid, insert-OnGrid) depth 14

  perspective_projection_common-OnGrid :
      (n : ℕ) (cs : PerspectiveCs F) (cube : GridCube F) (grib : Keys F)
      → OnGrid n grib
      → Returns (OnGrid n) (perspective_projection_common x g e s p cs cube grib)
  unfolding perspective_projection_common
  perspective_projection_common-OnGrid n cs cube grib h =
      search
        (
          kept, skip, put_steps-OnGrid, horizontal_grid_common_xy-OnGrid, put_first-OnGrid,
          insert-OnGrid,
        )
        depth 20

  save_grid_10-OnGrid :
      (standard_parallel : F) (cube : GridCube F) (grib : Keys F)
      → Returns (OnGrid 10) (save_grid_10 x g e s p standard_parallel cube grib)
  unfolding save_grid_10
  save_grid_10-OnGrid standard_parallel cube grib =
      (search
        (
          kept, skip, numbered_grid-OnGrid, put_steps-OnGrid, horizontal_grid_common-OnGrid,
          put_first-OnGrid, put_last-OnGrid, insert-OnGrid,
        )
        depth 20)

  save_grid_12-OnGrid :
      (cs : TransverseCs F) (cube : GridCube F) (grib : Keys F)
      → Returns (OnGrid 12) (save_grid_12 x g e s p cs cube grib)
  unfolding save_grid_12
  save_grid_12-OnGrid cs cube grib =
      (search
        (
          kept, skip, numbered_grid-OnGrid, put_steps-OnGrid, horizontal_grid_common-OnGrid,
          put_extent-OnGrid, insert-OnGrid,
        )
        depth 20)

  save_grid_20-OnGrid :
      (cs : StereographicCs F) (cube : GridCube F) (grib : Keys F)
      → Returns (OnGrid 20) (save_grid_20 x g e s p cs cube grib)
  unfolding save_grid_20
  save_grid_20-OnGrid cs cube grib =
      (search
        (kept, skip, numbered_grid-OnGrid, perspective_projection_common-OnGrid, insert-OnGrid)
        depth 16)

  save_grid_30-OnGrid :
      (cs : LambertCs F) (cube : GridCube F) (grib : Keys F)
      → Returns (OnGrid 30) (save_grid_30 x g e s p cs cube grib)
  unfolding save_grid_30
  save_grid_30-OnGrid cs cube grib =
      (search
        (kept, skip, numbered_grid-OnGrid, perspective_projection_common-OnGrid, insert-OnGrid)
        depth 16)

  save_grid_140-OnGrid :
      (cs : AzimuthalCs F) (cube : GridCube F) (grib : Keys F)
      → Returns (OnGrid 140) (save_grid_140 x g e s p cs cube grib)
  unfolding save_grid_140
  save_grid_140-OnGrid cs cube grib =
      (search
        (
          kept, skip, numbered_grid-OnGrid, put_steps-OnGrid, horizontal_grid_common_xy-OnGrid,
          put_first-OnGrid, insert-OnGrid,
        )
        depth 20)

  -- What the grid of a cube is.
  abbrev pub meaning_of : GridCs F → GridCube F → GridMeaning
  meaning_of geog_cs cube = latitude_longitude (is_regular_grid x g e s p cube)
  meaning_of (rotated_cs cs) cube = rotated_latitude_longitude (is_regular_grid x g e s p cube)
  meaning_of (mercator_cs a) cube = mercator
  meaning_of (transverse_cs cs) cube = transverse_mercator
  meaning_of (stereographic_cs cs) cube = polar_stereographic
  meaning_of (lambert_cs cs) cube = lambert_conformal
  meaning_of (azimuthal_cs cs) cube = lambert_azimuthal_equal_area
  meaning_of other_cs cube = unknown_grid

  -- The message has a grid template with that meaning in the code table.
  abbrev pub IsOnGrid : GridMeaning → Keys F → Type 0
  IsOnGrid meaning written = (n : ℕ) × OnGrid n written × (lookup n grid_templates ≡ some meaning)

  on_grid :
      (n : ℕ) (meaning : GridMeaning) (r : Result (Keys F))
      → lookup n grid_templates ≡ some meaning
      → Returns (OnGrid n) r
      → Returns (IsOnGrid meaning) r
  on_grid n meaning (ok written) h k = (n, k, h)
  on_grid n meaning (err error) h k = tt

  -- The choice by whether the spacing is regular.
  by_spacing :
      (regular : Bool) (meaning : Bool → GridMeaning) (n n2 : ℕ) (r r2 : Result (Keys F))
      → lookup n grid_templates ≡ some (meaning true)
      → lookup n2 grid_templates ≡ some (meaning false)
      → Returns (OnGrid n) r
      → Returns (OnGrid n2) r2
      → Returns (IsOnGrid (meaning regular)) (if regular then r else r2)
  by_spacing true meaning n n2 r r2 h k i j = on_grid n (meaning true) r h i
  by_spacing false meaning n n2 r r2 h k i j = on_grid n2 (meaning false) r2 k j

  -- Where the grid of a cube is written, the grid template of the message means that grid in code
  -- table 3.1: 0 and 4 a latitude-longitude grid of regular and of other spacing, 1 and 5 a rotated
  -- one, 10 Mercator, 12 transverse Mercator, 20 polar stereographic, 30 Lambert conformal and 140
  -- Lambert azimuthal equal area.
  pub save_grid_definition_section-IsOnGrid :
      (cs : GridCs F) (cube : GridCube F) (grib : Keys F)
      → Returns
          (IsOnGrid (meaning_of cs cube))
          (save_grid_definition_section x g e s p cs cube grib)
  unfolding save_grid_definition_section lookup
  save_grid_definition_section-IsOnGrid geog_cs cube grib =
      by_spacing (is_regular_grid x g e s p cube) latitude_longitude 0 4 _ _ refl refl
        (save_grid_0-OnGrid x g e s cube grib) (save_grid_4-OnGrid x g e s cube grib)
  save_grid_definition_section-IsOnGrid (rotated_cs cs) cube grib =
      by_spacing (is_regular_grid x g e s p cube) rotated_latitude_longitude 1 5 _ _ refl refl
        (save_grid_1-OnGrid x g e s cs cube grib) (save_grid_5-OnGrid x g e s cs cube grib)
  save_grid_definition_section-IsOnGrid (mercator_cs a) cube grib =
      on_grid 10 mercator _ refl (save_grid_10-OnGrid a cube grib)
  save_grid_definition_section-IsOnGrid (transverse_cs cs) cube grib =
      on_grid 12 transverse_mercator _ refl (save_grid_12-OnGrid cs cube grib)
  save_grid_definition_section-IsOnGrid (stereographic_cs cs) cube grib =
      on_grid 20 polar_stereographic _ refl (save_grid_20-OnGrid cs cube grib)
  save_grid_definition_section-IsOnGrid (lambert_cs cs) cube grib =
      on_grid 30 lambert_conformal _ refl (save_grid_30-OnGrid cs cube grib)
  save_grid_definition_section-IsOnGrid (azimuthal_cs cs) cube grib =
      on_grid 140 lambert_azimuthal_equal_area _ refl (save_grid_140-OnGrid cs cube grib)
  save_grid_definition_section-IsOnGrid other_cs cube grib = tt
