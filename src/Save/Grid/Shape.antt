-- ===== src/Save/Grid/Shape.antt =====
-- The shape of the data, behind the latitude-longitude grids of _save_rules.py.
use gribbi.Base.{
  ℕ, ◌%◌, String, ◌≡◌, refl, ◌⊎◌, inl, inr, some, List, [], ◌∷◌, arith, length, nat_eq, string_eq,
  option_eq, pair_eq, Result, ok, err, ◌>>=◌, Returns,
}
use gribbi.Base.Int.{pos, int_eq}
use gribbi.Base.Dict.{lookup}
use gribbi.Value.{Value, int}
use gribbi.Base.Steps.{met}
use gribbi.Value.{Reader}
use gribbi.Externals.{Externals}
use gribbi.Message.Data.{data_shape, is_reduced, get_shape}
use gribbi.Load.Grid.Points.{Geometry}
use gribbi.Load.Flags.{scanning_mode_flags}
use gribbi.Save.Shape.{Keys}
use gribbi.Save.Shape.RoundTrip.{section_of_keys}
use gribbi.Save.Cube.{Encoding}
use gribbi.Save.Grid.{
  GridCube, RotatedPole, Spacing, horizontal_grid_common, latlon_points_regular, save_grid_0,
  save_grid_1, numbered_grid, rotated_pole,
}
use gribbi.Save.Grid.Holds.{
  Holds, fresh, begun, sized, insert-Holds_new, horizontal_grid_common-Holds,
  latlon_points_regular-Holds, rotated_pole-Holds,
}

module _ {F : Type 0} where
  -- A number that is read under a key.
  read :
      (grib : Keys F) (key : String) (v : Value F)
      → lookup key grib ≡ some v
      → (section_of_keys grib).get key ≡ ok v
  read grib key v p = rw (p, section_of_keys) refl

  -- A regular grid of a template, with a scanning mode whose low six bits are not set.
  section-shape :
      (section : Reader F) (template ni nj flags : ℕ)
      → (template ≡ 0) ⊎ (template ≡ 1)
      → flags % 64 ≡ 0
      → section.get "scanningMode" ≡ ok (int (pos flags))
      → section.get "Nj" ≡ ok (int (pos nj))
      → section.get "Ni" ≡ ok (int (pos ni))
      → section.get "gridDefinitionTemplateNumber" ≡ ok (int (pos template))
      → section.get "sourceOfGridDefinition" ≡ ok (int (pos 0))
      → section.get "numberOfOctectsForNumberOfPoints" ≡ ok (int (pos 0))
      → section.get "interpretationOfNumberOfPoints" ≡ ok (int (pos 0))
      → data_shape section ≡ ok (int (pos nj) ∷ int (pos ni) ∷ [])
  unfolding data_shape is_reduced get_shape
  section-shape section template ni nj flags t low p1 p2 p3 p4 p5 p6 p7 = ground arith

  sized-shape :
      (grib : Keys F) (template ni nj flags : ℕ)
      → (template ≡ 0) ⊎ (template ≡ 1)
      → flags % 64 ≡ 0
      → Holds (sized template ni nj flags) grib
      → data_shape (section_of_keys grib) ≡ ok (int (pos nj) ∷ int (pos ni) ∷ [])
  sized-shape grib template ni nj flags t low (h1, (h2, (h3, (h4, (h5, (h6, (h7, _))))))) =
      section-shape (section_of_keys grib) template ni nj flags t low
        (read grib "scanningMode" _ h1) (read grib "Nj" _ h2) (read grib "Ni" _ h3)
        (read grib "gridDefinitionTemplateNumber" _ h4) (read grib "sourceOfGridDefinition" _ h5)
        (read grib "numberOfOctectsForNumberOfPoints" _ h6)
        (read grib "interpretationOfNumberOfPoints" _ h7)

module _ {F : Type 0} (x : Externals F) (g : Geometry F) (e : Encoding F) (s : Spacing F) where
  scanning_mode_flags-low :
      (xs ys : List F) (flags : ℕ)
      → scanning_mode_flags x s.is_positive xs ys ≡ ok flags
      → flags % 64 ≡ 0
  unfolding scanning_mode_flags
  scanning_mode_flags-low xs ys flags p = ground arith

  -- The message of the cube.
  abbrev pub HasShape : GridCube F → Keys F → Type 0
  HasShape cube written =
      data_shape (section_of_keys written)
      ≡ ok (int (pos (length cube.y_coord.points)) ∷ int (pos (length cube.x_coord.points)) ∷ [])

  regular-HasShape :
      (template : ℕ) (cube : GridCube F) (grib : Keys F)
      → (template ≡ 0) ⊎ (template ≡ 1)
      → Holds (begun template) grib
      → Returns (HasShape cube) (do
        common ← horizontal_grid_common x g e s cube grib
        latlon_points_regular x g e s cube common)
  regular-HasShape template cube grib t h =
      met _ (HasShape cube) (horizontal_grid_common x g e s cube grib) _
        (horizontal_grid_common-Holds x g e s template cube grib h)
        (λ common (flags, p, k).
          shaped flags (scanning_mode_flags-low cube.x_coord.points cube.y_coord.points flags p)
            (latlon_points_regular x g e s cube common)
            (latlon_points_regular-Holds x g e s template (length cube.x_coord.points)
              (length cube.y_coord.points) flags cube common k))
    where
      shaped :
          (flags : ℕ)
          → flags % 64 ≡ 0
          → (r : Result (Keys F))
          → Returns
              (Holds
                (sized template (length cube.x_coord.points) (length cube.y_coord.points) flags))
              r
          → Returns (HasShape cube) r
      shaped flags low (ok written) k =
          sized-shape written template (length cube.x_coord.points) (length cube.y_coord.points)
            flags t low k
      shaped flags low (err error) k = tt

  -- Where a regular latitude-longitude grid, rotated or not, is written to a new message, the data of
  -- the message is loaded with a row for each point of y and a column for each point of x.
  pub save_grid-HasShape :
      (cs : RotatedPole F) (cube : GridCube F) (grib : Keys F)
      → Holds fresh grib
      → Returns (HasShape cube) (save_grid_0 x g e s cube grib)
        × Returns (HasShape cube) (save_grid_1 x g e s cs cube grib)
  unfolding save_grid_0 save_grid_1
  save_grid-HasShape cs cube grib h = (
    regular-HasShape 0 cube (numbered_grid x g e s 0 grib) (inl refl) (numbered 0),
    met (Holds (begun 1)) (HasShape cube) (rotated_pole x g e s cs (numbered_grid x g e s 1 grib)) _
        (rotated_pole-Holds x g e s 1 cs (numbered_grid x g e s 1 grib) (numbered 1))
        (λ poled k. regular-HasShape 1 cube poled (inr refl) k),
  )
    where
      numbered : (template : ℕ) → Holds (begun template) (numbered_grid x g e s template grib)
      numbered template =
          insert-Holds_new fresh "gridDefinitionTemplateNumber" (int (pos template)) grib refl h
