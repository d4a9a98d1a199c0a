-- ===== src/Save/Grid/Holds.antt =====
-- The keys of section 3, through the settings of a latitude-longitude grid.
use gribbi.Base.{
  ℕ, String, ◌≡◌, refl, ◌∙◌, Bool, true, false, ◌||◌, Option, none, some, [], ◌∷◌, arith, length,
  ◌===◌, contains, nat_eq, string_eq, option_eq, pair_eq, ok, Returns,
}
use gribbi.Base.Int.{pos, int_eq}
use gribbi.Base.Dict.{Dict, keys, lookup, insert, lookup-insert, lookup-insert_self}
use gribbi.Value.{Value, int}
use gribbi.Base.Steps.{skip, either, kept, known, met}
use gribbi.Externals.{Externals}
use gribbi.Load.Grid.Points.{Geometry}
use gribbi.Load.Flags.{scanning_mode_flags}
use gribbi.Save.Shape.{Keys, Figure, shape_of_the_earth, unset_lengths}
use gribbi.Save.Cube.{Encoding}
use gribbi.Save.Times.{put}
use gribbi.Save.Grid.{
  GridCube, RotatedPole, Spacing, latlon_first_last, dx_dy, latlon_points_regular, grid_dims,
  horizontal_grid_common, rotated_pole,
}

neither : (a b : Bool) → (a || b) ≡ false → (a ≡ false) × (b ≡ false)
neither true b p = cc
neither false b p = (refl, p)

differ : (k key : String) → (k === key) ≡ false → (key === k) ≡ false
differ k key p = ground (arith, string_eq.beq_iff k key, string_eq.beq_iff key k)

module _ {F : Type 0} where
  -- The message holds these values.
  abbrev pub Holds : Dict String (Value F) → Keys F → Type 0
  Holds [] grib = Unit {0}
  Holds ((key, v) ∷ entries) grib = (lookup key grib ≡ some v) × Holds entries grib

  -- Another key is set.
  pub insert-Holds :
      (entries : Dict String (Value F)) (key : String) (v : Value F) (grib : Keys F)
      → contains (keys entries) key ≡ false
      → Holds entries grib
      → Holds entries (insert key v grib)
  insert-Holds [] key v grib p h = tt
  insert-Holds ((k, w) ∷ entries) key v grib p (h, rest) = (
    lookup-insert k key v grib
        ∙ rw (differ k key (neither (k === key) (contains (keys entries) key) p).0) h,
    insert-Holds entries key v grib (neither (k === key) (contains (keys entries) key) p).1 rest,
  )

  -- A new key is set.
  pub insert-Holds_new :
      (entries : Dict String (Value F)) (key : String) (v : Value F) (grib : Keys F)
      → contains (keys entries) key ≡ false
      → Holds entries grib
      → Holds ((key, v) ∷ entries) (insert key v grib)
  insert-Holds_new entries key v grib p h =
      (lookup-insert_self key v grib, insert-Holds entries key v grib p h)

  -- What section 3 of a new message holds.
  abbrev pub fresh : Dict String (Value F)
  fresh =
      ("sourceOfGridDefinition", int (pos 0))
      ∷ ("numberOfOctectsForNumberOfPoints", int (pos 0))
      ∷ ("interpretationOfNumberOfPoints", int (pos 0))
      ∷ []

  -- The same behind the number of a template.
  abbrev pub begun : ℕ → Dict String (Value F)
  begun template = ("gridDefinitionTemplateNumber", int (pos template)) ∷ fresh

  -- The same behind the numbers of points and the scanning mode.
  abbrev pub sized : ℕ → ℕ → ℕ → ℕ → Dict String (Value F)
  sized template ni nj flags =
      ("scanningMode", int (pos flags))
      ∷ ("Nj", int (pos nj))
      ∷ ("Ni", int (pos ni))
      ∷ begun template

  shape_of_the_earth-Holds :
      (e : Encoding F) (template : ℕ) (figure : Option (Figure F)) (grib : Keys F)
      → Holds (begun template) grib
      → Returns (Holds (begun template)) (shape_of_the_earth e figure grib)
  unfolding shape_of_the_earth unset_lengths
  shape_of_the_earth-Holds e template none grib h = tt
  shape_of_the_earth-Holds e template (some figure) grib h =
      search (skip, either, insert-Holds) depth 20

module _ {F : Type 0} (x : Externals F) (g : Geometry F) (e : Encoding F) (s : Spacing F) where
  -- The numbers of the points and the scanning mode are set.
  pub horizontal_grid_common-Holds :
      (template : ℕ) (cube : GridCube F) (grib : Keys F)
      → Holds (begun template) grib
      → Returns
          (λ written.
            (flags : ℕ) × (scanning_mode_flags x s.is_positive cube.x_coord.points
                cube.y_coord.points
              ≡ ok flags)
            × Holds
                (sized template (length cube.x_coord.points) (length cube.y_coord.points) flags)
                written)
          (horizontal_grid_common x g e s cube grib)
  unfolding horizontal_grid_common grid_dims
  horizontal_grid_common-Holds template cube grib h =
      met (Holds (begun template)) _ (shape_of_the_earth e cube.figure grib) _
        (shape_of_the_earth-Holds e template cube.figure grib h)
        (λ shaped k.
          known _ (scanning_mode_flags x s.is_positive cube.x_coord.points cube.y_coord.points) _
            (λ flags p. (
              flags,
              p,
              insert-Holds_new
                  (("Nj", int (pos (length cube.y_coord.points)))
                    ∷ ("Ni", int (pos (length cube.x_coord.points)))
                    ∷ begun template)
                  "scanningMode" (int (pos flags)) (grid_dims cube shaped) refl
                  (insert-Holds_new
                    (("Ni", int (pos (length cube.x_coord.points))) ∷ begun template) "Nj"
                    (int (pos (length cube.y_coord.points)))
                    (put "Ni" (pos (length cube.x_coord.points)) shaped) refl
                    (insert-Holds_new (begun template) "Ni" (int (pos (length cube.x_coord.points)))
                      shaped refl k)),
            )))

  latlon_first_last-Holds :
      (template ni nj flags : ℕ) (cube : GridCube F) (grib : Keys F)
      → Holds (sized template ni nj flags) grib
      → Returns (Holds (sized template ni nj flags)) (latlon_first_last x g e s cube grib)
  unfolding latlon_first_last
  latlon_first_last-Holds template ni nj flags cube grib h = search (skip, insert-Holds) depth 30

  dx_dy-Holds :
      (template ni nj flags : ℕ) (cube : GridCube F) (grib : Keys F)
      → Holds (sized template ni nj flags) grib
      → Returns (Holds (sized template ni nj flags)) (dx_dy x g e s cube grib)
  unfolding dx_dy
  dx_dy-Holds template ni nj flags cube grib h = search (skip, insert-Holds) depth 30

  pub latlon_points_regular-Holds :
      (template ni nj flags : ℕ) (cube : GridCube F) (grib : Keys F)
      → Holds (sized template ni nj flags) grib
      → Returns (Holds (sized template ni nj flags)) (latlon_points_regular x g e s cube grib)
  unfolding latlon_points_regular
  latlon_points_regular-Holds template ni nj flags cube grib h =
      search (kept, latlon_first_last-Holds, dx_dy-Holds) depth 12

  pub rotated_pole-Holds :
      (template : ℕ) (cs : RotatedPole F) (grib : Keys F)
      → Holds (begun template) grib
      → Returns (Holds (begun template)) (rotated_pole x g e s cs grib)
  unfolding rotated_pole
  rotated_pole-Holds template cs grib h = search (skip, insert-Holds) depth 30
