-- ===== src/Save/Surfaces/RoundTrip.antt =====
-- `set_fixed_surfaces` of _save_rules.py, and then `vertical_coords` of _load_convert.py.
use gribbi.Base.Steps.{both}
use gribbi.Base.{
  ℕ, ◌≡◌, refl, sym, ◌∙◌, subst, ◌≢◌, Option, none, some, List, [], ◌∷◌, arith, nat_eq, string_eq,
  option_eq, pair_eq, Result, ok, ◌>>=◌, Returns,
}
use gribbi.Base.Int.{pos, int_eq}
use gribbi.Base.Dict.{lookup}
use gribbi.Value.{Value, int}
use gribbi.Externals.{Externals}
use gribbi.Metadata.{Metadata}
use gribbi.Load.Vertical.{vertical_coords, level}
use gribbi.Save.Shape.{Keys}
use gribbi.Save.Shape.RoundTrip.{section_of_keys}
use gribbi.Save.Cube.{Cube, FullCube, Encoding, first_of, pair_of}
use gribbi.Save.Surfaces.{
  Vertical, vertical_coord, surface_value, write_surfaces, set_fixed_surfaces, write_hybrid,
  factory_of, write_found,
}
use gribbi.Save.Surfaces.Written.{
  two_levels, put_surfaces-level, put_surfaces-layer, put_surfaces-ground,
}

module _ {F : Type 0} (x : Externals F) (e : Encoding F) where
  -- A level at its rounded value, or a layer between its two rounded values.
  unfoldable pub reload_found :
      Vertical F → Value F → List (List F) → Metadata F → Result (Metadata F)
  reload_found found code [] m = do
    value ← first_of found.coord.points
    n ← surface_value x e found value
    level x code (int n) (int (pos 0)) m
  reload_found found code (row ∷ rows) m = do
    (lower, upper) ← pair_of row
    n ← surface_value x e found lower
    n2 ← surface_value x e found upper
    two_levels x code n n2 m

  -- What the surfaces of a cube are loaded as.
  unfoldable pub reload : Option (Vertical F) → Metadata F → Result (Metadata F)
  reload none m = ok m
  reload (some found) m = reload_found found found.code found.coord.bounds m

  -- A coordinate that has a type of surface, and not one of hybrid levels.
  abbrev pub IsLevel : Option (Vertical F) → Type 0
  IsLevel none = Unit
  IsLevel (some found) =
      (found.hybrid_factory ≡ none)
      × (code : ℕ) × (found.code ≡ int (pos code))
      × (code ≢ 255)
      × (code ≢ 1)

  -- A message that is loaded as something.
  abbrev Loads : Metadata F → Keys F → Result (Metadata F) → Type 0
  Loads m written loaded = vertical_coords x (section_of_keys written) m ≡ loaded

  write_found-reload_found :
      (found : Vertical F) (code : ℕ) (bounds : List (List F)) (grib : Keys F) (m : Metadata F)
      → lookup "NV" grib ≡ some (int (pos 0))
      → code ≢ 255
      → code ≢ 1
      → Returns
          (λ written. Loads m written (reload_found found (int (pos code)) bounds m))
          (write_found x e found (int (pos code)) bounds grib)
  unfolding write_found reload_found
  write_found-reload_found found code [] grib m nv q r =
      both (Loads m) (first_of found.coord.points) _ _ (λ value.
        both (Loads m) (surface_value x e found value) _ _
          (λ n. put_surfaces-level x code n grib m nv q r))
  write_found-reload_found found code (row ∷ rows) grib m nv q r =
      both (Loads m) (pair_of row) _ _ (λ (lower, upper).
        both (Loads m) (surface_value x e found lower) _ _ (λ n.
          both (Loads m) (surface_value x e found upper) _ _
            (λ n2. put_surfaces-layer x code n n2 grib m nv q r)))

  write_surfaces-reload :
      (found : Option (Vertical F)) (grib : Keys F) (m : Metadata F)
      → IsLevel found
      → lookup "NV" grib ≡ some (int (pos 0))
      → Returns (λ written. Loads m written (reload found m)) (write_surfaces x e found grib)
  unfolding write_surfaces reload
  write_surfaces-reload none grib m _ nv = put_surfaces-ground x grib m nv
  write_surfaces-reload (some found) grib m (_, code, p, q, r) nv =
      subst
        (λ c.
          Returns (λ written. Loads m written (reload_found found c found.coord.bounds m))
            (write_found x e found c found.coord.bounds grib))
        (sym p) (write_found-reload_found found code found.coord.bounds grib m nv q r)

  -- Without hybrid levels, nothing more is written.
  no_more :
      (full : Option (FullCube F)) (found : Option (Vertical F)) (grib written : Keys F)
      → IsLevel found
      → (do
        written ← write_surfaces x e found grib
        write_hybrid x e full (factory_of x e found) written)
        ≡ ok written
      → write_surfaces x e found grib ≡ ok written
  unfolding write_hybrid
  no_more full none grib written _ h = ground arith
  no_more full (some v) grib written (p, code, q, r, s) h = ground arith

  -- A cube without hybrid levels, whose vertical coordinate, where it has one, has a type of surface
  -- other than 1 and 255: where its surfaces are written to a message that has NV = 0, the message
  -- is loaded as that level or layer at the rounded values, or without a vertical coordinate where
  -- the cube has none.
  pub set_fixed_surfaces-reload :
      (cube : Cube F) (full : Option (FullCube F)) (found : Option (Vertical F))
      (grib written : Keys F) (m : Metadata F)
      → vertical_coord cube full ≡ ok found
      → IsLevel found
      → lookup "NV" grib ≡ some (int (pos 0))
      → set_fixed_surfaces x e cube full grib ≡ ok written
      → vertical_coords x (section_of_keys written) m ≡ reload found m
  unfolding set_fixed_surfaces
  set_fixed_surfaces-reload cube full found grib written m p is_level nv h =
      subst (Returns (λ written. Loads m written (reload found m)))
        (no_more full found grib written is_level (sym (rw p refl) ∙ h))
        (write_surfaces-reload found grib m is_level nv)
