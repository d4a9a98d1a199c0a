-- ===== src/Save/Surfaces/Levels.antt =====
-- The levels that `set_fixed_surfaces` of _save_rules.py saves, by the name of their coordinate, and
-- what `vertical_coords` of _load_convert.py makes of them.
use gribbi.Base.{
  ℕ, String, ◌≡◌, refl, ap, ◌∙◌, ◌≢◌, Option, none, some, List, [], ◌∷◌, ◌===◌, arith, nat_eq,
  string_eq, option_eq, pair_eq, Error, key_error, Result, ok, err, ◌>>=◌,
}
use gribbi.Base.Int.{ℤ, pos, int_eq}
use gribbi.Base.Dict.{lookup}
use gribbi.Value.{Value, int, real}
use gribbi.Externals.{Externals, as_float}
use gribbi.Metadata.{Coord, Metadata, add_aux, scalar}
use gribbi.Tables.{lookup_value}
use gribbi.Load.Scaling.{unscale, unscale_scalar, unscale_one}
use gribbi.Load.Vertical.{vertical_coords, level, middle, surface_coord}
use gribbi.Save.Shape.{Keys}
use gribbi.Save.Shape.RoundTrip.{section_of_keys}
use gribbi.Save.Cube.{
  Cube, CubeCoord, FullCube, Encoding, named, has_coord, get_coord, only, first_of, pair_of,
}
use gribbi.Save.Surfaces.{plain, vertical_coord, single_vertical, surface_value, set_fixed_surfaces}
use gribbi.Save.Surfaces.RoundTrip.{reload, reload_found, set_fixed_surfaces-reload}

-- The kinds of level: the name of the coordinate, its code in code table 4.5 and the unit of that.
pub data LevelKind : String → ℕ → String → Type 0 where
  isobaric : LevelKind "air_pressure" 100 "Pa"
  isobaric_long : LevelKind "pressure" 100 "Pa"
  above_sea : LevelKind "altitude" 102 "m"
  above_ground : LevelKind "height" 103 "m"
  below_land : LevelKind "depth" 106 "m"
  isentropic : LevelKind "air_potential_temperature" 107 "K"

only-ok : {A : Type 0} (e : Error) (l : List A) (a : A) → only e l ≡ ok a → l ≡ a ∷ []
only-ok e [] a h = cc
only-ok e (b ∷ []) a h = cc
only-ok e (b ∷ c ∷ rest) a h = cc

code_is_level :
    (name unit : String) (code : ℕ) → LevelKind name code unit → (code ≢ 255) × (code ≢ 1)
code_is_level _ _ _ isobaric = (omega arith, omega arith)
code_is_level _ _ _ isobaric_long = (omega arith, omega arith)
code_is_level _ _ _ above_sea = (omega arith, omega arith)
code_is_level _ _ _ above_ground = (omega arith, omega arith)
code_is_level _ _ _ below_land = (omega arith, omega arith)
code_is_level _ _ _ isentropic = (omega arith, omega arith)

module _ {F : Type 0} where
  -- A coordinate of a surface that the loading does not know: its code is an attribute.
  abbrev unnamed : ℕ → Value F → List (Value F) → Coord F
  unnamed code point bounds = record (scalar point none none none) {
    bounds = bounds;
    attributes = ("GRIB_fixed_surface_type", int (pos code)) ∷ [];
  }

  -- The coordinate that is loaded: a pressure or a height, or one without a name.
  abbrev pub loaded :
      {name unit : String} {code : ℕ}
      → LevelKind name code unit
      → Value F
      → List (Value F)
      → Coord F
  loaded isobaric point bounds = record (scalar point none (some "pressure") (some "Pa")) {
    bounds = bounds;
  }
  loaded isobaric_long point bounds = record (scalar point none (some "pressure") (some "Pa")) {
    bounds = bounds;
  }
  loaded above_sea point bounds = unnamed 102 point bounds
  loaded above_ground point bounds = record (scalar point none (some "height") (some "m")) {
    bounds = bounds;
  }
  loaded below_land point bounds = unnamed 106 point bounds
  loaded isentropic point bounds = unnamed 107 point bounds

  surface_coord-loaded :
      (name unit : String) (code : ℕ) (kind : LevelKind name code unit) (point : Value F)
      (bounds : List (Value F))
      → surface_coord (int (pos code)) point bounds ≡ loaded kind point bounds
  unfolding lookup lookup_value
  surface_coord-loaded _ _ _ isobaric point bounds = refl
  surface_coord-loaded _ _ _ isobaric_long point bounds = refl
  surface_coord-loaded _ _ _ above_sea point bounds = refl
  surface_coord-loaded _ _ _ above_ground point bounds = refl
  surface_coord-loaded _ _ _ below_land point bounds = refl
  surface_coord-loaded _ _ _ isentropic point bounds = refl

  -- Of the names of levels, the cube has only this one.
  abbrev pub OnlyLevel : Cube F → String → Type 0
  OnlyLevel cube name =
      (has_coord cube "air_pressure" ≡ ("air_pressure" === name))
      × (has_coord cube "pressure" ≡ ("pressure" === name))
      × (has_coord cube "altitude" ≡ ("altitude" === name))
      × (has_coord cube "height" ≡ ("height" === name))
      × (has_coord cube "depth" ≡ ("depth" === name))
      × (has_coord cube "air_potential_temperature" ≡ ("air_potential_temperature" === name))

  -- The coordinate that is found.
  vertical_coord-plain :
      (name unit : String) (code : ℕ) (kind : LevelKind name code unit) (cube : Cube F)
      (full : Option (FullCube F)) (coord : CubeCoord F)
      → cube.hybrid_factories ≡ []
      → OnlyLevel cube name
      → get_coord cube name ≡ ok coord
      → vertical_coord cube full ≡ ok (some (plain coord code unit))
  unfolding vertical_coord single_vertical
  vertical_coord-plain _ _ _ isobaric cube full coord h (a, b, c, d, g, k) p =
      rw (h, a, only-ok key_error (named "air_pressure" cube.coords) coord p) refl
  vertical_coord-plain _ _ _ isobaric_long cube full coord h (a, b, c, d, g, k) p =
      rw (h, a, b, only-ok key_error (named "pressure" cube.coords) coord p) refl
  vertical_coord-plain _ _ _ above_sea cube full coord h (a, b, c, d, g, k) p =
      rw (h, a, b, c, p) refl
  vertical_coord-plain _ _ _ above_ground cube full coord h (a, b, c, d, g, k) p =
      rw (h, a, b, c, d, p) refl
  vertical_coord-plain _ _ _ below_land cube full coord h (a, b, c, d, g, k) p =
      rw (h, a, b, c, d, g, p) refl
  vertical_coord-plain _ _ _ isentropic cube full coord h (a, b, c, d, g, k) p =
      rw (h, a, b, c, d, g, k, p) refl

-- Two chains with the same first step.
after_same :
    {A B : Type 0} (r : Result A) (f h : A → Result B)
    → ((a : A) → f a ≡ h a)
    → (r >>= f) ≡ (r >>= h)
after_same (ok a) f h k = k a
after_same (err e) f h k = refl

module _ {F : Type 0} (x : Externals F) (e : Encoding F) where
  -- A value in the unit of the message, rounded to a whole number.
  abbrev rounded : CubeCoord F → String → F → Result ℤ
  rounded coord unit value = do v ← x.convert coord.units value unit; e.round v

  -- The level of a coordinate, or the layer between its first bounds, in whole numbers of the unit.
  abbrev pub level_of :
      {name unit : String} {code : ℕ}
      → LevelKind name code unit
      → CubeCoord F
      → List (List F)
      → Metadata F
      → Result (Metadata F)
  level_of {unit = unit} kind coord [] m = do
    value ← first_of coord.points
    n ← rounded coord unit value
    ok (add_aux (loaded kind (real (x.of_int n)) []) m)
  level_of {unit = unit} kind coord (row ∷ rows) m = do
    (lower, upper) ← pair_of row
    n ← rounded coord unit lower
    n2 ← rounded coord unit upper
    ok (
        add_aux
          (loaded kind (real (x.mul x.half (x.add (x.of_int n) (x.of_int n2))))
            (real (x.of_int n) ∷ real (x.of_int n2) ∷ []))
          m)

  unscale-whole :
      (n : ℤ)
      → ((a : F) → x.div a (x.pow10 (x.of_int (pos 0))) ≡ a)
      → unscale x (int n) (int (pos 0)) ≡ ok (real (x.of_int n))
  unfolding unscale unscale_scalar unscale_one as_float
  unscale-whole n exact = ap (λ a. ok (real a)) (exact (x.of_int n))

  reload_found-level_of :
      (name unit : String) (code : ℕ) (kind : LevelKind name code unit) (coord : CubeCoord F)
      (bounds : List (List F)) (m : Metadata F)
      → ((a : F) → x.div a (x.pow10 (x.of_int (pos 0))) ≡ a)
      → reload_found x e (plain coord code unit) (int (pos code)) bounds m
        ≡ level_of kind coord bounds m
  unfolding reload_found surface_value level middle as_float
  reload_found-level_of name unit code kind coord [] m exact =
      after_same (first_of coord.points) _ _ (λ value.
        after_same (rounded coord unit value) _ _ (λ n.
          rw
            (unscale-whole n exact, surface_coord-loaded name unit code kind (real (x.of_int n)) [])
            refl))
  reload_found-level_of name unit code kind coord (row ∷ rows) m exact =
      after_same (pair_of row) _ _ (λ (lower, upper).
        after_same (rounded coord unit lower) _ _ (λ n.
          after_same (rounded coord unit upper) _ _ (λ n2.
            rw
              (
                unscale-whole n exact,
                unscale-whole n2 exact,
                surface_coord-loaded name unit code kind
                    (real (x.mul x.half (x.add (x.of_int n) (x.of_int n2))))
                    (real (x.of_int n) ∷ real (x.of_int n2) ∷ []),
              )
              refl)))

  -- A cube without hybrid levels, which has of the six names of levels only this one, for one
  -- coordinate: where its surfaces are written to a message with NV = 0, and a number divided by
  -- 10.0 ** 0 is that number, the message is loaded with that level, or the layer between the first
  -- bounds, in whole numbers of Pa for a pressure, m for an altitude, a height or a depth, and K for
  -- a potential temperature. A pressure and a height are loaded under that name; the others have no
  -- name, and the attribute GRIB_fixed_surface_type with the code 102, 106 or 107.
  pub set_fixed_surfaces-level_of :
      (name unit : String) (code : ℕ) (kind : LevelKind name code unit) (cube : Cube F)
      (full : Option (FullCube F)) (coord : CubeCoord F) (grib written : Keys F) (m : Metadata F)
      → cube.hybrid_factories ≡ []
      → OnlyLevel cube name
      → get_coord cube name ≡ ok coord
      → lookup "NV" grib ≡ some (int (pos 0))
      → ((a : F) → x.div a (x.pow10 (x.of_int (pos 0))) ≡ a)
      → set_fixed_surfaces x e cube full grib ≡ ok written
      → vertical_coords x (section_of_keys written) m ≡ level_of kind coord coord.bounds m
  unfolding reload
  set_fixed_surfaces-level_of name unit code kind cube full coord grib written m h one p nv exact
        saved =
      set_fixed_surfaces-reload x e cube full (some (plain coord code unit)) grib written m
        (vertical_coord-plain name unit code kind cube full coord h one p)
        (
          refl,
          code,
          refl,
          (code_is_level name unit code kind).0,
          (code_is_level name unit code kind).1,
        )
        nv saved
      ∙ reload_found-level_of name unit code kind coord coord.bounds m exact
