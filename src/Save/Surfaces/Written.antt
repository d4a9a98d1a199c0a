-- ===== src/Save/Surfaces/Written.antt =====
-- What `vertical_coords` of _load_convert.py makes of the keys that `put_surfaces` gives.
use gribbi.Base.{
  ℕ, String, ◌≡◌, refl, ◌∙◌, ◌≢◌, some, [], ◌∷◌, arith, nat_eq, string_eq, option_eq, pair_eq,
  Result, ok, ◌>>=◌,
}
use gribbi.Base.Int.{ℤ, pos, beq_ℤ_iff, int_eq}
use gribbi.Base.Dict.{lookup, lookup-insert}
use gribbi.Value.{Value, missing, int}
use gribbi.Value.{Reader}
use gribbi.Externals.{Externals}
use gribbi.Metadata.{Metadata, add_aux}
use gribbi.Load.Vertical.{vertical_coords, surface, level, layer, middle, surface_coord}
use gribbi.Load.Scaling.{unscale}
use gribbi.Save.Shape.{Keys}
use gribbi.Save.Shape.RoundTrip.{section_of_keys}
use gribbi.Save.Surfaces.{put_surfaces}

module _ {F : Type 0} where
  -- The section of the keys that put_surfaces gives.
  abbrev pub surfaces : Value F → Value F → Value F → Value F → Value F → Keys F → Reader F
  surfaces first_type first_value second_type second_factor second_value grib =
      section_of_keys
        (put_surfaces first_type first_value second_type second_factor second_value grib)

  put_surfaces-nv :
      (t v t2 f2 v2 : Value F) (grib : Keys F)
      → lookup "NV" (put_surfaces t v t2 f2 v2 grib) ≡ lookup "NV" grib
  unfolding put_surfaces
  put_surfaces-nv t v t2 f2 v2 grib = simp (lookup-insert)

  put_surfaces-first_type :
      (t v t2 f2 v2 : Value F) (grib : Keys F)
      → lookup "typeOfFirstFixedSurface" (put_surfaces t v t2 f2 v2 grib) ≡ some t
  unfolding put_surfaces
  put_surfaces-first_type t v t2 f2 v2 grib = simp (lookup-insert)

  put_surfaces-first_value :
      (t v t2 f2 v2 : Value F) (grib : Keys F)
      → lookup "scaledValueOfFirstFixedSurface" (put_surfaces t v t2 f2 v2 grib) ≡ some v
  unfolding put_surfaces
  put_surfaces-first_value t v t2 f2 v2 grib = simp (lookup-insert)

  put_surfaces-first_factor :
      (t v t2 f2 v2 : Value F) (grib : Keys F)
      → lookup "scaleFactorOfFirstFixedSurface" (put_surfaces t v t2 f2 v2 grib)
        ≡ some (int (pos 0))
  unfolding put_surfaces
  put_surfaces-first_factor t v t2 f2 v2 grib = simp (lookup-insert)

  put_surfaces-second_type :
      (t v t2 f2 v2 : Value F) (grib : Keys F)
      → lookup "typeOfSecondFixedSurface" (put_surfaces t v t2 f2 v2 grib) ≡ some t2
  unfolding put_surfaces
  put_surfaces-second_type t v t2 f2 v2 grib = simp (lookup-insert)

  put_surfaces-second_value :
      (t v t2 f2 v2 : Value F) (grib : Keys F)
      → lookup "scaledValueOfSecondFixedSurface" (put_surfaces t v t2 f2 v2 grib) ≡ some v2
  unfolding put_surfaces
  put_surfaces-second_value t v t2 f2 v2 grib = simp (lookup-insert)

  put_surfaces-second_factor :
      (t v t2 f2 v2 : Value F) (grib : Keys F)
      → lookup "scaleFactorOfSecondFixedSurface" (put_surfaces t v t2 f2 v2 grib) ≡ some f2
  unfolding put_surfaces
  put_surfaces-second_factor t v t2 f2 v2 grib = simp (lookup-insert)

  shown :
      (grib : Keys F) (key : String) (v : Value F)
      → lookup key grib ≡ some v
      → (section_of_keys grib).get key ≡ ok v
  shown grib key v p = rw (p, section_of_keys) refl

module _ {F : Type 0} (x : Externals F) where
  -- The coordinate of a layer between two whole numbers.
  abbrev pub two_levels : Value F → ℤ → ℤ → Metadata F → Result (Metadata F)
  two_levels code n n2 m = do
    first ← unscale x (int n) (int (pos 0))
    second ← unscale x (int n2) (int (pos 0))
    point ← middle x first second
    ok (add_aux (surface_coord code point (first ∷ second ∷ [])) m)

  -- A surface of a type that is not missing and not the ground, alone or with another of that type.
  section-surface :
      (section : Reader F) (code : ℕ) (m : Metadata F)
      → section.get "NV" ≡ ok (int (pos 0))
      → section.get "typeOfFirstFixedSurface" ≡ ok (int (pos code))
      → code ≢ 255
      → code ≢ 1
      → vertical_coords x section m ≡ surface x section (int (pos code)) m
  unfolding vertical_coords
  section-surface section code m nv type p q = ground arith

  section-level :
      (section : Reader F) (code : ℕ) (n : ℤ) (m : Metadata F)
      → section.get "scaledValueOfFirstFixedSurface" ≡ ok (int n)
      → section.get "scaleFactorOfFirstFixedSurface" ≡ ok (int (pos 0))
      → section.get "typeOfSecondFixedSurface" ≡ ok (int (pos 255))
      → surface x section (int (pos code)) m ≡ level x (int (pos code)) (int n) (int (pos 0)) m
  unfolding surface
  section-level section code n m v f t = ground arith

  section-layer :
      (section : Reader F) (code : ℕ) (n n2 : ℤ) (m : Metadata F)
      → code ≢ 255
      → section.get "scaledValueOfFirstFixedSurface" ≡ ok (int n)
      → section.get "scaleFactorOfFirstFixedSurface" ≡ ok (int (pos 0))
      → section.get "typeOfSecondFixedSurface" ≡ ok (int (pos code))
      → section.get "scaledValueOfSecondFixedSurface" ≡ ok (int n2)
      → section.get "scaleFactorOfSecondFixedSurface" ≡ ok (int (pos 0))
      → surface x section (int (pos code)) m ≡ two_levels (int (pos code)) n n2 m
  unfolding surface layer
  section-layer section code n n2 m p v f t v2 f2 = ground (arith, beq_ℤ_iff (pos code) (pos code))

  -- A surface that was written.
  pub put_surfaces-level :
      (code : ℕ) (n : ℤ) (grib : Keys F) (m : Metadata F)
      → lookup "NV" grib ≡ some (int (pos 0))
      → code ≢ 255
      → code ≢ 1
      → vertical_coords x (surfaces (int (pos code)) (int n) (int (pos 255)) missing missing grib) m
        ≡ level x (int (pos code)) (int n) (int (pos 0)) m
  put_surfaces-level code n grib m nv p q =
      section-surface (surfaces t v t2 missing missing grib) code m
        (shown keys "NV" (int (pos 0)) (put_surfaces-nv t v t2 missing missing grib ∙ nv))
        (shown keys "typeOfFirstFixedSurface" t
          (put_surfaces-first_type t v t2 missing missing grib))
        p q
      ∙ section-level (surfaces t v t2 missing missing grib) code n m
          (shown keys "scaledValueOfFirstFixedSurface" v
            (put_surfaces-first_value t v t2 missing missing grib))
          (shown keys "scaleFactorOfFirstFixedSurface" (int (pos 0))
            (put_surfaces-first_factor t v t2 missing missing grib))
          (shown keys "typeOfSecondFixedSurface" t2
            (put_surfaces-second_type t v t2 missing missing grib))
    where
      t : Value F
      t = int (pos code)

      v : Value F
      v = int n

      t2 : Value F
      t2 = int (pos 255)

      keys : Keys F
      keys = put_surfaces t v t2 missing missing grib

  pub put_surfaces-layer :
      (code : ℕ) (n n2 : ℤ) (grib : Keys F) (m : Metadata F)
      → lookup "NV" grib ≡ some (int (pos 0))
      → code ≢ 255
      → code ≢ 1
      → vertical_coords x
          (surfaces (int (pos code)) (int n) (int (pos code)) (int (pos 0)) (int n2) grib)
          m
        ≡ two_levels (int (pos code)) n n2 m
  put_surfaces-layer code n n2 grib m nv p q =
      section-surface (surfaces t v t2 f2 v2 grib) code m
        (shown keys "NV" (int (pos 0)) (put_surfaces-nv t v t2 f2 v2 grib ∙ nv))
        (shown keys "typeOfFirstFixedSurface" t (put_surfaces-first_type t v t2 f2 v2 grib)) p q
      ∙ section-layer (surfaces t v t2 f2 v2 grib) code n n2 m p
          (shown keys "scaledValueOfFirstFixedSurface" v
            (put_surfaces-first_value t v t2 f2 v2 grib))
          (shown keys "scaleFactorOfFirstFixedSurface" (int (pos 0))
            (put_surfaces-first_factor t v t2 f2 v2 grib))
          (shown keys "typeOfSecondFixedSurface" t2 (put_surfaces-second_type t v t2 f2 v2 grib))
          (shown keys "scaledValueOfSecondFixedSurface" v2
            (put_surfaces-second_value t v t2 f2 v2 grib))
          (shown keys "scaleFactorOfSecondFixedSurface" f2
            (put_surfaces-second_factor t v t2 f2 v2 grib))
    where
      t : Value F
      t = int (pos code)

      v : Value F
      v = int n

      t2 : Value F
      t2 = int (pos code)

      f2 : Value F
      f2 = int (pos 0)

      v2 : Value F
      v2 = int n2

      keys : Keys F
      keys = put_surfaces t v t2 f2 v2 grib

  pub put_surfaces-ground :
      (grib : Keys F) (m : Metadata F)
      → lookup "NV" grib ≡ some (int (pos 0))
      → vertical_coords x
          (surfaces (int (pos 1)) (int (pos 0)) (int (pos 255)) missing missing grib)
          m
        ≡ ok m
  unfolding vertical_coords
  put_surfaces-ground grib m nv = ground (
    arith,
    shown (put_surfaces (int (pos 1)) (int (pos 0)) (int (pos 255)) missing missing grib) "NV"
        (int (pos 0))
        (put_surfaces-nv (int (pos 1)) (int (pos 0)) (int (pos 255)) missing missing grib ∙ nv),
    shown (put_surfaces (int (pos 1)) (int (pos 0)) (int (pos 255)) missing missing grib)
        "typeOfFirstFixedSurface" (int (pos 1))
        (put_surfaces-first_type (int (pos 1)) (int (pos 0)) (int (pos 255)) missing missing grib),
  )
