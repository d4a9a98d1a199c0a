-- ===== src/Tests/Save.antt =====
-- The coefficients of two of three hybrid levels.
use gribbi.Base.{
  ◌≡◌, refl, inl, false, some, List, [], ◌∷◌, map, arith, nat_eq, string_eq, option_eq, pair_eq, ok,
}
use gribbi.Base.Int.{ℤ, pos, int_eq}
use gribbi.Base.Dict.{lookup}
use gribbi.Value.{real, reals}
use gribbi.Metadata.{add_aux}
use gribbi.Load.Vertical.{
  hybrid_factories, hybrid_factory, sigma_coord, level_value_coord, level_number_coord,
}
use gribbi.Load.Convert.{empty_metadata}
use gribbi.Save.Coefficients.{max_level, has_level_below_1, write_levels, hybrid_coefficients}
use gribbi.Save.Coefficients.RoundTrip.{hybrid_factories-hybrid_coefficients}
use gribbi.Tests.{known, number}
use gribbi.Value.{Reader}

abbrev pv : List ℤ
pv = pos 0 ∷ pos 20 ∷ pos 0 ∷ pos 90 ∷ pos 0 ∷ pos 8 ∷ pos 0 ∷ pos 1 ∷ []

abbrev section : Reader ℤ
section = known (
    ("pv", reals (map some pv))
    ∷ ("typeOfFirstFixedSurface", number 105)
    ∷ ("scaleFactorOfFirstFixedSurface", number 0)
    ∷ ("scaledValueOfFirstFixedSurface", number 3)
    ∷ ("typeOfSecondFixedSurface", number 255)
    ∷ [])

hybrid_factories-hybrid_coefficients_example :
    hybrid_factories section (pos 8) empty_metadata
    ≡ ok
        (record (add_aux (sigma_coord (real (pos 1))) (
          add_aux
            (level_value_coord false (real (pos 90)))
            (add_aux (level_number_coord (number 3)) empty_metadata))) {
              factories = hybrid_factory false ∷ [];
            })
unfolding lookup hybrid_coefficients write_levels max_level has_level_below_1
hybrid_factories-hybrid_coefficients_example =
    hybrid_factories-hybrid_coefficients (λ a. a) (pos 0) (pos 3 ∷ pos 1 ∷ [])
      (pos 90 ∷ pos 20 ∷ []) (pos 1 ∷ pos 8 ∷ []) 8 0 3 105 pv (pos 90) (pos 1) section
      empty_metadata refl (((λ e. absurd (omega (arith, e))), tt), (tt, tt)) refl refl refl
      (inl refl) refl refl refl refl refl
