-- ===== src/Load/Vertical/Laws.antt =====
-- What the vertical coordinates add to the metadata, and what they leave alone.
use gribbi.Base.{
  ℕ, ◌+◌, ◌*◌, ◌/◌, ◌≡◌, ◌⊎◌, Option, some, List, [], ◌∷◌, ◌++◌, arith, ◌==◌, get_elem?, nat_eq,
  string_eq, option_eq, pair_eq, ok,
}
use gribbi.Base.Int.{pos, ◌+ℤ◌, int_eq}
use gribbi.Value.{int, real, reals}
use gribbi.Value.{Reader}
use gribbi.Metadata.{Metadata, add_aux}
use gribbi.Load.Vertical.{
  index, level_number_coord, level_value_coord, sigma_coord, hybrid_factory, add_hybrid,
  hybrid_factories, level,
}

module _ {F : Type 0} where
  -- On a hybrid level, of surface type 105, 118 or 119, at scale factor 0 and with no second
  -- surface, where the vector of coefficients has a delta at the level's number and a sigma at
  -- that number behind half of NV, these two and the level's number are added as three
  -- coordinates, with one factory: of heights for type 118, else of pressures.
  pub hybrid_factories_levels :
      (section : Reader F) (m : Metadata F) (type half level : ℕ) (values : List (Option F))
      (delta sigma : F)
      → (type ≡ 105) ⊎ ((type ≡ 118) ⊎ (type ≡ 119))
      → section.get "typeOfFirstFixedSurface" ≡ ok (int (pos type))
      → section.get "typeOfSecondFixedSurface" ≡ ok (int (pos 255))
      → section.get "scaleFactorOfFirstFixedSurface" ≡ ok (int (pos 0))
      → section.get "scaledValueOfFirstFixedSurface" ≡ ok (int (pos level))
      → section.get "pv" ≡ ok (reals values)
      → get_elem? values level ≡ some (some delta)
      → get_elem? values (half + level) ≡ some (some sigma)
      → hybrid_factories section (pos (half * 2)) m
        ≡ ok
            (record (add_aux (sigma_coord (real sigma)) (
              add_aux
                (level_value_coord (type == 118) (real delta))
                (add_aux (level_number_coord (int (pos level))) m))) {
                  factories = m.factories ++ (hybrid_factory (type == 118) ∷ []);
                })
  unfolding hybrid_factories add_hybrid index ◌+ℤ◌
  hybrid_factories_levels section m type half level values delta sigma kind first second factor at
        pv h k =
      let halved : half * 2 / 2 ≡ half = omega arith in
      (rw (first, second, factor, at, pv) (ground arith))
