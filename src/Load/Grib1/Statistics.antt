-- ===== src/Load/Grib1/Statistics.antt =====
-- The statistics over time of a GRIB1 message.
use gribbi.Base.{
  ℕ, String, ◌≡◌, refl, inl, inr, false, Option, none, some, [], ◌∷◌, arith, ◌==◌, nat_eq,
  string_eq, option_eq, pair_eq, Result, ok, Result-cases, ◌>>=◌,
}
use gribbi.Base.Dict.{Dict, lookup}
use gribbi.Externals.{Externals}
use gribbi.Metadata.{Metadata}
use gribbi.Load.Grib1.{
  GribWrapper, add_bounded_time_coords, when_indicator, add_statistics, over_time,
}

-- The indicators of a time range with bounds, and the cell method of each.
abbrev pub range_methods : Dict ℕ (Option String)
range_methods =
    (2, none)
    ∷ (3, some "mean")
    ∷ (4, some "sum")
    ∷ (5, some "_difference")
    ∷ (51, some "mean")
    ∷ (113, some "mean")
    ∷ (114, some "sum")
    ∷ (115, some "mean")
    ∷ (116, some "sum")
    ∷ (117, some "mean")
    ∷ (118, some "_covariance")
    ∷ (123, some "mean")
    ∷ (124, some "sum")
    ∷ (125, some "standard_deviation")
    ∷ []

module _ {F : Type 0} (x : Externals F) where
  abbrev pub with_method : Option String → Metadata F → Metadata F
  with_method none m = m
  with_method (some method) m = over_time x method m

  -- What the table says of an indicator.
  unfoldable pub summarised :
      Option (Option String) → GribWrapper F → Metadata F → Result (Metadata F)
  summarised none grib m = ok m
  summarised (some method) grib m = do
    bounded ← add_bounded_time_coords x grib m
    ok (with_method method bounded)

  when_indicator-other :
      (n : ℕ) (method : String) (grib : GribWrapper F) (m : Metadata F)
      → (grib.time_range_indicator == n) ≡ false
      → when_indicator x n method grib m ≡ ok m
  unfolding when_indicator
  when_indicator-other n method grib m p = rw p refl

  -- The fourteen statements together do what one look into the table says: bounded times and the
  -- cell method of the indicator, and nothing for another indicator.
  pub add_statistics-summarised :
      (grib : GribWrapper F) (m : Metadata F)
      → add_statistics x grib m ≡ summarised (lookup grib.time_range_indicator range_methods) grib m
  unfolding add_statistics when_indicator summarised lookup
  add_statistics-summarised grib m = elim (Result-cases (add_bounded_time_coords x grib m)) [
    | inl (bounded, p) ↦ ground (arith, p)
    | inr (error, p) ↦ ground (arith, p)
  ]
