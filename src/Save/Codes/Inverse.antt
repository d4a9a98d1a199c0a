-- ===== src/Save/Codes/Inverse.antt =====
-- The codes that are saved are the inverse of those that are loaded.
use gribbi.Base.{
  ℕ, String, ◌≡◌, refl, subst, ◌↔◌, inl, inr, Option, none, some, [], ◌∷◌, arith, ◌==◌, ==_iff,
  Bool-cases, nat_eq, string_eq, option_eq, pair_eq, ok,
}
use text.Mathlib.TextEquality.{eq_iff}
use gribbi.Base.Dict.{Dict, lookup, insert, some_inj}
use gribbi.Tables.{InterpolationParameters, statistic_type_names, spatial_processing_types}
use gribbi.Save.Codes.{
  invert, statistic_type_names_inverted, statistical_method_code, first_code,
  get_spatial_process_code,
}

AllEntries : {V : Type 0} → (ℕ → V → Type 0) → Dict ℕ V → Type 0
AllEntries P [] = Unit
AllEntries P ((k, v) ∷ d) = P k v × AllEntries P d

-- What holds of every entry holds of one that is looked up.
AllEntries-lookup :
    {V : Type 0} (P : ℕ → V → Type 0) (k : ℕ) (d : Dict ℕ V) {v : V}
    → AllEntries P d
    → lookup k d ≡ some v
    → P k v
unfolding lookup AllEntries
AllEntries-lookup P k [] all h = cc
AllEntries-lookup P k ((j, w) ∷ d) all h = elim (Bool-cases (j == k)) [
  | inl same ↦
      let key : j ≡ k = (==_iff j k).0 same in
      subst (P k) (some_inj w _ (rw same at h)) (subst (λ i. P i w) key all.0)
  | inr other ↦ AllEntries-lookup P k d all.1 (rw other at h)
]

-- A statistic is saved as a code exactly where that code is loaded as the statistic.
pub statistical_method_code-inverse :
    (name : String) (code : ℕ)
    → (statistical_method_code name ≡ ok code) ↔ (lookup code statistic_type_names ≡ some name)
unfolding statistical_method_code statistic_type_names_inverted invert lookup insert AllEntries
statistical_method_code-inverse name code = (
  (λ h. ground (
    arith,
    eq_iff "mean" name,
    eq_iff "sum" name,
    eq_iff "maximum" name,
    eq_iff "minimum" name,
    eq_iff "standard_deviation" name,
  )),
  AllEntries-lookup (λ k v. statistical_method_code v ≡ ok k) code statistic_type_names
      (refl, (refl, (refl, (refl, (refl, tt))))),
)

-- A type of spatial processing is saved as a code exactly where that code is loaded as one of that
-- type.
pub get_spatial_process_code-inverse :
    (type : String) (code : ℕ)
    → (get_spatial_process_code type ≡ ok code) ↔ (
        (p : InterpolationParameters) × (lookup code spatial_processing_types ≡ some p)
        × (p.interpolation_type ≡ type))
unfolding get_spatial_process_code first_code lookup AllEntries
get_spatial_process_code-inverse type code = (
  (λ h. loaded (lookup code spatial_processing_types) refl h),
  (λ (p, h, k).
      subst (λ t. get_spatial_process_code t ≡ ok code) k
        (AllEntries-lookup (λ c q. get_spatial_process_code q.interpolation_type ≡ ok c) code
          spatial_processing_types (refl, (refl, (refl, (refl, (refl, (refl, (refl, tt))))))) h)),
)
  where
    loaded :
        (found : Option InterpolationParameters)
        → lookup code spatial_processing_types ≡ found
        → get_spatial_process_code type ≡ ok code
        → (p : InterpolationParameters) × (lookup code spatial_processing_types ≡ some p)
          × (p.interpolation_type ≡ type)
    loaded none h k = absurd (ground (arith, h, k))
    loaded (some p) h k = (
      p,
      h,
      ground (
        arith,
        h,
        k,
        eq_iff "No interpolation" type,
        eq_iff "Bilinear interpolation" type,
        eq_iff "Bicubic interpolation" type,
        eq_iff "Nearest neighbour interpolation" type,
        eq_iff "Budget interpolation" type,
        eq_iff "Spectral interpolation" type,
        eq_iff "Neighbour-budget interpolation" type,
      ),
    )
