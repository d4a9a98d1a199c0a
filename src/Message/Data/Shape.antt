-- ===== src/Message/Data/Shape.antt =====
-- The shape of a message's data.
use gribbi.Base.{
  Result-cases, ℕ, ◌%◌, String, ◌≡◌, ◌≢◌, inl, inr, Bool, true, ◌&&◌, ◌||◌, List, [], ◌∷◌, arith,
  ◌==◌, if◌then◌else◌, nat_eq, string_eq, option_eq, pair_eq, Result, ok, ◌>>=◌,
}
use gribbi.Base.Int.{pos, int_eq}
use gribbi.Value.{Value, int}
use gribbi.Value.{Reader}
use gribbi.Message.Data.{data_shape, is_reduced, get_shape}

-- The keys that give the shape of a grid template's data.
abbrev pub shape_keys : ℕ → Bool → List String
shape_keys template reduced =
    if (template == 20) || (template == 30) || (template == 90)
    then "Ny" ∷ "Nx" ∷ []
    else if template == 140
    then "numberOfPointsAlongYAxis" ∷ "numberOfPointsAlongXAxis" ∷ []
    else if (template == 40) && reduced
    then "numberOfDataPoints" ∷ []
    else "Nj" ∷ "Ni" ∷ []

module _ {F : Type 0} where
  abbrev pub get_all : Reader F → List String → Result (List (Value F))
  get_all section [] = ok []
  get_all section (key ∷ rest) = do
    value ← section.get key
    values ← get_all section rest
    ok (value ∷ values)

  get_shape_lem :
      (section : Reader F) (template : ℕ) (reduced : Bool)
      → get_shape section (int (pos template)) reduced
        ≡ get_all section (shape_keys template reduced)
  unfolding get_shape
  get_shape_lem section template reduced = ground arith

  -- Where a shape of the data is found, for a template and a scanning mode that are natural
  -- numbers, the grid is reduced only at template 40, the template is not 4, no bit of the
  -- scanning mode but the highest two is set, and the shape is what is read under the keys of
  -- the template.
  pub data_shape_supported :
      (section : Reader F) (template scanning : ℕ) (shape : List (Value F))
      → section.get "gridDefinitionTemplateNumber" ≡ ok (int (pos template))
      → section.get "scanningMode" ≡ ok (int (pos scanning))
      → data_shape section ≡ ok shape
      → (reduced : Bool) × (is_reduced section ≡ ok reduced)
        × (reduced ≡ true → template ≡ 40)
        × (get_all section (shape_keys template reduced) ≡ ok shape)
        × (template ≢ 4)
        × (scanning % 64 ≡ 0)
  unfolding data_shape
  data_shape_supported section template scanning shape numbered scans h =
      elim (Result-cases (is_reduced section)) [
        | inl (reduced, e) ↦ (
          reduced,
          e,
          ground arith,
          rw (← get_shape_lem section template reduced) (ground arith),
          ground arith,
          ground arith,
        )
        | inr (e, failed) ↦ absurd (ground arith)
      ]
