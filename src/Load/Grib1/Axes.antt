-- ===== src/Load/Grib1/Axes.antt =====
-- The axes that each type of grid of a GRIB1 message adds, and how they lie.
use gribbi.Base.{
  ℕ, String, ◌≡◌, refl, ap, ◌∙◌, sym, arith, zero, suc, Bool-cases, subst, inl, inr, Bool, true,
  false, Option, none, some, List, [], ◌∷◌, ◌++◌, if◌then◌else◌, ◌===◌, nat_eq, string_eq,
  option_eq, pair_eq, ok, Returns,
}
use gribbi.Base.Int.{ℤ, pos, negsuc, int_eq}
use gribbi.Value.{Value}
use gribbi.Base.Steps.{known}
use gribbi.Metadata.{Coord, Metadata, add_aux}
use gribbi.Load.Convert.{empty_metadata}
use gribbi.Load.Convert.Layout.{undimensioned}
use gribbi.Base.Dict.{Dict, lookup}
use gribbi.Load.Grib1.{GribWrapper, regular_grid, add_horizontal, zero_or_one}

-- The types of grid: a reduced one, those in degrees and those in metres.
pub data GridKind : Type 0 where
  reduced_kind : GridKind
  degrees_kind : GridKind
  metres_kind : GridKind

abbrev pub grid_kinds : Dict String GridKind
grid_kinds =
    ("reduced_gg", reduced_kind)
    ∷ ("regular_ll", degrees_kind)
    ∷ ("rotated_ll", degrees_kind)
    ∷ ("regular_gg", degrees_kind)
    ∷ ("polar_stereographic", metres_kind)
    ∷ ("lambert", metres_kind)
    ∷ []

zero_or_one-pos :
    (value : ℤ) (b : Bool) → zero_or_one value ≡ ok b → value ≡ pos (if b then 1 else 0)
zero_or_one-pos (pos zero) true h = cc
zero_or_one-pos (pos zero) false h = refl
zero_or_one-pos (pos (suc zero)) true h = refl
zero_or_one-pos (pos (suc zero)) false h = cc
zero_or_one-pos (pos (suc (suc n))) b h = ground arith
zero_or_one-pos (negsuc n) b h = ground arith

-- The order of the two texts in a test.
flip : (a b : String) → (a === b) ≡ (b === a)
flip a b = ground (arith, string_eq.beq_iff a b, string_eq.beq_iff b a)

module _ {F : Type 0} where
  -- A coordinate of those points, name and unit, in the coordinate system of the grid.
  pub record IsAxis (grib : GribWrapper F) (points : Value F) (name unit : String) (c : Coord F)
      : Type 0 where
    pub points_are : c.points ≡ points
    pub named : c.standard_name ≡ some name
    pub in_unit : c.units ≡ some unit
    pub on_system : c.coord_system ≡ some grib.coord_system

  -- The axes y and x of the grid, in that unit.
  abbrev pub AreAxes : GribWrapper F → String → Coord F → Coord F → Type 0
  AreAxes grib unit y x =
      IsAxis grib grib.y_points grib.y_coord_name unit y
      × IsAxis grib grib.x_points grib.x_coord_name unit x

  abbrev pub Along :
      Bool → GribWrapper F → String → List (Coord F × Option ℕ) → List (Coord F × Option ℕ) → Type 0
  Along j_consecutive grib unit dims aux =
      (y : Coord F) × (x : Coord F) × (others : List (Coord F)) × AreAxes grib unit y x
      × (dims
          ≡ (y, some (if j_consecutive then 1 else 0))
            ∷ (x, some (if j_consecutive then 0 else 1))
            ∷ [])
      × (aux ≡ undimensioned others)

  -- How the coordinates of a grid of a type lie; for another type, none has a dimension.
  abbrev pub LiesAs :
      Option GridKind
      → GribWrapper F
      → List (Coord F × Option ℕ)
      → List (Coord F × Option ℕ)
      → Type 0
  LiesAs none grib dims aux = (others : List (Coord F)) × (dims ≡ []) × (aux ≡ undimensioned others)
  LiesAs (some reduced_kind) grib dims aux =
      (y : Coord F) × (x : Coord F) × (others : List (Coord F)) × AreAxes grib "degrees" y x
      × (dims ≡ [])
      × (aux ≡ (y, some 0) ∷ (x, some 0) ∷ undimensioned others)
  LiesAs (some degrees_kind) grib dims aux =
      (j_consecutive : Bool) × (grib.j_points_are_consecutive
        ≡ ok (pos (if j_consecutive then 1 else 0)))
      × Along j_consecutive grib "degrees" dims aux
  LiesAs (some metres_kind) grib dims aux = Along false grib "m" dims aux

  abbrev pub Layout1 : GribWrapper F → Metadata F → Type 0
  Layout1 grib m =
      LiesAs (lookup grib.grid_type grid_kinds) grib m.dim_coords_and_dims m.aux_coords_and_dims

  undimensioned-snoc :
      (cs : List (Coord F)) (c : Coord F)
      → undimensioned cs ++ ((c, none) ∷ []) ≡ undimensioned (cs ++ (c ∷ []))
  undimensioned-snoc [] c = refl
  undimensioned-snoc (d ∷ cs) c = ap (λ rest. (d, none) ∷ rest) (undimensioned-snoc cs c)

  LiesAs-add_aux :
      (kind : Option GridKind) (grib : GribWrapper F) (c : Coord F)
      (dims aux : List (Coord F × Option ℕ))
      → LiesAs kind grib dims aux
      → LiesAs kind grib dims (aux ++ ((c, none) ∷ []))
  LiesAs-add_aux none grib c dims aux (others, p, q) =
      (others ++ (c ∷ []), p, rw q (undimensioned-snoc others c))
  LiesAs-add_aux (some reduced_kind) grib c dims aux (y, x, others, axes, p, q) = (
    y,
    x,
    others ++ (c ∷ []),
    axes,
    p,
    rw q (ap (λ rest. (y, some 0) ∷ (x, some 0) ∷ rest) (undimensioned-snoc others c)),
  )
  LiesAs-add_aux (some degrees_kind) grib c dims aux (j, h, (y, x, others, axes, p, q)) =
      (j, h, (y, x, others ++ (c ∷ []), axes, p, rw q (undimensioned-snoc others c)))
  LiesAs-add_aux (some metres_kind) grib c dims aux (y, x, others, axes, p, q) =
      (y, x, others ++ (c ∷ []), axes, p, rw q (undimensioned-snoc others c))

  pub Layout1-add_aux :
      (grib : GribWrapper F) (c : Coord F) (m : Metadata F)
      → Layout1 grib m
      → Layout1 grib (add_aux c m)
  Layout1-add_aux grib c m h =
      LiesAs-add_aux (lookup grib.grid_type grid_kinds) grib c m.dim_coords_and_dims
        m.aux_coords_and_dims h

  regular_grid-LiesAs :
      (grib : GribWrapper F)
      → Returns
          (λ m. LiesAs (some degrees_kind) grib m.dim_coords_and_dims m.aux_coords_and_dims)
          (regular_grid grib empty_metadata)
  unfolding regular_grid
  regular_grid-LiesAs grib = known _ grib.j_points_are_consecutive _ (λ value p.
      known _ (zero_or_one value) _ (λ consecutive q. (
        consecutive,
        p ∙ ap ok (zero_or_one-pos value consecutive q),
        (
          _,
          _,
          [],
          (
            record { points_are = refl; named = refl; in_unit = refl; on_system = refl },
            record { points_are = refl; named = refl; in_unit = refl; on_system = refl },
          ),
          refl,
          refl,
        ),
      )))

  kind_is :
      (kind : Option GridKind) (grib : GribWrapper F)
      → lookup grib.grid_type grid_kinds ≡ kind
      → Returns
          (λ m. LiesAs kind grib m.dim_coords_and_dims m.aux_coords_and_dims)
          (add_horizontal grib empty_metadata)
      → Returns (Layout1 grib) (add_horizontal grib empty_metadata)
  kind_is kind grib p h =
      subst
        (λ k.
          Returns (λ m. LiesAs k grib m.dim_coords_and_dims m.aux_coords_and_dims)
            (add_horizontal grib empty_metadata))
        (sym p) h

  pub add_horizontal-Layout1 :
      (grib : GribWrapper F) → Returns (Layout1 grib) (add_horizontal grib empty_metadata)
  unfolding add_horizontal lookup
  add_horizontal-Layout1 grib = elim (Bool-cases ("reduced_gg" === grib.grid_type)) [
    | inl t1 ↦ kind_is (some reduced_kind) grib (rw (t1) refl) (
        rw (flip grib.grid_type "reduced_gg", t1)
          (
            _,
            _,
            [],
            (
              record { points_are = refl; named = refl; in_unit = refl; on_system = refl },
              record { points_are = refl; named = refl; in_unit = refl; on_system = refl },
            ),
            refl,
            refl,
          ))
    | inr f1 ↦ elim (Bool-cases ("regular_ll" === grib.grid_type)) [
      | inl t2 ↦
          kind_is (some degrees_kind) grib (rw (f1, t2) refl)
            (rw (flip grib.grid_type "reduced_gg", f1, t2) (regular_grid-LiesAs grib))
      | inr f2 ↦ elim (Bool-cases ("rotated_ll" === grib.grid_type)) [
        | inl t3 ↦
            kind_is (some degrees_kind) grib (rw (f1, f2, t3) refl)
              (rw (flip grib.grid_type "reduced_gg", f1, f2, t3) (regular_grid-LiesAs grib))
        | inr f3 ↦ elim (Bool-cases ("regular_gg" === grib.grid_type)) [
          | inl t4 ↦
              kind_is (some degrees_kind) grib (rw (f1, f2, f3, t4) refl)
                (rw (flip grib.grid_type "reduced_gg", f1, f2, f3, t4) (regular_grid-LiesAs grib))
          | inr f4 ↦ elim (Bool-cases ("polar_stereographic" === grib.grid_type)) [
            | inl t5 ↦ kind_is (some metres_kind) grib (rw (f1, f2, f3, f4, t5) refl) (
                rw (flip grib.grid_type "reduced_gg", f1, f2, f3, f4, t5)
                  (
                    _,
                    _,
                    [],
                    (
                      record { points_are = refl; named = refl; in_unit = refl; on_system = refl },
                      record { points_are = refl; named = refl; in_unit = refl; on_system = refl },
                    ),
                    refl,
                    refl,
                  ))
            | inr f5 ↦ elim (Bool-cases ("lambert" === grib.grid_type)) [
              | inl t6 ↦ kind_is (some metres_kind) grib (rw (f1, f2, f3, f4, f5, t6) refl) (
                  rw (flip grib.grid_type "reduced_gg", f1, f2, f3, f4, f5, t6)
                    (
                      _,
                      _,
                      [],
                      (
                        record {
                          points_are = refl;
                          named = refl;
                          in_unit = refl;
                          on_system = refl;
                        },
                        record {
                          points_are = refl;
                          named = refl;
                          in_unit = refl;
                          on_system = refl;
                        },
                      ),
                      refl,
                      refl,
                    ))
              | inr f6 ↦
                  kind_is none grib (rw (f1, f2, f3, f4, f5, f6) refl)
                    (rw (flip grib.grid_type "reduced_gg", f1, f2, f3, f4, f5, f6) ([], refl, refl))
            ]
          ]
        ]
      ]
    ]
  ]
