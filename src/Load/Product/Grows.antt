-- ===== src/Load/Product/Grows.antt =====
-- The product templates only add to the metadata: what was translated before stays.
use gribbi.Base.{
  ℕ, String, ◌≡◌, refl, sym, Option, none, List, [], ◌∷◌, ◌++◌, map, append-nil, append_assoc,
  nat_eq, string_eq, option_eq, pair_eq,
}
use gribbi.Base.Int.{int_eq}
use gribbi.Base.Dict.{Dict}
use gribbi.Metadata.{Coord, CellMethod, Factory, Metadata, Attribute, add_aux}

module _ {F : Type 0} where
  -- What a product template may change: it appends auxiliary coordinates without a dimension and
  -- factories, and may set attributes and cell methods. All else stays.
  pub record Grows (m m' : Metadata F) : Type 0 where
    pub aux :
        (added : List (Coord F)) × (m'.aux_coords_and_dims
          ≡ m.aux_coords_and_dims ++ map (λ c. (c, none)) added)
    pub factories_added : (added : List Factory) × (m'.factories ≡ m.factories ++ added)
    pub dim_coords : m'.dim_coords_and_dims ≡ m.dim_coords_and_dims
    pub references_kept : m'.references ≡ m.references
    pub names :
        (m'.standard_name ≡ m.standard_name) × (m'.long_name ≡ m.long_name) × (m'.units ≡ m.units)

  pub Grows-refl : (m : Metadata F) → Grows m m
  Grows-refl m = record {
    aux = ([], sym (append-nil _));
    factories_added = ([], sym (append-nil _));
    dim_coords = refl;
    references_kept = refl;
    names = (refl, refl, refl);
  }

  append_one :
      (before now : List (Coord F × Option ℕ)) (added : List (Coord F)) (coord : Coord F)
      → now ≡ before ++ map (λ c. (c, none)) added
      → now ++ ((coord, none) ∷ []) ≡ before ++ map (λ c. (c, none)) (added ++ (coord ∷ []))
  append_one before now added coord h =
      rw (h, map_append_one added, append_assoc before (map (λ c. (c, none)) added) _) refl
    where
      map_append_one :
          (cs : List (Coord F))
          → map {B = Coord F × Option ℕ} (λ c. (c, none)) (cs ++ (coord ∷ []))
            ≡ map (λ c. (c, none)) cs ++ ((coord, none) ∷ [])
      map_append_one [] = refl
      map_append_one (c ∷ cs) = rw (map_append_one cs)

  pub Grows-add_aux :
      (m m' : Metadata F) (coord : Coord F) → Grows m m' → Grows m (add_aux coord m')
  Grows-add_aux m m' coord g = record {
    aux = (
      g.aux.0 ++ (coord ∷ []),
      append_one m.aux_coords_and_dims m'.aux_coords_and_dims g.aux.0 coord g.aux.1,
    );
    factories_added = g.factories_added;
    dim_coords = g.dim_coords;
    references_kept = g.references_kept;
    names = g.names;
  }

  pub Grows-factory :
      (m m' : Metadata F) (f : Factory)
      → Grows m m'
      → Grows m (record m' { factories = m'.factories ++ (f ∷ []) })
  Grows-factory m m' f g = record {
    aux = g.aux;
    factories_added = (
      g.factories_added.0 ++ (f ∷ []),
      rw (g.factories_added.1, append_assoc m.factories g.factories_added.0 (f ∷ [])) refl,
    );
    dim_coords = g.dim_coords;
    references_kept = g.references_kept;
    names = g.names;
  }

  -- Attributes and cell methods are free.
  pub Grows-free :
      (m m' : Metadata F) (attributes : Dict String (Attribute F))
      (cell_methods : List (CellMethod F))
      → Grows m m'
      → Grows m (record m' { attributes = attributes; cell_methods = cell_methods })
  Grows-free m m' attributes cell_methods g = record {
    aux = g.aux;
    factories_added = g.factories_added;
    dim_coords = g.dim_coords;
    references_kept = g.references_kept;
    names = g.names;
  }
