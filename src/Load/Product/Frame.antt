-- ===== src/Load/Product/Frame.antt =====
-- What the product templates leave alone in the metadata.
use gribbi.Base.Steps.{either, skip}
use gribbi.Base.{
  String, Bool, true, false, List, [], ◌∷◌, ◌++◌, if◌then◌else◌, nat_eq, string_eq, option_eq,
  pair_eq, value_error, Result, ok, err, ◌>>=◌, Returns,
}
use gribbi.Base.Int.{ℤ, int_eq}
use gribbi.Base.Dict.{insert}
use gribbi.Value.{Value}
use gribbi.Value.{Reader}
use gribbi.Externals.{Externals}
use gribbi.Metadata.{Coord, CellMethod, Metadata, Attribute, add_aux}
use gribbi.Load.Vertical.{
  sigma_coord, level_value_coord, level_number_coord, hybrid_factory, vertical_coords,
  hybrid_factories, add_hybrid, surface, layer, level,
}
use gribbi.Load.Time.{time_coords}
use gribbi.Load.Product.Grows.{Grows, Grows-add_aux, Grows-factory, Grows-free}
use gribbi.Load.Product.{
  product_definition_template_0, satellite_common, product_definition_template_8, set_attribute,
}

module _ {F : Type 0} where
  -- A step that grows the metadata, and what follows it.
  pub further :
      {m : Metadata F} (r : Result (Metadata F)) (f : Metadata F → Result (Metadata F))
      → Returns (Grows m) r
      → ((a : Metadata F) → Grows m a → Returns (Grows m) (f a))
      → Returns (Grows m) (r >>= f)
  further (ok a) f h k = k a h
  further (err e) f h k = tt

  pub dropped :
      (m m' : Metadata F) (cell_methods : List (CellMethod F))
      → Grows m m'
      → Returns (Grows m) (elim cell_methods [
        | [] ↦ err value_error
        | c ∷ rest ↦ elim rest [
          | [] ↦ ok (record m' { cell_methods = [] })
          | d ∷ more ↦ err value_error
        ]
      ])
  dropped m m' [] g = tt
  dropped m m' (c ∷ []) g = Grows-free m m' m'.attributes [] g
  dropped m m' (c ∷ d ∷ more) g = tt

  add_hybrid-Grows :
      (section : Reader F) (nv : ℤ) (height : Bool) (m m' : Metadata F)
      → Grows m m'
      → Returns (Grows m) (add_hybrid section nv height m')
  unfolding add_hybrid
  add_hybrid-Grows section nv height m m' g = search (skip, grown) depth 9
    where
      grown :
          (level delta sigma : Value F)
          → Grows m
              (record (add_aux (sigma_coord sigma) (
                add_aux (level_value_coord height delta) (add_aux (level_number_coord level) m'))) {
                  factories = m'.factories ++ (hybrid_factory height ∷ []);
                })
      grown level delta sigma = Grows-add_aux m _ (sigma_coord sigma) (
          Grows-add_aux m _ (level_value_coord height delta) (
            Grows-add_aux m _ (level_number_coord level)
              (Grows-factory m m' (hybrid_factory height) g)))

  hybrid_factories-Grows :
      (section : Reader F) (nv : ℤ) (m m' : Metadata F)
      → Grows m m'
      → Returns (Grows m) (hybrid_factories section nv m')
  unfolding hybrid_factories
  hybrid_factories-Grows section nv m m' g = search (skip, add_hybrid-Grows) depth 9

  -- Setting an attribute.
  pub attributed :
      (m m' : Metadata F) (key : String) (value : Attribute F)
      → Grows m m'
      → Grows m (set_attribute key value m')
  attributed m m' key value g = Grows-free m m' (insert key value m'.attributes) m'.cell_methods g

module _ {F : Type 0} (x : Externals F) where
  surface-Grows :
      (section : Reader F) (type : Value F) (m m' : Metadata F)
      → Grows m m'
      → Returns (Grows m) (surface x section type m')
  unfolding surface layer level
  surface-Grows section type m m' g = search (skip, either, Grows-add_aux) depth 14

  pub vertical_coords-Grows :
      (section : Reader F) (m m' : Metadata F)
      → Grows m m'
      → Returns (Grows m) (vertical_coords x section m')
  unfolding vertical_coords
  vertical_coords-Grows section m m' g =
      search (skip, either, hybrid_factories-Grows, surface-Grows)

  pub time_coords-Grows :
      (section : Reader F) (rt_coord : Coord F) (m m' : Metadata F)
      → Grows m m'
      → Returns (Grows m) (time_coords x section rt_coord m')
  unfolding time_coords
  time_coords-Grows section rt_coord m m' g = search (skip, Grows-add_aux) depth 9

  pub product_definition_template_0-Grows :
      (section : Reader F) (rt_coord : Coord F) (m m' : Metadata F)
      → Grows m m'
      → Returns (Grows m) (product_definition_template_0 x section rt_coord m')
  unfolding product_definition_template_0
  product_definition_template_0-Grows section rt_coord m m' g =
      search (skip, further, time_coords-Grows, vertical_coords-Grows) depth 9

  pub product_definition_template_8-Grows :
      (section : Reader F) (frt_coord : Coord F) (m m' : Metadata F)
      → Grows m m'
      → Returns (Grows m) (product_definition_template_8 x section frt_coord m')
  unfolding product_definition_template_8
  product_definition_template_8-Grows section frt_coord m m' g =
      search (skip, referred, vertical_coords-Grows) depth 12
    where
      referred :
          (is_time : Bool) (cell_methods : List (CellMethod F)) (fp_coord t_coord : Coord F)
          → Grows m (
              add_aux t_coord (
                add_aux fp_coord (
                  if is_time
                  then record m' { cell_methods = cell_methods }
                  else add_aux frt_coord (record m' { cell_methods = cell_methods }))))
      referred true cell_methods fp_coord t_coord =
          Grows-add_aux m _ t_coord
            (Grows-add_aux m _ fp_coord (Grows-free m m' m'.attributes cell_methods g))
      referred false cell_methods fp_coord t_coord = Grows-add_aux m _ t_coord (
          Grows-add_aux m _ fp_coord
            (Grows-add_aux m _ frt_coord (Grows-free m m' m'.attributes cell_methods g)))

  pub satellite_common-Grows :
      (section : Reader F) (m m' : Metadata F)
      → Grows m m'
      → Returns (Grows m) (satellite_common x section m')
  unfolding satellite_common
  satellite_common-Grows section m m' g = search (skip, either, Grows-add_aux) depth 16
