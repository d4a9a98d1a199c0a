-- ===== src/Load/Grib1/Layout.antt =====
-- How the coordinates of a translated GRIB1 message lie on the dimensions of its data.
use gribbi.Base.{
  ℕ, String, Bool, true, false, Option, none, some, List, map, ◌==◌, if◌then◌else◌, ◌===◌, nat_eq,
  string_eq, option_eq, pair_eq, ok, Returns,
}
use gribbi.Base.Int.{pos, int_eq}
use gribbi.Value.{int}
use gribbi.Base.Steps.{either, kept, skip}
use gribbi.Externals.{Externals}
use gribbi.Metadata.{Metadata, add_aux}
use gribbi.Phenom.{Grib1CfData}
use gribbi.Load.Grib1.{
  GribWrapper, default_name, cf_name, name_parameter, add_surface, add_model_level, add_vertical,
  add_centre, add_times, add_bounded_time_coords, when_indicator, add_statistics, grib1_convert,
  set_height_of, index, height_coord, sigma_coord, level_value_coord, model_level_coord,
}
use gribbi.Load.Grib1.Axes.{Layout1, Layout1-add_aux, add_horizontal-Layout1}

module _ {F : Type 0} where
  chosen :
      (grib : GribWrapper F) (b : Bool) (m n : Metadata F)
      → Layout1 grib m
      → Layout1 grib n
      → Layout1 grib (if b then m else n)
  chosen grib true m n h k = h
  chosen grib false m n h k = k

  default_name-Layout1 :
      (indicator : ℕ) (name units : String) (grib : GribWrapper F) (m : Metadata F)
      → Layout1 grib m
      → Layout1 grib (default_name indicator name units grib m)
  unfolding default_name
  default_name-Layout1 indicator name units grib m h = chosen grib _ _ m h h

  cf_name-Layout1 :
      (grib : GribWrapper F) (cf : Option Grib1CfData) (m : Metadata F)
      → Layout1 grib m
      → Layout1 grib (cf_name cf m)
  unfolding cf_name
  cf_name-Layout1 grib none m h = h
  cf_name-Layout1 grib (some cf) m h = h

  name_parameter-Layout1 :
      (grib : GribWrapper F) (m : Metadata F)
      → Layout1 grib m
      → Layout1 grib (name_parameter grib m)
  unfolding name_parameter
  name_parameter-Layout1 grib m h = chosen grib _ _ _ named named
    where
      named : Layout1 grib (
          cf_name grib.cf_data (
            default_name 34 "y_wind" "m s-1" grib (
              default_name 33 "x_wind" "m s-1" grib
                (default_name 11 "air_temperature" "kelvin" grib m))))
      named = search (cf_name-Layout1, default_name-Layout1) depth 8

  add_surface-Layout1 :
      (grib : GribWrapper F) (m : Metadata F) → Layout1 grib m → Layout1 grib (add_surface grib m)
  unfolding add_surface
  add_surface-Layout1 grib m h =
      elim (set_height_of grib.cf_data)
        as (λ height. Layout1 grib (elim height [
          | none ↦
              if grib.type_of_level === "heightAboveGround"
              then add_aux (height_coord (int grib.level)) m
              else m
          | some n ↦ add_aux (height_coord (int (pos n))) m
        ])) [
          | none ↦ chosen grib _ _ m (Layout1-add_aux grib _ m h) h
          | some n ↦ Layout1-add_aux grib _ m h
        ]

  add_model_level-Layout1 :
      (grib : GribWrapper F) (pv : List F) (m : Metadata F)
      → Layout1 grib m
      → Returns (Layout1 grib) (add_model_level grib pv m)
  unfolding add_model_level
  add_model_level-Layout1 grib pv m h =
      skip (Layout1 grib) (index (map some pv) grib.level) _ (λ pressure.
        skip (Layout1 grib) (index (map some pv) _) _ (λ sigma.
          Layout1-add_aux grib (sigma_coord sigma)
            (add_aux (level_value_coord false pressure)
              (add_aux (model_level_coord (int grib.level)) m))
            (Layout1-add_aux grib (level_value_coord false pressure)
              (add_aux (model_level_coord (int grib.level)) m)
              (Layout1-add_aux grib (model_level_coord (int grib.level)) m h))))

  add_vertical-Layout1 :
      (grib : GribWrapper F) (m : Metadata F)
      → Layout1 grib m
      → Returns (Layout1 grib) (add_vertical grib m)
  unfolding add_vertical
  add_vertical-Layout1 grib m h =
      either (Layout1 grib) (grib.level_type === "pl") _ _ (Layout1-add_aux grib _ m h) (
        either (Layout1 grib) (grib.level_type === "sfc") _ _ (add_surface-Layout1 grib m h)
          (either (Layout1 grib) (grib.level_type === "ml") _ _ (levelled grib.pv) h))
    where
      levelled :
          (pv : Option (List F))
          → Returns
              (Layout1 grib)
              (elim pv [ none ↦ ok m | some values ↦ add_model_level grib values m ])
      levelled none = h
      levelled (some values) = add_model_level-Layout1 grib values m h

  add_centre-Layout1 :
      (grib : GribWrapper F) (m : Metadata F) → Layout1 grib m → Layout1 grib (add_centre grib m)
  unfolding add_centre
  add_centre-Layout1 grib m h = chosen grib _ m _ h (Layout1-add_aux grib _ m h)

module _ {F : Type 0} (x : Externals F) where
  add_times-Layout1 :
      (grib : GribWrapper F) (m : Metadata F)
      → Layout1 grib m
      → Returns (Layout1 grib) (add_times x grib m)
  unfolding add_times
  add_times-Layout1 grib m h = search (skip, either, Layout1-add_aux) depth 12

  add_bounded_time_coords-Layout1 :
      (grib : GribWrapper F) (m : Metadata F)
      → Layout1 grib m
      → Returns (Layout1 grib) (add_bounded_time_coords x grib m)
  unfolding add_bounded_time_coords
  add_bounded_time_coords-Layout1 grib m h = search (skip, Layout1-add_aux) depth 12

  when_indicator-Layout1 :
      (n : ℕ) (method : String) (grib : GribWrapper F) (m : Metadata F)
      → Layout1 grib m
      → Returns (Layout1 grib) (when_indicator x n method grib m)
  unfolding when_indicator
  when_indicator-Layout1 n method grib m h =
      either (Layout1 grib) (grib.time_range_indicator == n) _ _
        (kept (Layout1 grib) (add_bounded_time_coords x grib m) _
          (add_bounded_time_coords-Layout1 grib m h) (λ bounded k. k))
        h

  add_statistics-Layout1 :
      (grib : GribWrapper F) (m : Metadata F)
      → Layout1 grib m
      → Returns (Layout1 grib) (add_statistics x grib m)
  unfolding add_statistics
  add_statistics-Layout1 grib m h =
      search (kept, either, add_bounded_time_coords-Layout1, when_indicator-Layout1) depth 40

  -- Where a GRIB1 message is translated, the type of its grid says how its coordinates lie. Of a
  -- regular_ll, rotated_ll or regular_gg grid, y and x in degrees have the two dimensions, in the
  -- order that jPointsAreConsecutive gives; of a polar_stereographic or lambert grid, y and x in
  -- metres have the dimensions 0 and 1; of a reduced_gg grid, y and x in degrees both have the one
  -- dimension; of another type, no coordinate has a dimension. The axes have the points, the names
  -- and the coordinate system of the message, and no other coordinate has a dimension.
  pub grib1_convert-Layout1 : (grib : GribWrapper F) → Returns (Layout1 grib) (grib1_convert x grib)
  unfolding grib1_convert
  grib1_convert-Layout1 grib =
      search
        (
          skip, kept, add_times-Layout1, name_parameter-Layout1, add_statistics-Layout1,
          add_vertical-Layout1, add_centre-Layout1, add_horizontal-Layout1,
        )
        depth 20
