-- ===== src/Save/Data/Masked.antt =====
-- `data_section` of a masked array.
use gribbi.Base.{
  String, ◌≡◌, Option, none, some, List, [], ◌∷◌, map, nat_eq, string_eq, option_eq, pair_eq,
  Result, ok,
}
use gribbi.Base.Int.{pos, int_eq}
use gribbi.Base.Dict.{Dict, lookup}
use gribbi.Value.{int, real, reals}
use gribbi.Externals.{Externals}
use gribbi.Save.Shape.{Keys}
use gribbi.Save.Cube.{Cube, Encoding}
use gribbi.Save.Data.{ArrayType}

module _ {F : Type 0} (x : Externals F) where
  -- A value in the units of the message.
  abbrev pub moved : Option String → String → F → Result F
  moved none units a = ok a
  moved (some target) units a = x.convert units a target

  -- Each element is converted, and the fill value stands for a masked one.
  abbrev pub Written : Option String → String → F → List (Option F) → List F → Type 0
  Written target units fill [] [] = Unit {0}
  Written target units fill (none ∷ rest) (v ∷ values) =
      (v ≡ fill) × Written target units fill rest values
  Written target units fill (some a ∷ rest) (v ∷ values) =
      (moved target units a ≡ ok v) × Written target units fill rest values
  Written target units fill [] (v ∷ values) = ⊥
  Written target units fill (a ∷ rest) [] = ⊥

module _ {F : Type 0} (x : Externals F) (e : Encoding F) (m : ArrayType F) where
  -- A message with a missing value, which stands for the masked elements.
  pub record Masks (target : Option String) (units : String) (fill : F) (items : List (Option F))
      (written : Keys F) : Type 0 where
    pub missing_value : F
    pub values : List F
    pub moved_fill : moved x target units fill ≡ ok missing_value
    pub elements : Written x target units missing_value items values
    pub bitmap_present : lookup "bitmapPresent" written ≡ some (int (pos 1))
    pub missing : lookup "missingValue" written ≡ some (real missing_value)
    pub stored : lookup "values" written ≡ some (reals (map some values))

  -- The fill value and the elements in the units of the message.
  abbrev Scaled : Option String → String → F → List (Option F) → Option F × List F → Type 0
  Scaled target units fill items (missing_value, values) =
      (v : F) × (missing_value ≡ some v)
      × (moved x target units fill ≡ ok v)
      × Written x target units v items values
