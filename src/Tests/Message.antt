-- ===== src/Tests/Message.antt =====
-- A message of two sections.
use gribbi.Base.{
  ℕ, ◌%◌, String, ◌≡◌, refl, ap, ◌≢◌, Bool, true, false, none, some, List, [], ◌∷◌, arith, length,
  ◌===◌, nat_eq, string_eq, option_eq, pair_eq, ok,
}
use gribbi.Base.Int.{ℤ, pos, int_eq}
use gribbi.Base.Dict.{lookup, insert}
use gribbi.Value.{ints, reals}
use mathlib.Core.Bool.{false≢true}
use gribbi.Value.{Reader}
use gribbi.Message.Section.{Codes, Section, new, get_key_value, get_item, set_item}
use gribbi.Message.Section.Cache.{read_all, view_all, read_all-new}
use gribbi.Message.Section.Alias.{get_item-set_item, get_item-alias}
use gribbi.Message.Grouping.{get_message_sections, new_section_key, marked_section}
use gribbi.Message.Grouping.Order.{all_keys, AllBelow, get_message_sections-all_keys}
use gribbi.Message.Data.{apply_bitmap, unpack, count_set, is_reduced, data_shape}
use gribbi.Message.Data.Bitmap.{picked, apply_bitmap-picked}
use gribbi.Message.Data.Shape.{get_all, shape_keys, data_shape_supported}
use gribbi.Tests.{known, number}

-- What ecCodes holds: every key has the number 7.
abbrev codes : Codes ℤ
codes = record {
  is_missing = λ key. ok (key === "scaleFactorOfFirstFixedSurface");
  get = λ key. ok (number 7);
  get_as_int = λ key. ok (number 7);
  get_array = λ key. ok (reals (some (pos 7) ∷ []));
  get_array_as_int = λ key. ok (ints (some (pos 1) ∷ []));
}

abbrev wanted : List String
wanted = "latitude" ∷ "latitudes" ∷ "numberOfSection" ∷ "latitude" ∷ "Ni" ∷ []

read_all-new_example :
    read_all codes (new 3 ("latitudes" ∷ "Ni" ∷ [])) wanted
    ≡ view_all codes (new 3 ("latitudes" ∷ "Ni" ∷ [])) wanted
read_all-new_example = read_all-new codes 3 ("latitudes" ∷ "Ni" ∷ []) wanted

abbrev names : List String
names = "totalLength" ∷ "section1Length" ∷ "centre" ∷ "year" ∷ "section3Length" ∷ "Ni" ∷ "7777" ∷ []

get_message_sections-all_keys_example :
    (all_keys (get_message_sections {F = ℤ} names) ≡ names)
    × ((n : ℕ) × AllBelow n (get_message_sections {F = ℤ} names))
unfolding marked_section new_section_key
get_message_sections-all_keys_example =
    get_message_sections-all_keys ℤ names (omega arith, (omega arith, (omega arith, tt)))

abbrev cached : Section ℤ
cached = record {
  number = 3;
  keys = "latitudes" ∷ "Ni" ∷ [];
  cache = ("Ni", number 7) ∷ ("latitudes", number 7) ∷ [];
}

abbrev written : Section ℤ
written = record cached { cache = ("Ni", number 7) ∷ ("latitudes", number 9) ∷ [] }

get_item-set_item_example :
    (lookup "latitudes" cached.cache ≢ none)
    × (get_item codes written "latitudes" ≡ ok (number 9, written))
    × ((j : String) → j ≢ "latitudes" → lookup j written.cache ≡ lookup j cached.cache)
    × (written.keys ≡ cached.keys)
    × (written.number ≡ cached.number)
unfolding set_item lookup insert
get_item-set_item_example = get_item-set_item codes cached written "latitudes" (number 9) refl

get_item-alias_example :
    (u : Section ℤ) × (get_item codes written "latitude" ≡ ok (reals (some (pos 7) ∷ []), u))
    × (get_item codes u "latitudes" ≡ ok (reals (some (pos 7) ∷ []), u))
unfolding set_item lookup insert get_key_value
get_item-alias_example =
    get_item-alias codes cached written "latitude" "latitudes" (number 9)
      (reals (some (pos 7) ∷ [])) refl refl refl refl refl refl
      (λ e. false≢true (ap (λ s. s === "latitudes") e)) refl

apply_bitmap-picked_example :
    (count_set (true ∷ false ∷ true ∷ []) ≡ 2)
    × (length (some (pos 5) ∷ none ∷ some (pos 8) ∷ []) ≡ 3)
    × (picked true (true ∷ false ∷ true ∷ []) (some (pos 5) ∷ none ∷ some (pos 8) ∷ [])
        ≡ some (pos 5) ∷ some (pos 8) ∷ [])
    × (picked false (true ∷ false ∷ true ∷ []) (some (pos 5) ∷ none ∷ some (pos 8) ∷ [])
        ≡ none ∷ [])
unfolding apply_bitmap unpack
apply_bitmap-picked_example =
    apply_bitmap-picked (true ∷ false ∷ true ∷ []) (some (pos 5) ∷ some (pos 8) ∷ [])
      (some (pos 5) ∷ none ∷ some (pos 8) ∷ []) refl

abbrev template : ℕ
template = 0

abbrev scanning : ℕ
scanning = 64

abbrev grid : Reader ℤ
grid = known (
    ("gridDefinitionTemplateNumber", number 0)
    ∷ ("scanningMode", number 64)
    ∷ ("Ni", number 3)
    ∷ ("Nj", number 2)
    ∷ ("sourceOfGridDefinition", number 0)
    ∷ ("numberOfOctectsForNumberOfPoints", number 0)
    ∷ ("interpretationOfNumberOfPoints", number 0)
    ∷ [])

data_shape_supported_example :
    (reduced : Bool) × (is_reduced grid ≡ ok reduced)
    × (reduced ≡ true → template ≡ 40)
    × (get_all grid (shape_keys template reduced) ≡ ok (number 2 ∷ number 3 ∷ []))
    × (template ≢ 4)
    × (scanning % 64 ≡ 0)
unfolding data_shape is_reduced lookup
data_shape_supported_example =
    data_shape_supported grid template scanning (number 2 ∷ number 3 ∷ []) refl refl refl
