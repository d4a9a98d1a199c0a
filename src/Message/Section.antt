-- ===== src/Message/Section.antt =====
-- class Section of message.py: dictionary-like access to the keys of a section, with a cache.
-- ecCodes is a parameter, at the handle of the section's message.
pub mod Cache
pub mod Alias
use gribbi.Base.{
  ℕ, String, Bool, true, false, Option, none, some, List, [], ◌∷◌, if◌then◌else◌, Result, ok, err,
  key_error, ◌>>=◌, ◌===◌, contains, string_eq,
}
use gribbi.Base.Int.{pos}
use gribbi.Base.Dict.{Dict, lookup, insert}
use gribbi.Value.{Value, missing, int}

-- The calls of ecCodes that read a key of the message: `codes_is_missing`, `codes_get` with and
-- without a type, `codes_get_array` with and without a type. Each may raise.
pub record Codes (F : Type 0) : Type 0 where
  pub is_missing : String → Result Bool
  pub get : String → Result (Value F)
  pub get_as_int : String → Result (Value F)
  pub get_array : String → Result (Value F)
  pub get_array_as_int : String → Result (Value F)

pub record Section (F : Type 0) : Type 0 where
  pub number : ℕ
  pub keys : List String
  pub cache : Dict String (Value F)

abbrev pub key_alias : Dict String String
key_alias =
    ("latitude", "latitudes")
    ∷ ("longitude", "longitudes")
    ∷ ("latitudes", "latitude")
    ∷ ("longitudes", "longitude")
    ∷ ("indicatorOfUnitForForecastTime", "indicatorOfUnitOfTimeRange")
    ∷ ("numberOfTimeRange", "numberOfTimeRanges")
    ∷ []

abbrev vector_keys : List String
vector_keys =
    "codedValues" ∷ "pv" ∷ "satelliteSeries" ∷ "satelliteNumber" ∷ "instrumentType"
    ∷ "scaleFactorOfCentralWaveNumber" ∷ "scaledValueOfCentralWaveNumber" ∷ "longitude" ∷ "latitude"
    ∷ "longitudes" ∷ "latitudes" ∷ []

abbrev computed_vector_keys : List String
computed_vector_keys = "longitudes" ∷ "latitudes" ∷ "distinctLatitudes" ∷ []

abbrev surface_keys : List String
surface_keys = "typeOfFirstFixedSurface" ∷ "typeOfSecondFixedSurface" ∷ []

-- `Section(message_id, number, keys)`
unfoldable pub new : {F : Type 0} → ℕ → List String → Section F
new number keys = record { number = number; keys = keys; cache = [] }

module _ {F : Type 0} (codes : Codes F) where
  pub get_value_or_missing : String → Bool → Result (Value F)
  get_value_or_missing key use_int = do
    gone ← codes.is_missing key
    if gone then ok missing else if use_int then codes.get_as_int key else codes.get key

  unfoldable pub get_key_value : String → Result (Value F)
  unfolding get_value_or_missing
  get_key_value key =
      if contains vector_keys key
      then codes.get_array key
      else if key === "bitmap"
      then codes.get_array_as_int key
      else if contains surface_keys key
      then get_value_or_missing key true
      else get_value_or_missing key false

  unfoldable pub get_computed_key : String → Result (Value F)
  unfolding get_value_or_missing
  get_computed_key key =
      if contains computed_vector_keys key
      then codes.get_array key
      else get_value_or_missing key false

  -- The body of `__getitem__` for a key that is not in the cache: the key under which the value
  -- is kept, which an alias replaces, and the value.
  pub fetch_alias : List String → Option String → Result (String × Value F)
  fetch_alias keys none = err key_error
  fetch_alias keys (some key2) =
      if contains keys key2
      then (do value ← get_key_value key2; ok (key2, value))
      else err key_error

  pub fetch : Section F → String → Result (String × Value F)
  unfolding fetch_alias
  fetch s key =
      if key === "numberOfSection"
      then ok (key, int (pos s.number))
      else if contains s.keys key
      then (do value ← get_key_value key; ok (key, value))
      else fetch_alias s.keys (lookup key key_alias)

  pub get_uncached : Section F → String → Result (Value F × Section F)
  unfolding fetch
  get_uncached s key = do
    (stored, value) ← fetch s key
    ok (value, record s { cache = insert stored value s.cache })

  -- `section[key]`: the value, and the section with its cache.
  unfoldable pub get_item : Section F → String → Result (Value F × Section F)
  unfolding get_uncached
  get_item s key = elim (lookup key s.cache) [
    | some value ↦ ok (value, s)
    | none ↦ get_uncached s key
  ]

-- `section[key] = value`
unfoldable pub set_item : {F : Type 0} → Section F → String → Value F → Result (Section F)
set_item s key value = elim (lookup key s.cache) [
  | some _ ↦ ok (record s { cache = insert key value s.cache })
  | none ↦ err key_error
]
