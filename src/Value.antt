-- ===== src/Value.antt =====
-- The Python objects that a key of a message can hold. Floats are a parameter: their type `F` and
-- the operations that the program applies to them.
use gribbi.Base.{
  ok, err, type_error, ◌||◌, ◌>>=◌, Result, [], ◌∷◌, ℕ, Bool, false, Option, List, ◌==◌, String,
}
use gribbi.Base.Int.{ℤ, pos}

pub data Value (F : Type 0) : Type 0 where
  -- `None`, a header element encoded as missing
  missing : Value F
  int : ℤ → Value F
  real : F → Value F
  string : String → Value F
  -- arrays; `none` is a missing or masked element
  ints : List (Option ℤ) → Value F
  reals : List (Option F) → Value F
  -- `numpy.ma.masked`
  masked : Value F

-- `value == n` at a natural number n: no other object is equal to it. (A float in a header
-- element that is compared so does not occur.)
abbrev pub is_nat : {F : Type 0} → Value F → ℕ → Bool
is_nat (int (pos m)) n = m == n
is_nat v n = false

-- `value in (n, ...)` at natural numbers.
abbrev pub is_one_of : {F : Type 0} → Value F → List ℕ → Bool
is_one_of v [] = false
is_one_of v (n ∷ ns) = is_nat v n || is_one_of v ns

-- An operand of integer arithmetic or of an order. Other objects than integers raise; a float in
-- such a header element does not occur.
abbrev pub as_int : {F : Type 0} → Value F → Result ℤ
as_int (int z) = ok z
as_int v = err type_error

-- What a section offers to the translations: `section[key]`, `key in section.keys()` and
-- `section.get_computed_key(key)`.
pub record Reader (F : Type 0) : Type 0 where
  pub get : String → Result (Value F)
  pub has_key : String → Bool
  pub get_computed_key : String → Result (Value F)

abbrev pub get_int : {F : Type 0} → Reader F → String → Result ℤ
get_int section key = section.get key >>= as_int
