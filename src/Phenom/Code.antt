-- ===== src/Phenom/Code.antt =====
-- grib_phenom_translation/_gribcode.py: the identity of a phenomenon and its texts. A text is the
-- list of its characters' codes, in ASCII; the numbers of a code are natural. Creation from keyword
-- arguments is not modelled.
pub mod Decimal
pub mod RoundTrip
use gribbi.Base.{
  ℕ, zero, suc, ◌+◌, ◌-◌, ◌*◌, ◌/◌, ◌%◌, ◌^◌, ◌≤◌, ◌<◌, String, ◌≡◌, refl, sym, ap, ◌∙◌, subst, ◌≢◌,
  ◌↔◌, ◌⊎◌, inl, inr, Bool, true, false, not, ◌&&◌, ◌||◌, Option, none, some, List, [], ◌∷◌, ◌++◌,
  map, append-nil, append_assoc, arith, ltb, leb, ◌==◌, if◌then◌else◌, ltb→lt, lt→ltb, leb→le,
  ==_iff, Bool-cases, Option-cases, length, get_elem?, set, get_or, take, drop, replicate,
  length-append, length-set, get_elem?-set_self, get_elem?-set_ne, length-replicate, Eq, ◌===◌,
  contains, nat_eq, string_eq, option_eq, pair_eq, Error, translation_error, value_error, key_error,
  type_error, index_error, attribute_error, assertion_error, name_error, codes_error, Result, ok,
  err, Result-cases, ◌>>=◌, ◌>>◌, guard, is_ok, >>=-eq-ok, Returns, Returns-bind,
}

abbrev pub Text : Type 0
Text = List ℕ

-- GRIBCode1 and GRIBCode2.
pub data GribCode : Type 0 where
  grib_code1 : (table_version centre_number number : ℕ) → GribCode
  grib_code2 : (discipline category number : ℕ) → GribCode

abbrev pub is_digit : ℕ → Bool
is_digit c = leb 48 c && leb c 57

-- `[^\d]*`
pub skip_others : Text → Text
skip_others [] = []
skip_others (c ∷ cs) = let rest = skip_others cs in if is_digit c then c ∷ cs else rest

-- `(\d*)`: the group, and the text behind it.
pub span_digits : Text → Text × Text
span_digits [] = ([], [])
span_digits (c ∷ cs) =
    let rest = span_digits cs in if is_digit c then (c ∷ rest.0, rest.1) else ([], c ∷ cs)

-- `_RE_PARSE_FOURNUMS.match(...).groups()` for so many groups. Each repetition is greedy and none
-- has to give back, since all of them may be empty.
unfoldable pub match_groups : ℕ → Text → List Text
match_groups zero text = []
match_groups (suc n) text =
    (span_digits (skip_others text)).0 ∷ match_groups n (span_digits (skip_others text)).1

unfoldable pub value_from : ℕ → Text → ℕ
value_from value [] = value
value_from value (c ∷ cs) = value_from (value * 10 + (c - 48)) cs

-- `int(group)`
abbrev pub int_of : Text → Result ℕ
int_of [] = err value_error
int_of (c ∷ cs) = ok (value_from 0 (c ∷ cs))

unfoldable pub ints_of : List Text → Result (List ℕ)
ints_of [] = ok []
ints_of (group ∷ groups) = do n ← int_of group; rest ← ints_of groups; ok (n ∷ rest)

unfoldable pub fournums_from_gribcode_string : Text → Result (List ℕ)
fournums_from_gribcode_string text = ints_of (match_groups 4 text)

-- The class that the edition chooses, at three arguments.
abbrev pub instance_of : ℕ → List ℕ → Result GribCode
instance_of edition (a ∷ b ∷ c ∷ []) =
    ok (if edition == 1 then grib_code1 a b c else grib_code2 a b c)
instance_of edition args = err value_error

-- GRIBCode(edition, *args) with arguments behind the edition.
unfoldable pub gribcode : ℕ → List ℕ → Result GribCode
gribcode edition args = do
  guard (edition == 1 || edition == 2) value_error
  instance_of edition args

-- The edition and the rest, as GRIBCode passes them on.
abbrev pub of_numbers : List ℕ → Result GribCode
of_numbers [] = err value_error
of_numbers (edition ∷ args) = gribcode edition args

unfoldable pub gribcode_from_string : Text → Result GribCode
gribcode_from_string text = do nums ← fournums_from_gribcode_string text; of_numbers nums

-- `{:d}`, at fuel above the number.
unfoldable pub decimal_from : ℕ → ℕ → Text
decimal_from zero n = []
decimal_from (suc fuel) n =
    let rest = decimal_from fuel (n / 10) in
    if ltb n 10 then (48 + n) ∷ [] else rest ++ ((48 + n % 10) ∷ [])

unfoldable pub decimal : ℕ → Text
decimal n = decimal_from (suc n) n

-- `{:03d}`
unfoldable pub padded : ℕ → Text
padded n = replicate (3 - length (decimal n)) 48 ++ decimal n

-- The pieces of a formatted text.
abbrev pub join : List Text → Text
join [] = []
join (piece ∷ pieces) = piece ++ join pieces

-- "GRIB", ":t", ":d", "c" and "n".
abbrev pub labelled : ℕ → Text → ℕ → ℕ → ℕ → Text
labelled edition label a b c = join (
    (71 ∷ 82 ∷ 73 ∷ 66 ∷ [])
    ∷ decimal edition
    ∷ label
    ∷ padded a
    ∷ (99 ∷ [])
    ∷ padded b
    ∷ (110 ∷ [])
    ∷ padded c
    ∷ [])

-- `str(code)`: "GRIB1:t007c034n130", "GRIB2:d000c003n001"
unfoldable pub str : GribCode → Text
str (grib_code1 table_version centre_number number) =
    labelled 1 (58 ∷ 116 ∷ []) table_version centre_number number
str (grib_code2 discipline category number) = labelled 2 (58 ∷ 100 ∷ []) discipline category number

-- "GRIBCode(edition="
abbrev pub edition_text : Text
edition_text =
    71 ∷ 82 ∷ 73 ∷ 66 ∷ 67 ∷ 111 ∷ 100 ∷ 101 ∷ 40 ∷ 101 ∷ 100 ∷ 105 ∷ 116 ∷ 105 ∷ 111 ∷ 110 ∷ 61
    ∷ []

-- ", table_version="
abbrev pub table_version_text : Text
table_version_text =
    44 ∷ 32 ∷ 116 ∷ 97 ∷ 98 ∷ 108 ∷ 101 ∷ 95 ∷ 118 ∷ 101 ∷ 114 ∷ 115 ∷ 105 ∷ 111 ∷ 110 ∷ 61 ∷ []

-- ", centre_number="
abbrev pub centre_number_text : Text
centre_number_text =
    44 ∷ 32 ∷ 99 ∷ 101 ∷ 110 ∷ 116 ∷ 114 ∷ 101 ∷ 95 ∷ 110 ∷ 117 ∷ 109 ∷ 98 ∷ 101 ∷ 114 ∷ 61 ∷ []

-- ", discipline="
abbrev pub discipline_text : Text
discipline_text = 44 ∷ 32 ∷ 100 ∷ 105 ∷ 115 ∷ 99 ∷ 105 ∷ 112 ∷ 108 ∷ 105 ∷ 110 ∷ 101 ∷ 61 ∷ []

-- ", category="
abbrev pub category_text : Text
category_text = 44 ∷ 32 ∷ 99 ∷ 97 ∷ 116 ∷ 101 ∷ 103 ∷ 111 ∷ 114 ∷ 121 ∷ 61 ∷ []

-- ", number="
abbrev pub number_text : Text
number_text = 44 ∷ 32 ∷ 110 ∷ 117 ∷ 109 ∷ 98 ∷ 101 ∷ 114 ∷ 61 ∷ []

-- `repr(code)`: "GRIBCode(edition=2, discipline=0, category=3, number=1)"
unfoldable pub repr : GribCode → Text
repr (grib_code1 table_version centre_number number) = join (
    edition_text
    ∷ decimal 1
    ∷ table_version_text
    ∷ decimal table_version
    ∷ centre_number_text
    ∷ decimal centre_number
    ∷ number_text
    ∷ decimal number
    ∷ (41 ∷ [])
    ∷ [])
repr (grib_code2 discipline category number) = join (
    edition_text
    ∷ decimal 2
    ∷ discipline_text
    ∷ decimal discipline
    ∷ category_text
    ∷ decimal category
    ∷ number_text
    ∷ decimal number
    ∷ (41 ∷ [])
    ∷ [])
