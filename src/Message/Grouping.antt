-- ===== src/Message/Grouping.antt =====
-- _RawGribMessage._get_message_sections of message.py: the keys of a message grouped by section.
pub mod Order
use gribbi.Base.{
  ℕ, zero, suc, ◌+◌, ◌-◌, ◌*◌, ◌/◌, ◌%◌, ◌^◌, ◌≤◌, ◌<◌, String, ◌≡◌, refl, sym, ap, ◌∙◌, subst, ◌≢◌,
  ◌↔◌, ◌⊎◌, inl, inr, Bool, true, false, not, ◌&&◌, ◌||◌, Option, none, some, List, [], ◌∷◌, ◌++◌,
  map, append-nil, append_assoc, arith, ltb, leb, ◌==◌, if◌then◌else◌, ltb→lt, lt→ltb, leb→le,
  ==_iff, Bool-cases, Option-cases, length, get_elem?, set, get_or, take, drop, replicate,
  length-append, length-set, get_elem?-set_self, get_elem?-set_ne, length-replicate, Eq, ◌===◌,
  contains, nat_eq, string_eq, option_eq, pair_eq, Error, translation_error, value_error, key_error,
  type_error, index_error, attribute_error, assertion_error, codes_error, Result, ok, err, ◌>>=◌,
  ◌>>◌, guard, is_ok, >>=-eq-ok, Returns, Returns-bind,
}
use gribbi.Base.Int.{
  ℤ, pos, negsuc, pos_part, neg_part, sub_ℕ, ◌+ℤ◌, ◌-ℤ◌, ◌*ℤ◌, ltb_ℤ, beq_ℤ, beq_ℤ_iff, int_eq,
  bit_set,
}
use gribbi.Base.Dict.{
  Dict, keys, lookup, insert, lookup-insert, lookup-insert_self, AllValues, AllValues-lookup,
}
use gribbi.Value.{Value, missing, int, real, string, ints, reals, masked, is_nat}
use gribbi.Message.Section.{Section, new}
use Prim.Native.Char.{code}

-- The code points of a text.
abbrev codes_of : String → List ℕ
codes_of String.[] = []
codes_of (String.◌∷◌ c s) = code c ∷ codes_of s

-- What is left of a text behind a prefix.
abbrev strip_prefix : List ℕ → List ℕ → Option (List ℕ)
strip_prefix [] text = some text
strip_prefix (c ∷ cs) [] = none
strip_prefix (c ∷ cs) (d ∷ ds) = if c == d then strip_prefix cs ds else none

abbrev digit_then : List ℕ → List ℕ → Option ℕ
digit_then suffix [] = none
digit_then suffix (d ∷ ds) =
    if leb b'0' d && leb d b'9'
    then elim (strip_prefix suffix ds) [ none ↦ none | some _ ↦ some (d - b'0') ]
    else none

-- `re.match(r"section([0-9]{1})Length", key_name)`, which matches a prefix of the name, and
-- `int(key_match.group(1))`.
unfoldable pub new_section_key : String → Option ℕ
new_section_key name = elim (strip_prefix (codes_of "section") (codes_of name)) [
  | none ↦ none
  | some rest ↦ digit_then (codes_of "Length") rest
]

-- The number of the section that the key begins, if it begins one.
unfoldable pub marked_section : String → Option ℕ
unfolding new_section_key
marked_section key_name = elim (new_section_key key_name) [
  | some n ↦ some n
  | none ↦ if key_name === "7777" then some 8 else none
]

-- The local variables of the loop.
pub record Grouping (F : Type 0) : Type 0 where
  pub sections : Dict ℕ (Section F)
  pub current : ℕ
  pub new_section : ℕ
  pub section_keys : List String

module _ {F : Type 0} where
  abbrev pub start : Grouping F
  start = record { sections = []; current = 0; new_section = 0; section_keys = [] }

  abbrev pub close : Grouping F → Dict ℕ (Section F)
  close g = insert g.current (new g.current g.section_keys) g.sections

  -- `if section != new_section: ...`
  abbrev pub change_section : Grouping F → Grouping F
  change_section g =
      if g.current == g.new_section
      then g
      else record g { sections = close g; section_keys = []; current = g.new_section }

  -- One turn of the loop.
  unfoldable pub add_key : Grouping F → String → Grouping F
  add_key g key_name =
      let marked = record g {
        new_section = elim (marked_section key_name) [ some n ↦ n | none ↦ g.new_section ];
      } in
      let changed = change_section marked in
      record changed { section_keys = changed.section_keys ++ (key_name ∷ []) }

  unfoldable pub add_keys : Grouping F → List String → Grouping F
  add_keys g [] = g
  add_keys g (name ∷ names) = add_keys (add_key g name) names

  unfoldable pub get_message_sections : List String → Dict ℕ (Section F)
  unfolding add_keys add_key
  get_message_sections names = close (add_keys start names)
