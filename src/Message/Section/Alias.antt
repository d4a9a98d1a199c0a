-- ===== src/Message/Section/Alias.antt =====
-- Writes to a section, and what a read through an alias does to them.
use gribbi.Base.{
  String, ◌≡◌, refl, ◌≢◌, inl, inr, true, false, none, some, arith, Option-cases, ◌===◌, contains,
  nat_eq, string_eq, option_eq, pair_eq, ok,
}
use gribbi.Base.Int.{int_eq}
use gribbi.Base.Dict.{lookup, insert, lookup-insert, lookup-insert_self}
use gribbi.Value.{Value}
use gribbi.Message.Section.{
  Codes, Section, key_alias, get_key_value, fetch, fetch_alias, get_uncached, get_item, set_item,
  String, ◌===◌, lookup,
}
use text.Mathlib.TextEquality.{eq_iff}

module _ {F : Type 0} (codes : Codes F) where
  set_item-eq-ok :
      (s t : Section F) (key : String) (value : Value F)
      → set_item s key value ≡ ok t
      → (old : Value F) × (lookup key s.cache ≡ some old)
        × (t ≡ record s { cache = insert key value s.cache })
  unfolding set_item
  set_item-eq-ok s t key value done = elim (Option-cases (lookup key s.cache)) [
    | inl uncached ↦ absurd (ground (arith))
    | inr (old, cached) ↦ (old, cached, ground arith)
  ]

  -- Where a write to a section succeeds, the key was in the cache, a read of it gives the value
  -- written and changes nothing, and the other cached values, the keys and the number are kept.
  pub get_item-set_item :
      (s t : Section F) (key : String) (value : Value F)
      → set_item s key value ≡ ok t
      → (lookup key s.cache ≢ none)
        × (get_item codes t key ≡ ok (value, t))
        × ((j : String) → j ≢ key → lookup j t.cache ≡ lookup j s.cache)
        × (t.keys ≡ s.keys)
        × (t.number ≡ s.number)
  unfolding get_item set_item
  get_item-set_item s t key value done =
      let (old, cached, e) = set_item-eq-ok s t key value done in
      rw e (
        λ absent. ground arith,
        ground (arith, lookup-insert_self key value s.cache),
        λ j differs. ground (arith, lookup-insert j key value s.cache, eq_iff key j),
        refl,
        refl,
      )

  -- A value is written under key2, which the message holds. A read under a key that is an alias
  -- of key2, is not cached and is no key of the message, then gives the message's value and not
  -- the one written, and so does a later read under key2.
  pub get_item-alias :
      (s t : Section F) (key key2 : String) (written held : Value F)
      → (key === "numberOfSection") ≡ false
      → lookup key s.cache ≡ none
      → contains s.keys key ≡ false
      → lookup key key_alias ≡ some key2
      → contains s.keys key2 ≡ true
      → get_key_value codes key2 ≡ ok held
      → key ≢ key2
      → set_item s key2 written ≡ ok t
      → (u : Section F) × (get_item codes t key ≡ ok (held, u))
        × (get_item codes u key2 ≡ ok (held, u))
  unfolding get_item get_uncached fetch fetch_alias
  get_item-alias s t key key2 written held other uncached absent known here value distinct done =
      let (old, cached, e) = set_item-eq-ok s t key2 written done in
      let u : Section F = record t { cache = insert key2 held t.cache } in
      let facts = lookup-insert key key2 written s.cache in
      (
        u,
        rw e (ground (arith, facts, eq_iff key2 key)),
        ground (arith, lookup-insert_self key2 held t.cache),
      )
