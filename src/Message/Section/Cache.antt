-- ===== src/Message/Section/Cache.antt =====
-- The cache of a section is transparent: reads, in any order, give what the message holds.
use text.Mathlib.TextEquality.{eq_iff}
use gribbi.Base.{
  String, ◌≡◌, refl, false, some, List, [], ◌∷◌, arith, Bool-cases, Option-cases, inl, inr, Result,
  ok, err, ◌>>=◌, ◌===◌, string_eq, contains, ℕ,
}
use gribbi.Base.Dict.{lookup, insert, lookup-insert, AllValues-lookup}
use gribbi.Value.{Value, Reader}
use gribbi.Message.Section.{
  Codes, Section, key_alias, fetch, get_uncached, get_item, new, get_computed_key,
}

not_number :
    (key key2 : String) → lookup key key_alias ≡ some key2 → (key2 === "numberOfSection") ≡ false
not_number key key2 h =
    AllValues-lookup (λ k. (k === "numberOfSection") ≡ false) key key_alias
      (refl, (refl, (refl, (refl, (refl, (refl, tt)))))) h

module _ {F : Type 0} (codes : Codes F) where
  -- What the message holds under a key, with no cache.
  pub view : Section F → String → Result (Value F)
  view s key = do (_, value) ← fetch codes s key; ok value

  -- What is cached is what the message holds.
  pub record IsCoherent (s : Section F) : Type 0 where
    pub at :
        (key : String) (value : Value F) → lookup key s.cache ≡ some value → view s key ≡ ok value

  -- What a read answers: the value that the message holds with a coherent section whose keys and
  -- number are the same, or the exception of the message's read.
  abbrev Reads : Section F → String → Result (Value F × Section F) → Type 0
  Reads s key (ok (value, t)) =
      (view s key ≡ ok value) × IsCoherent t × (t.keys ≡ s.keys) × (t.number ≡ s.number)
  Reads s key (err e) = view s key ≡ err e

  fetch_stored_alias :
      (s : Section F) (key stored : String) (value : Value F)
      → (key === "numberOfSection") ≡ false
      → contains s.keys key ≡ false
      → fetch codes s key ≡ ok (stored, value)
      → fetch codes s stored ≡ ok (stored, value)
  unfolding fetch
  fetch_stored_alias s key stored value other gone h = elim (Option-cases (lookup key key_alias)) [
    | inl unknown ↦ ground arith
    | inr (key2, known) ↦ ground (arith, not_number key key2 known)
  ]

  -- A read of one key: the value and the key under which it is kept.
  fetch_stored :
      (s : Section F) (key stored : String) (value : Value F)
      → fetch codes s key ≡ ok (stored, value)
      → fetch codes s stored ≡ ok (stored, value)
  unfolding fetch
  fetch_stored s key stored value h = elim (Bool-cases (key === "numberOfSection")) [
    | inl numbered ↦ ground arith
    | inr other ↦ elim (Bool-cases (contains s.keys key)) [
      | inl here ↦ ground arith
      | inr gone ↦ fetch_stored_alias s key stored value other gone h
    ]
  ]

  -- Storing what was read keeps the cache coherent.
  insert-IsCoherent :
      (s : Section F) (key stored : String) (value : Value F)
      → IsCoherent s
      → fetch codes s key ≡ ok (stored, value)
      → IsCoherent (record s { cache = insert stored value s.cache })
  unfolding view fetch
  insert-IsCoherent s key stored value c h = record {
    at = λ j w p. ground (
      arith,
      lookup-insert j stored value s.cache,
      eq_iff stored j,
      fetch_stored s key stored value h,
      c.at j w,
    );
  }

  get_uncached-Reads :
      (s : Section F) (key : String)
      → IsCoherent s
      → (r : Result (String × Value F)) → fetch codes s key ≡ r
      → Reads s key (get_uncached codes s key)
  unfolding get_uncached view
  get_uncached-Reads s key c (ok (stored, value)) h =
      rw h (rw h, insert-IsCoherent s key stored value c h, refl, refl)
  get_uncached-Reads s key c (err e) h = rw h (rw h)

  -- `section[key]` is what the message holds, and leaves a coherent cache.
  get_item-Reads :
      (s : Section F) (key : String) → IsCoherent s → Reads s key (get_item codes s key)
  unfolding get_item view
  get_item-Reads s key c = elim (Option-cases (lookup key s.cache)) [
    | inl absent ↦ rw (absent, get_item) (get_uncached-Reads s key c (fetch codes s key) refl)
    | inr (value, cached) ↦ rw (cached, get_item) (c.at key value cached, c, refl, refl)
  ]

  IsCoherent-new : (number : ℕ) (names : List String) → IsCoherent (new number names)
  unfolding new lookup
  IsCoherent-new number names = record { at = λ key value h. cc }

  -- Reads one after the other, as a client makes them.
  pub read_all : Section F → List String → Result (List (Value F))
  read_all s [] = ok []
  read_all s (key ∷ rest) = do
    (value, t) ← get_item codes s key
    values ← read_all t rest
    ok (value ∷ values)

  -- What the message holds under those keys.
  pub view_all : Section F → List String → Result (List (Value F))
  view_all s [] = ok []
  view_all s (key ∷ rest) = do value ← view s key; values ← view_all s rest; ok (value ∷ values)

  view_all_same :
      (s t : Section F) (names : List String)
      → t.keys ≡ s.keys
      → t.number ≡ s.number
      → view_all t names ≡ view_all s names
  unfolding view_all view fetch
  view_all_same s t [] p q = refl
  view_all_same s t (key ∷ rest) p q = rw (p, q, view_all_same s t rest p q)

  read_all-eq-view_all :
      (s : Section F) (names : List String) → IsCoherent s → read_all s names ≡ view_all s names
  unfolding read_all view_all
  read_all-eq-view_all s [] c = refl
  read_all-eq-view_all s (key ∷ rest) c =
      read_one (λ t d. read_all-eq-view_all t rest d) (get_item codes s key)
        (get_item-Reads s key c)
    where
      read_one :
          ((t : Section F) → IsCoherent t → read_all t rest ≡ view_all t rest)
          → (r : Result (Value F × Section F)) → Reads s key r
          → (do (value, t) ← r; values ← read_all t rest; ok (value ∷ values))
            ≡ (do value ← view s key; values ← view_all s rest; ok (value ∷ values))
      read_one later (ok (value, t)) (found, coherent, same_keys, same_number) =
          rw (found, later t coherent, view_all_same s t rest same_keys same_number)
      read_one later (err e) failed = rw failed

  -- From a new section, any sequence of reads gives what the message holds under those keys, or
  -- the first exception of those reads: the cache never shows.
  pub read_all-new :
      (number : ℕ) (names wanted : List String)
      → read_all (new number names) wanted ≡ view_all (new number names) wanted
  read_all-new number names wanted =
      read_all-eq-view_all (new number names) wanted (IsCoherent-new number names)

-- A new section offers the translations what its message holds.
pub reader : {F : Type 0} → Codes F → Section F → Reader F
reader codes s = record {
  get = view codes s;
  has_key = contains s.keys;
  get_computed_key = get_computed_key codes;
}
