-- ===== src/Phenom/Build.antt =====
-- What the tables hold, once they are built: every entry that was not skipped.
use gribbi.Base.{
  ℕ, zero, suc, ◌≡◌, refl, ◌↔◌, ◌⊎◌, inl, inr, Option, none, some, List, [], ◌∷◌, arith, get_elem?,
  Eq, nat_eq, string_eq, option_eq, pair_eq, Result, ok, >>=-eq-ok,
}
use gribbi.Base.Dict.{Dict, lookup, lookup-insert, lookup-insert_self}
use gribbi.Phenom.{set_item, add_entry, build}

module _ {ℓ} {S K V : Type ℓ} ⦃e : Eq K⦄ (entry : S → Result (Option (K × V))) where
  add_entry-keeps :
      (association : Option (K × V)) (table table' : Dict K V) (key : K) (value : V)
      → add_entry association table ≡ ok table'
      → lookup key table ≡ some value
      → lookup key table' ≡ some value
  unfolding add_entry set_item
  add_entry-keeps none table table' key value added here = ground arith
  add_entry-keeps (some (k, v)) table table' key value added here =
      ground (arith, lookup-insert key k v table, e.beq_iff k key)

  add_entry-finds :
      (k : K) (v : V) (table table' : Dict K V)
      → add_entry (some (k, v)) table ≡ ok table'
      → lookup k table' ≡ some v
  unfolding add_entry set_item
  add_entry-finds k v table table' added = ground (arith, lookup-insert_self k v table)

  add_entry-only :
      (association : Option (K × V)) (table table' : Dict K V) (key : K) (value : V)
      → add_entry association table ≡ ok table'
      → lookup key table' ≡ some value
      → (lookup key table ≡ some value) ⊎ (association ≡ some (key, value))
  unfolding add_entry set_item
  add_entry-only none table table' key value added here = inl (ground arith)
  add_entry-only (some (k, v)) table table' key value added here =
      ground (arith, lookup-insert key k v table, e.beq_iff k key)

  -- A later step never changes what a key already has.
  build-keeps :
      (sources : List S) (table final : Dict K V) (key : K) (value : V)
      → build entry sources table ≡ ok final
      → lookup key table ≡ some value
      → lookup key final ≡ some value
  unfolding build
  build-keeps [] table final key value done here = ground arith
  build-keeps (s ∷ rest) table final key value done here =
      let (association, read, done') = >>=-eq-ok (entry s) _ done in
      let (table', added, done'') = >>=-eq-ok (add_entry association table) _ done' in
      build-keeps rest table' final key value done''
        (add_entry-keeps association table table' key value added here)

  build-finds :
      (sources : List S) (table final : Dict K V) (i : ℕ) (s : S) (key : K) (value : V)
      → build entry sources table ≡ ok final
      → get_elem? sources i ≡ some s
      → entry s ≡ ok (some (key, value))
      → lookup key final ≡ some value
  unfolding build
  build-finds [] table final i s key value done at made = absurd (ground arith)
  build-finds (r ∷ rest) table final zero s key value done at made =
      let (association, read, done') = >>=-eq-ok (entry r) _ done in
      let (table', added, done'') = >>=-eq-ok (add_entry association table) _ done' in
      build-keeps rest table' final key value done'' (
        add_entry-finds key value table table'
          (let e : association ≡ some (key, value) = cc in rw e at added))
  build-finds (r ∷ rest) table final (suc i) s key value done at made =
      let (association, read, done') = >>=-eq-ok (entry r) _ done in
      let (table', added, done'') = >>=-eq-ok (add_entry association table) _ done' in
      build-finds rest table' final i s key value done'' at made

  build-only :
      (sources : List S) (table final : Dict K V) (key : K) (value : V)
      → build entry sources table ≡ ok final
      → lookup key final ≡ some value
      → (lookup key table ≡ some value)
        ⊎ ((i : ℕ) × (s : S) × (get_elem? sources i ≡ some s) × (entry s ≡ ok (some (key, value))))
  unfolding build
  build-only [] table final key value done here = inl (ground arith)
  build-only (r ∷ rest) table final key value done here =
      let (association, read, done') = >>=-eq-ok (entry r) _ done in
      let (table', added, done'') = >>=-eq-ok (add_entry association table) _ done' in
      elim (build-only rest table' final key value done'' here) [
        | inl early ↦ elim (add_entry-only association table table' key value added early) [
          | inl before ↦ inl before
          | inr now ↦ inr (0, r, refl, cc)
        ]
        | inr (i, s, at, made) ↦ inr (suc i, s, at, made)
      ]

  -- A table that is built from nothing holds under a key exactly the value of an entry that was
  -- not skipped: no entry is lost, and none is overwritten.
  pub build-lookup :
      (sources : List S) (final : Dict K V) (key : K) (value : V)
      → build entry sources [] ≡ ok final
      → (lookup key final ≡ some value)
        ↔ ((i : ℕ) × (s : S) × (get_elem? sources i ≡ some s) × (entry s ≡ ok (some (key, value))))
  unfolding lookup
  build-lookup sources final key value done = (
    λ here. elim (build-only sources [] final key value done here) [
      | inl early ↦ absurd (ground arith)
      | inr found ↦ found
    ],
    λ (i, s, at, made). build-finds sources [] final i s key value done at made,
  )
