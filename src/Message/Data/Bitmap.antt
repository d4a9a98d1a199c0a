-- ===== src/Message/Data/Bitmap.antt =====
-- Values are put where the bitmap is set, in their order, and nowhere else.
use gribbi.Base.{
  zero, map, if◌then◌else◌, get_elem?, take, ℕ, suc, ◌∙◌, ◌-◌, ◌≤◌, ◌≡◌, subst, ◌+◌, refl, ap, inl,
  inr, Bool, true, false, Option, none, some, List, [], ◌∷◌, arith, ◌==◌, ==_iff, Bool-cases,
  length, set, replicate, nat_eq, string_eq, option_eq, pair_eq, ok,
}
use gribbi.Base.Int.{ℤ, pos, int_eq}
use gribbi.Value.{Reader}
use gribbi.Message.Data.{
  get_data, bitmap, product, reshape, stored_values, coded_values, section_of, count_set, unpack,
  apply_bitmap, is_set, as_bits,
}
use gribbi.Value.{int, ints, reals}

count_set-le : (bits : List Bool) → count_set bits ≤ length bits
count_set-le [] = omega arith
count_set-le (true ∷ bits) = omega (arith, count_set-le bits)
count_set-le (false ∷ bits) = omega (arith, count_set-le bits)

suc_sub : (m n : ℕ) → n ≤ m → suc m - n ≡ suc (m - n)
suc_sub m n h = omega arith

zero_plus : (n : ℕ) → n ≡ 0 + n
zero_plus n = omega arith

one_plus : (n : ℕ) → suc n ≡ 1 + n
one_plus n = omega arith

length-map : (raw : List (Option ℤ)) → length (map is_set raw) ≡ length raw
length-map [] = refl
length-map (a ∷ raw) = ap suc (length-map raw)

module _ {F : Type 0} where
  -- The elements of an array where the bitmap is set, and those where it is not.
  abbrev pub picked : Bool → List Bool → List (Option F) → List (Option F)
  picked b [] values = []
  picked b (c ∷ bits) [] = []
  picked true (true ∷ bits) (v ∷ values) = v ∷ picked true bits values
  picked true (false ∷ bits) (v ∷ values) = picked true bits values
  picked false (true ∷ bits) (v ∷ values) = picked false bits values
  picked false (false ∷ bits) (v ∷ values) = v ∷ picked false bits values

  unpack-picked :
      (bits : List Bool) (values : List (Option F))
      → count_set bits ≡ length values
      → (length (unpack bits values) ≡ length bits)
        × (picked true bits (unpack bits values) ≡ values)
        × (picked false bits (unpack bits values) ≡ replicate (length bits - length values) none)
  unfolding unpack
  unpack-picked [] [] h = ground arith
  unpack-picked [] (v ∷ values) h = absurd (omega arith)
  unpack-picked (true ∷ bits) [] h = absurd (omega arith)
  unpack-picked (true ∷ bits) (v ∷ values) h = ground (arith, unpack-picked bits values)
  unpack-picked (false ∷ bits) values h =
      let (same_length, set, unset) = unpack-picked bits values (omega arith) in
      (
        ap suc same_length,
        set,
        rw (suc_sub (length bits) (length values) (omega (arith, count_set-le bits)))
            (ap (λ r. none ∷ r) unset),
      )

  -- Where values are unpacked by a bitmap, there are as many values as bits that are set, the
  -- result has the length of the bitmap, the values stand in their order where it is set, and
  -- all other elements are masked.
  pub apply_bitmap-picked :
      (bits : List Bool) (values unpacked : List (Option F))
      → apply_bitmap (some bits) values ≡ ok unpacked
      → (count_set bits ≡ length values)
        × (length unpacked ≡ length bits)
        × (picked true bits unpacked ≡ values)
        × (picked false bits unpacked ≡ replicate (length bits - length values) none)
  unfolding apply_bitmap
  apply_bitmap-picked bits values unpacked h = elim (Bool-cases (count_set bits == length values)) [
    | inl fits ↦
        let same : count_set bits ≡ length values = (==_iff _ _).0 fits in
        let found : unpack bits values ≡ unpacked = ground arith in
        let (long, set, unset) = unpack-picked bits values same in
        (same, rw (← found) long, rw (← found) set, rw (← found) unset)
    | inr differs ↦ absurd (ground arith)
  ]

  -- An element behind a bitmap: the value whose number is that of the bits set before it, or masked.
  unpack-element :
      (bits : List Bool) (values : List (Option F)) (i : ℕ) (b : Bool)
      → get_elem? bits i ≡ some b
      → count_set bits ≡ length values
      → get_elem? (unpack bits values) i
        ≡ (if b then get_elem? values (count_set (take i bits)) else some none)
  unfolding unpack
  unpack-element [] values i b h k = cc
  unpack-element (true ∷ bits) [] i b h k = absurd (omega arith)
  unpack-element (true ∷ bits) (v ∷ values) zero true h k = refl
  unpack-element (true ∷ bits) (v ∷ values) zero false h k = cc
  unpack-element (true ∷ bits) (v ∷ values) (suc i) b h k =
      subst
        (λ n.
          get_elem? (unpack bits values) i
          ≡ (if b then get_elem? {A = Option F} (v ∷ values) n else some none))
        (one_plus (count_set (take i bits))) (unpack-element bits values i b h (omega arith))
  unpack-element (false ∷ bits) values zero true h k = cc
  unpack-element (false ∷ bits) values zero false h k = refl
  unpack-element (false ∷ bits) values (suc i) b h k =
      subst (λ n. get_elem? (unpack bits values) i ≡ (if b then get_elem? values n else some none))
        (zero_plus (count_set (take i bits))) (unpack-element bits values i b h (omega arith))

  -- The values of a message, which stores none where they have no bits.
  abbrev pub values_of : F → List ℕ → ℕ → List (Option F) → List (Option F)
  values_of zero_value shape width coded =
      if width == 0 then replicate (product shape) (some zero_value) else coded

  -- What is read before the bitmap.
  stored_values-values_of :
      (zero_value : F) (shape : List ℕ) (sections : ℕ → Option (Reader F))
      (representation data_ : Reader F) (width : ℕ) (coded : List (Option F))
      → sections 5 ≡ some representation
      → representation.get "bitsPerValue" ≡ ok (int (pos width))
      → sections 7 ≡ some data_
      → data_.get "codedValues" ≡ ok (reals coded)
      → (generated : Option (List (Option F))) × (stored_values zero_value shape sections
          ≡ ok generated)
        × (coded_values sections generated ≡ ok (values_of zero_value shape width coded))
  unfolding stored_values coded_values section_of
  stored_values-values_of zero_value shape sections representation data_ width coded s5 b5 s7 b7 =
      elim (Bool-cases (width == 0)) [
        | inl empty ↦ (
          some (replicate (product shape) (some zero_value)),
          rw (stored_values, s5, b5, empty) refl,
          rw empty refl,
        )
        | inr full ↦ (
          none,
          rw (stored_values, s5, b5, full) refl,
          rw (coded_values, section_of, s7, b7, full) refl,
        )
      ]

  get_data-unpack :
      (zero_value : F) (shape : List ℕ) (sections : ℕ → Option (Reader F)) (section : Reader F)
      (raw : List (Option ℤ)) (generated : Option (List (Option F))) (values : List (Option F))
      → stored_values zero_value shape sections ≡ ok generated
      → coded_values sections generated ≡ ok values
      → sections 6 ≡ some section
      → section.get "bitMapIndicator" ≡ ok (int (pos 0))
      → section.get "bitmap" ≡ ok (ints raw)
      → count_set (map is_set raw) ≡ length values
      → length raw ≡ product shape
      → (get_data zero_value shape sections ≡ ok (unpack (map is_set raw) values))
        × (length (unpack (map is_set raw) values) ≡ product shape)
  unfolding get_data section_of reshape bitmap as_bits apply_bitmap
  get_data-unpack zero_value shape sections section raw generated values p q s6 i6 b6 fits long =
      let whole : length (unpack (map is_set raw) values) ≡ product shape =
        (unpack-picked (map is_set raw) values fits).0 ∙ length-map raw ∙ long in
      (
        rw (p, q, section_of, s6, bitmap, i6, b6, (==_iff _ _).1 fits, (==_iff _ _).1 whole) refl,
        whole,
      )

  -- Of a message that has a bitmap, with as many bits set as there are values, which are zeros of
  -- the shape where the message stores no bits per value and its coded values otherwise, and with
  -- as many bits as its shape has elements, the data is read. It has the elements of its shape; one
  -- whose bit is set is the value whose number is that of the bits set before it, and one whose bit
  -- is not set is masked.
  pub get_data-element :
      (zero_value : F) (shape : List ℕ) (sections : ℕ → Option (Reader F))
      (representation section data_ : Reader F) (width : ℕ) (raw : List (Option ℤ))
      (coded : List (Option F)) (i : ℕ) (b : Bool)
      → sections 5 ≡ some representation
      → representation.get "bitsPerValue" ≡ ok (int (pos width))
      → sections 7 ≡ some data_
      → data_.get "codedValues" ≡ ok (reals coded)
      → sections 6 ≡ some section
      → section.get "bitMapIndicator" ≡ ok (int (pos 0))
      → section.get "bitmap" ≡ ok (ints raw)
      → count_set (map is_set raw) ≡ length (values_of zero_value shape width coded)
      → length raw ≡ product shape
      → get_elem? (map is_set raw) i ≡ some b
      → (values : List (Option F)) × (get_data zero_value shape sections ≡ ok values)
        × (length values ≡ product shape)
        × (get_elem? values i ≡ (
            if b
            then get_elem?
                (values_of zero_value shape width coded)
                (count_set (take i (map is_set raw)))
            else some none))
  get_data-element zero_value shape sections representation section data_ width raw coded i b s5 b5
        s7 b7 s6 i6 b6 fits long at =
      let (generated, p, q) =
        stored_values-values_of zero_value shape sections representation data_ width coded s5 b5 s7
          b7 in
      let (read, whole) =
        get_data-unpack zero_value shape sections section raw generated
          (values_of zero_value shape width coded) p q s6 i6 b6 fits long in
      (
        unpack (map is_set raw) (values_of zero_value shape width coded),
        read,
        whole,
        unpack-element (map is_set raw) (values_of zero_value shape width coded) i b at fits,
      )
