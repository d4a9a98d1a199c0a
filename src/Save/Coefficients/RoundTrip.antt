-- ===== src/Save/Coefficients/RoundTrip.antt =====
-- The coefficients of a level are read back by the translation of hybrid levels.
use gribbi.Base.{
  ℕ, zero, suc, ◌+◌, ◌*◌, ◌<◌, ◌≡◌, refl, sym, ◌∙◌, ◌≢◌, ◌⊎◌, some, List, [], ◌∷◌, ◌++◌, map, arith,
  ◌==◌, length, get_elem?, set, replicate, length-set, get_elem?-set_self, get_elem?-set_ne,
  length-replicate, nat_eq, string_eq, option_eq, pair_eq, ok,
}
use gribbi.Base.Int.{ℤ, pos, pos_part, int_eq}
use gribbi.Value.{int, real, reals}
use gribbi.Value.{Reader}
use gribbi.Metadata.{Metadata, add_aux}
use gribbi.Load.Vertical.{
  hybrid_factories, hybrid_factory, sigma_coord, level_value_coord, level_number_coord,
}
use gribbi.Load.Vertical.Laws.{hybrid_factories_levels}
use gribbi.Save.Coefficients.{max_level, write_levels, hybrid_coefficients}

-- A place that no level of the list writes to, and levels below a bound.
abbrev Untouched : ℕ → ℕ → List ℕ → Type 0
Untouched k p [] = Unit
Untouched k p (n ∷ ns) = (n ≢ p) × (k + n ≢ p) × Untouched k p ns

abbrev Below : ℕ → List ℕ → Type 0
Below k [] = Unit
Below k (n ∷ ns) = (n < k) × Below k ns

abbrev Differs : ℕ → List ℕ → Type 0
Differs n [] = Unit
Differs n (m ∷ ms) = (n ≢ m) × Differs n ms

-- No two level numbers are the same.
abbrev pub Distinct : List ℕ → Type 0
Distinct [] = Unit
Distinct (n ∷ ns) = Differs n ns × Distinct ns

Untouched-low : (k n : ℕ) (ns : List ℕ) → n < k → Differs n ns → Untouched k n ns
Untouched-low k n [] h d = tt
Untouched-low k n (m ∷ ms) h (e, d) =
    ((λ p. e (sym p)), (λ p. absurd (omega (arith, p))), Untouched-low k n ms h d)

Untouched-high : (k n : ℕ) (ns : List ℕ) → Below k ns → Differs n ns → Untouched k (k + n) ns
Untouched-high k n [] b d = tt
Untouched-high k n (m ∷ ms) (lt, b) (e, d) =
    ((λ p. absurd (omega (arith, p))), (λ p. e (omega (arith, p))), Untouched-high k n ms b d)

Below-max_level : (ns : List ℕ) (k : ℕ) → max_level ns < k → Below k ns
unfolding max_level
Below-max_level [] k h = tt
Below-max_level (n ∷ ns) k h = ground (arith, Below-max_level ns k)

get_elem?-map :
    {A B : Type 0} (f : A → B) (xs : List A) (i : ℕ) (a : A)
    → get_elem? xs i ≡ some a
    → get_elem? (map f xs) i ≡ some (f a)
get_elem?-map f [] i a h = absurd (ground arith)
get_elem?-map f (x ∷ xs) zero a h = ground arith
get_elem?-map f (x ∷ xs) (suc i) a h = get_elem?-map f xs i a h

module _ {F : Type 0} where
  length-write_levels :
      (k : ℕ) (coeffs : List F) (levels : List ℕ) (heights sigmas : List F)
      → length (write_levels k coeffs levels heights sigmas) ≡ length coeffs
  unfolding write_levels
  length-write_levels k coeffs [] heights sigmas = refl
  length-write_levels k coeffs (n ∷ levels) [] sigmas = refl
  length-write_levels k coeffs (n ∷ levels) (h ∷ heights) [] = refl
  length-write_levels k coeffs (n ∷ levels) (h ∷ heights) (s ∷ sigmas) =
      rw
        (
          length-write_levels k (set (set coeffs n h) (k + n) s) levels heights sigmas,
          length-set (set coeffs n h) (k + n) s,
        )
        (length-set coeffs n h)

  write_levels-Untouched :
      (k p : ℕ) (coeffs : List F) (levels : List ℕ) (heights sigmas : List F)
      → Untouched k p levels
      → get_elem? (write_levels k coeffs levels heights sigmas) p ≡ get_elem? coeffs p
  unfolding write_levels
  write_levels-Untouched k p coeffs [] heights sigmas u = refl
  write_levels-Untouched k p coeffs (n ∷ levels) [] sigmas u = refl
  write_levels-Untouched k p coeffs (n ∷ levels) (h ∷ heights) [] u = refl
  write_levels-Untouched k p coeffs (n ∷ levels) (h ∷ heights) (s ∷ sigmas) (low, high, u) =
      rw
        (
          write_levels-Untouched k p (set (set coeffs n h) (k + n) s) levels heights sigmas u,
          get_elem?-set_ne (set coeffs n h) s high,
        )
        (get_elem?-set_ne coeffs h low)

  -- A level's coefficients stand at its number in the two halves.
  write_levels-at :
      (k i n : ℕ) (height sigma : F) (coeffs : List F) (levels : List ℕ) (heights sigmas : List F)
      → Distinct levels
      → Below k levels
      → length coeffs ≡ k * 2
      → get_elem? levels i ≡ some n
      → get_elem? heights i ≡ some height
      → get_elem? sigmas i ≡ some sigma
      → (get_elem? (write_levels k coeffs levels heights sigmas) n ≡ some height)
        × (get_elem? (write_levels k coeffs levels heights sigmas) (k + n) ≡ some sigma)
  unfolding write_levels
  write_levels-at k i n height sigma coeffs [] heights sigmas d b l p q r = absurd (ground arith)
  write_levels-at k i n height sigma coeffs (m ∷ levels) [] sigmas d b l p q r =
      absurd (ground arith)
  write_levels-at k i n height sigma coeffs (m ∷ levels) (h ∷ heights) [] d b l p q r =
      absurd (ground arith)
  write_levels-at k zero n height sigma coeffs (m ∷ levels) (h ∷ heights) (s ∷ sigmas) (e, d)
        (lt, b) l p q r =
      let lower =
        write_levels-Untouched k m (set (set coeffs m h) (k + m) s) levels heights sigmas
          (Untouched-low k m levels lt e) in
      let upper =
        write_levels-Untouched k (k + m) (set (set coeffs m h) (k + m) s) levels heights sigmas
          (Untouched-high k m levels b e) in
      ground (
        arith,
        lower,
        upper,
        get_elem?-set_ne (set coeffs m h) {i = k + m} {j = m} s (λ g. omega (arith, g)),
        get_elem?-set_self coeffs m h (omega arith),
        get_elem?-set_self (set coeffs m h) (k + m) s (omega (arith, length-set coeffs m h)),
      )
  write_levels-at k (suc i) n height sigma coeffs (m ∷ levels) (h ∷ heights) (s ∷ sigmas) (e, d)
        (lt, b) l p q r =
      write_levels-at k i n height sigma (set (set coeffs m h) (k + m) s) levels heights sigmas d b
        (length-set (set coeffs m h) (k + m) s ∙ length-set coeffs m h ∙ l) p q r

  -- Where the coefficients of distinct levels can be saved, the vector has two halves of equal
  -- length, and a level's two coefficients stand at its number in the halves.
  hybrid_coefficients-at :
      (as_float32 : F → F) (zero_value : F) (model_levels : List ℤ) (heights sigmas : List F)
      (nv i n : ℕ) (pv : List F) (height sigma : F)
      → hybrid_coefficients as_float32 zero_value model_levels heights sigmas ≡ ok (nv, pv)
      → Distinct (map pos_part model_levels)
      → get_elem? model_levels i ≡ some (pos n)
      → get_elem? heights i ≡ some height
      → get_elem? sigmas i ≡ some sigma
      → (half : ℕ) × (nv ≡ half * 2)
        × (get_elem? pv n ≡ some (as_float32 height))
        × (get_elem? pv (half + n) ≡ some (as_float32 sigma))
  unfolding hybrid_coefficients
  hybrid_coefficients-at as_float32 zero_value model_levels heights sigmas nv i n pv height sigma h
        d p q r =
      let half = max_level (map pos_part model_levels) + 1 in
      let (low, high) =
        write_levels-at half i n (as_float32 height) (as_float32 sigma)
          (replicate (half * 2) zero_value) (map pos_part model_levels) (map as_float32 heights)
          (map as_float32 sigmas) d (Below-max_level (map pos_part model_levels) half (omega arith))
          (length-replicate (half * 2) zero_value) (get_elem?-map pos_part model_levels i (pos n) p)
          (get_elem?-map as_float32 heights i height q)
          (get_elem?-map as_float32 sigmas i sigma r) in
      (half, ground arith, ground (arith, low), ground (arith, high))

  -- Where the coefficients of distinct levels are saved, and a message has the surface type of a
  -- hybrid level, the number of one of those levels and that vector, its translation gives that
  -- level's number and its two coefficients, as they were rounded to float32.
  pub hybrid_factories-hybrid_coefficients :
      (as_float32 : F → F) (zero_value : F) (model_levels : List ℤ) (heights sigmas : List F)
      (nv i n type : ℕ) (pv : List F) (height sigma : F) (section : Reader F) (m : Metadata F)
      → hybrid_coefficients as_float32 zero_value model_levels heights sigmas ≡ ok (nv, pv)
      → Distinct (map pos_part model_levels)
      → get_elem? model_levels i ≡ some (pos n)
      → get_elem? heights i ≡ some height
      → get_elem? sigmas i ≡ some sigma
      → (type ≡ 105) ⊎ ((type ≡ 118) ⊎ (type ≡ 119))
      → section.get "typeOfFirstFixedSurface" ≡ ok (int (pos type))
      → section.get "typeOfSecondFixedSurface" ≡ ok (int (pos 255))
      → section.get "scaleFactorOfFirstFixedSurface" ≡ ok (int (pos 0))
      → section.get "scaledValueOfFirstFixedSurface" ≡ ok (int (pos n))
      → section.get "pv" ≡ ok (reals (map some pv))
      → hybrid_factories section (pos nv) m
        ≡ ok
            (record (add_aux (sigma_coord (real (as_float32 sigma))) (
              add_aux
                (level_value_coord (type == 118) (real (as_float32 height)))
                (add_aux (level_number_coord (int (pos n))) m))) {
                  factories = m.factories ++ (hybrid_factory (type == 118) ∷ []);
                })
  hybrid_factories-hybrid_coefficients as_float32 zero_value model_levels heights sigmas nv i n type
        pv height sigma section m h d p q r kind first second factor at vector =
      let (half, even, low, high) =
        hybrid_coefficients-at as_float32 zero_value model_levels heights sigmas nv i n pv height
          sigma h d p q r in
      rw (even) (
        hybrid_factories_levels section m type half n (map some pv) (as_float32 height)
          (as_float32 sigma) kind first second factor at vector
          (get_elem?-map some pv n (as_float32 height) low)
          (get_elem?-map some pv (half + n) (as_float32 sigma) high))
