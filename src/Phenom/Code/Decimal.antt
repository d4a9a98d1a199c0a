-- ===== src/Phenom/Code/Decimal.antt =====
-- The digits of a number: they are digits, there is one, and they read as the number.
use gribbi.Base.{
  ℕ, zero, suc, ◌+◌, ◌-◌, ◌*◌, ◌/◌, ◌%◌, ◌<◌, ◌≡◌, refl, ap, inl, inr, true, [], ◌∷◌, ◌++◌, arith,
  ltb, ltb→lt, Bool-cases, length, replicate, length-append, nat_eq, string_eq, option_eq, pair_eq,
  ok,
}
use gribbi.Phenom.Code.{Text, is_digit, value_from, decimal_from, decimal, padded, int_of}

abbrev pub AllDigits : Text → Type 0
AllDigits [] = Unit
AllDigits (c ∷ cs) = (is_digit c ≡ true) × AllDigits cs

AllDigits-append : (xs ys : Text) → AllDigits xs → AllDigits ys → AllDigits (xs ++ ys)
AllDigits-append [] ys h k = k
AllDigits-append (x ∷ xs) ys (d, h) k = (d, AllDigits-append xs ys h k)

value_from-append :
    (n : ℕ) (xs ys : Text) → value_from n (xs ++ ys) ≡ value_from (value_from n xs) ys
unfolding value_from
value_from-append n [] ys = refl
value_from-append n (x ∷ xs) ys = value_from-append (n * 10 + (x - 48)) xs ys

is_digit_of : (d : ℕ) → d < 10 → is_digit (48 + d) ≡ true
is_digit_of d h = ground arith

AllDigits-decimal_from : (fuel n : ℕ) → AllDigits (decimal_from fuel n)
unfolding decimal_from
AllDigits-decimal_from zero n = tt
AllDigits-decimal_from (suc fuel) n = elim (Bool-cases (ltb n 10)) [
  | inl small ↦ rw (small) (is_digit_of n (ltb→lt n 10 small), tt)
  | inr big ↦ rw (big) (
      AllDigits-append (decimal_from fuel (n / 10)) _ (AllDigits-decimal_from fuel (n / 10))
        (is_digit_of (n % 10) (omega arith), tt))
]

value_from-decimal_from : (fuel n : ℕ) → n < fuel → value_from 0 (decimal_from fuel n) ≡ n
unfolding decimal_from value_from
value_from-decimal_from zero n h = omega arith
value_from-decimal_from (suc fuel) n h = elim (Bool-cases (ltb n 10)) [
  | inl small ↦ rw (small) (omega arith)
  | inr big ↦
      rw
        (
          big,
          value_from-append 0 (decimal_from fuel (n / 10)) ((48 + n % 10) ∷ []),
          value_from-decimal_from fuel (n / 10) (ground arith),
        )
        (omega arith)
]

-- The text of a number: digits, one at least, that read as the number.
pub record Shows (n : ℕ) (ds : Text) : Type 0 where
  pub digits : AllDigits ds
  pub reads : int_of ds ≡ ok n

int_of-cons : (ds : Text) (n : ℕ) → 0 < length ds → value_from 0 ds ≡ n → int_of ds ≡ ok n
int_of-cons [] n h k = ground arith
int_of-cons (d ∷ ds) n h k = ap ok k

decimal_from-length : (fuel n : ℕ) → 0 < length (decimal_from (suc fuel) n)
unfolding decimal_from
decimal_from-length fuel n = elim (Bool-cases (ltb n 10)) [
  | inl small ↦ rw (small) (omega arith)
  | inr big ↦
      rw (big, length-append (decimal_from fuel (n / 10)) ((48 + n % 10) ∷ [])) (omega arith)
]

pub Shows-decimal : (n : ℕ) → Shows n (decimal n)
unfolding decimal
Shows-decimal n = record {
  digits = AllDigits-decimal_from (suc n) n;
  reads =
      int_of-cons (decimal n) n (decimal_from-length n n)
        (value_from-decimal_from (suc n) n (omega arith));
}

Shows-zeros : (k n : ℕ) (ds : Text) → Shows n ds → Shows n (replicate k 48 ++ ds)
unfolding value_from
Shows-zeros zero n ds h = h
Shows-zeros (suc k) n ds h = zero_before n (replicate k 48 ++ ds) (Shows-zeros k n ds h)
  where
    zero_before : (n : ℕ) (ds : Text) → Shows n ds → Shows n (48 ∷ ds)
    zero_before n [] h = cc (h.reads)
    zero_before n (d ∷ ds) h = record { digits = (refl, h.digits); reads = h.reads }

pub Shows-padded : (n : ℕ) → Shows n (padded n)
unfolding padded
Shows-padded n = Shows-zeros (3 - length (decimal n)) n (decimal n) (Shows-decimal n)
