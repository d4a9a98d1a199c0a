-- ===== src/Phenom/Code/RoundTrip.antt =====
-- The texts of a code read back as the code.
use gribbi.Base.{
  ℕ, suc, ◌≡◌, refl, Bool, true, false, not, ◌&&◌, [], ◌∷◌, ◌++◌, arith, nat_eq, string_eq,
  option_eq, pair_eq, ok,
}
use gribbi.Phenom.Code.{
  Text, GribCode, grib_code1, grib_code2, is_digit, skip_others, span_digits, match_groups, ints_of,
  fournums_from_gribcode_string, gribcode, gribcode_from_string, decimal, padded, str, repr,
  edition_text, table_version_text, centre_number_text, discipline_text, category_text, number_text,
}
use gribbi.Phenom.Code.Decimal.{AllDigits, Shows, Shows-decimal, Shows-padded}

-- No character is a digit.
abbrev has_no_digit : Text → Bool
has_no_digit [] = true
has_no_digit (c ∷ cs) = not (is_digit c) && has_no_digit cs

abbrev AllOthers : Text → Type 0
AllOthers label = has_no_digit label ≡ true

AllOthers-head : (c : ℕ) (cs : Text) → AllOthers (c ∷ cs) → is_digit c ≡ false
AllOthers-head c cs h = ground arith

AllOthers-tail : (c : ℕ) (cs : Text) → AllOthers (c ∷ cs) → AllOthers cs
AllOthers-tail c cs h = ground arith

-- A text at whose start a run of digits ends.
abbrev pub Ends : Text → Type 0
Ends [] = Unit
Ends (c ∷ cs) = is_digit c ≡ false

span_digits-append :
    (ds rest : Text) → AllDigits ds → Ends rest → span_digits (ds ++ rest) ≡ (ds, rest)
unfolding span_digits
span_digits-append [] [] h k = refl
span_digits-append [] (c ∷ cs) h k = rw (k) refl
span_digits-append (d ∷ ds) rest (h, hs) k = rw (h, span_digits-append ds rest hs k) refl

skip_others-append :
    (label ds rest : Text) (n : ℕ)
    → AllOthers label
    → Shows n ds
    → skip_others (label ++ (ds ++ rest)) ≡ ds ++ rest
unfolding skip_others
skip_others-append [] [] rest n h k = cc (k.reads)
skip_others-append [] (d ∷ ds) rest n h k = rw (k.digits.0) refl
skip_others-append (c ∷ cs) ds rest n h k =
    rw (AllOthers-head c cs h, skip_others-append cs ds rest n (AllOthers-tail c cs h) k) refl

match_groups-next :
    (groups : ℕ) (label ds rest : Text) (n : ℕ)
    → AllOthers label
    → Shows n ds
    → Ends rest
    → match_groups (suc groups) (label ++ (ds ++ rest)) ≡ ds ∷ match_groups groups rest
unfolding match_groups
match_groups-next groups label ds rest n h k e =
    rw (skip_others-append label ds rest n h k, span_digits-append ds rest k.digits e) refl

match_groups-zero : (text : Text) → match_groups 0 text ≡ []
unfolding match_groups
match_groups-zero text = refl

-- Four numbers between labels, with what stands behind the last.
pub fournums-labelled :
    (l1 l2 l3 l4 tail d1 d2 d3 d4 : Text) (n1 n2 n3 n4 : ℕ)
    → AllOthers l1 × AllOthers l2 × AllOthers l3 × AllOthers l4
    → Shows n1 d1 × Shows n2 d2 × Shows n3 d3 × Shows n4 d4
    → ((d : Text) → Ends (l2 ++ d))
      × ((d : Text) → Ends (l3 ++ d))
      × ((d : Text) → Ends (l4 ++ d))
      × Ends tail
    → fournums_from_gribcode_string
        (l1 ++ (d1 ++ (l2 ++ (d2 ++ (l3 ++ (d3 ++ (l4 ++ (d4 ++ tail))))))))
      ≡ ok (n1 ∷ n2 ∷ n3 ∷ n4 ∷ [])
unfolding fournums_from_gribcode_string ints_of
fournums-labelled l1 l2 l3 l4 tail d1 d2 d3 d4 n1 n2 n3 n4 (o1, o2, o3, o4) (s1, s2, s3, s4)
      (e2, e3, e4, e5) =
    rw
      (
        match_groups-next 3 l1 d1 (l2 ++ (d2 ++ (l3 ++ (d3 ++ (l4 ++ (d4 ++ tail)))))) n1 o1 s1
            (e2 _),
        match_groups-next 2 l2 d2 (l3 ++ (d3 ++ (l4 ++ (d4 ++ tail)))) n2 o2 s2 (e3 _),
        match_groups-next 1 l3 d3 (l4 ++ (d4 ++ tail)) n3 o3 s3 (e4 _),
        match_groups-next 0 l4 d4 tail n4 o4 s4 e5,
        match_groups-zero tail,
        s1.reads,
        s2.reads,
        s3.reads,
        s4.reads,
      )
      refl

-- Both texts of a code, `str(code)` and `repr(code)`, read back as the code.
pub gribcode_from_string-texts :
    (code : GribCode)
    → (gribcode_from_string (str code) ≡ ok code) × (gribcode_from_string (repr code) ≡ ok code)
unfolding gribcode_from_string str repr gribcode
gribcode_from_string-texts (grib_code1 a b c) = (
  rw
      (fournums-labelled (71 ∷ 82 ∷ 73 ∷ 66 ∷ []) (58 ∷ 116 ∷ []) (99 ∷ []) (110 ∷ []) []
        (decimal 1) (padded a) (padded b) (padded c) 1 a b c (refl, refl, refl, refl)
        (Shows-decimal 1, Shows-padded a, Shows-padded b, Shows-padded c)
        ((λ d. refl), (λ d. refl), (λ d. refl), tt))
      refl,
  rw
      (fournums-labelled edition_text table_version_text centre_number_text number_text (41 ∷ [])
        (decimal 1) (decimal a) (decimal b) (decimal c) 1 a b c (refl, refl, refl, refl)
        (Shows-decimal 1, Shows-decimal a, Shows-decimal b, Shows-decimal c)
        ((λ d. refl), (λ d. refl), (λ d. refl), refl))
      refl,
)
gribcode_from_string-texts (grib_code2 a b c) = (
  rw
      (fournums-labelled (71 ∷ 82 ∷ 73 ∷ 66 ∷ []) (58 ∷ 100 ∷ []) (99 ∷ []) (110 ∷ []) []
        (decimal 2) (padded a) (padded b) (padded c) 2 a b c (refl, refl, refl, refl)
        (Shows-decimal 2, Shows-padded a, Shows-padded b, Shows-padded c)
        ((λ d. refl), (λ d. refl), (λ d. refl), tt))
      refl,
  rw
      (fournums-labelled edition_text discipline_text category_text number_text (41 ∷ [])
        (decimal 2) (decimal a) (decimal b) (decimal c) 2 a b c (refl, refl, refl, refl)
        (Shows-decimal 2, Shows-decimal a, Shows-decimal b, Shows-decimal c)
        ((λ d. refl), (λ d. refl), (λ d. refl), refl))
      refl,
)
