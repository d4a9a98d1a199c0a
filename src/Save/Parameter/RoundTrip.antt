-- ===== src/Save/Parameter/RoundTrip.antt =====
-- `set_discipline_and_parameter` of a cube with a GRIB_PARAM attribute.
use gribbi.Base.{
  ℕ, ◌≡◌, refl, sym, ap, ◌∙◌, subst, some, List, [], ◌∷◌, nat_eq, string_eq, option_eq, pair_eq, ok,
}
use gribbi.Base.Dict.{Dict, lookup, lookup-insert}
use gribbi.Base.Int.{pos, int_eq}
use gribbi.Value.{int}
use gribbi.Phenom.{CfGrib2Key, CfGrib2Data, cf_phenom_to_grib2_info}
use gribbi.Phenom.Code.{grib_code2, str, repr, gribcode, decimal, gribcode_from_string}
use gribbi.Phenom.Code.RoundTrip.{gribcode_from_string-texts, fournums-labelled, Ends}
use gribbi.Phenom.Code.Decimal.{Shows-decimal}
use gribbi.Save.Shape.{Keys}
use gribbi.Save.Cube.{Cube, GribParam, param_text, param_code, param_numbers}
use gribbi.Save.Parameter.{
  set_discipline_and_parameter, parameter_of, put_parameter, attribute_param, param_of_code,
  code_of_param, text_of_param, tuple_text, tuple_end, param_or, info_param,
}

-- The attribute is that code of edition 2: itself, one of its two texts, or a tuple that begins with
-- its four numbers.
pub data Denotes (discipline category number : ℕ) : GribParam → Type 0 where
  by_code : Denotes discipline category number (param_code (grib_code2 discipline category number))
  by_str :
      Denotes discipline category number (param_text (str (grib_code2 discipline category number)))
  by_repr :
      Denotes discipline category number (param_text (repr (grib_code2 discipline category number)))
  by_numbers :
      (more : List ℕ)
      → Denotes discipline category number
          (param_numbers (2 ∷ discipline ∷ category ∷ number ∷ more))

Ends-tuple_end : (numbers : List ℕ) → Ends (tuple_end numbers)
Ends-tuple_end [] = refl
Ends-tuple_end (n ∷ numbers) = refl

-- The text of a tuple shows its first four numbers.
gribcode_from_string-tuple_text :
    (d c n : ℕ) (more : List ℕ)
    → gribcode_from_string (tuple_text (2 ∷ d ∷ c ∷ n ∷ more)) ≡ ok (grib_code2 d c n)
unfolding gribcode_from_string tuple_text gribcode
gribcode_from_string-tuple_text d c n more =
    rw
      (fournums-labelled (40 ∷ []) (44 ∷ 32 ∷ []) (44 ∷ 32 ∷ []) (44 ∷ 32 ∷ []) (tuple_end more)
        (decimal 2) (decimal d) (decimal c) (decimal n) 2 d c n (refl, refl, refl, refl)
        (Shows-decimal 2, Shows-decimal d, Shows-decimal c, Shows-decimal n)
        ((λ t. refl), (λ t. refl), (λ t. refl), Ends-tuple_end more))
      refl

code_of_param-Denotes :
    (d c n : ℕ) (param : GribParam)
    → Denotes d c n param
    → code_of_param param ≡ ok (grib_code2 d c n)
unfolding code_of_param text_of_param
code_of_param-Denotes d c n _ by_code = (gribcode_from_string-texts (grib_code2 d c n)).0
code_of_param-Denotes d c n _ by_str = (gribcode_from_string-texts (grib_code2 d c n)).0
code_of_param-Denotes d c n _ by_repr = (gribcode_from_string-texts (grib_code2 d c n)).1
code_of_param-Denotes d c n _ (by_numbers more) = gribcode_from_string-tuple_text d c n more

module _ {F : Type 0} where
  -- The three keys of a parameter.
  abbrev pub Identified : ℕ → ℕ → ℕ → Keys F → Type 0
  Identified d c n written =
      (lookup "discipline" written ≡ some (int (pos d)))
      × (lookup "parameterCategory" written ≡ some (int (pos c)))
      × (lookup "parameterNumber" written ≡ some (int (pos n)))

  put_parameter-Identified :
      (d c n : ℕ) (grib : Keys F) → Identified d c n (put_parameter (d, (c, n)) grib)
  unfolding put_parameter
  put_parameter-Identified d c n grib =
      (simp (lookup-insert), simp (lookup-insert), simp (lookup-insert))

  parameter_of-Denotes :
      (table : Dict CfGrib2Key CfGrib2Data) (cube : Cube F) (param : GribParam) (d c n : ℕ)
      → cube.grib_param ≡ some param
      → Denotes d c n param
      → parameter_of table cube ≡ (d, (c, n))
  unfolding parameter_of attribute_param param_of_code
  parameter_of-Denotes table cube param d c n p q =
      ap
        (λ param.
          param_or param
            (info_param (cf_phenom_to_grib2_info table cube.standard_name cube.long_name)))
        (ap attribute_param p ∙ ap param_of_code (code_of_param-Denotes d c n param q))

  -- A cube whose GRIB_PARAM attribute is a code of edition 2, its str or repr, or a tuple
  -- that begins with its four numbers, is saved with the discipline, category and number of that code, whatever its names are.
  pub set_discipline_and_parameter-Identified :
      (table : Dict CfGrib2Key CfGrib2Data) (cube : Cube F) (param : GribParam) (d c n : ℕ)
      (grib : Keys F)
      → cube.grib_param ≡ some param
      → Denotes d c n param
      → Identified d c n (set_discipline_and_parameter table cube grib)
  unfolding set_discipline_and_parameter
  set_discipline_and_parameter-Identified table cube param d c n grib p q =
      subst (λ triple. Identified d c n (put_parameter triple grib))
        (sym (parameter_of-Denotes table cube param d c n p q))
        (put_parameter-Identified d c n grib)
