-- ===== src/Tests/Data.antt =====
-- The data of a message with a bitmap.
use gribbi.Base.{
  ℕ, ◌≡◌, refl, Option, some, List, [], ◌∷◌, length, nat_eq, string_eq, option_eq, pair_eq, ok,
  get_elem?, true,
}
use gribbi.Base.Int.{ℤ, pos, int_eq}
use gribbi.Base.Dict.{lookup}
use gribbi.Value.{ints, reals}
use gribbi.Value.{Reader}
use gribbi.Message.Data.{get_data, product}
use gribbi.Message.Data.Bitmap.{get_data-element}
use gribbi.Tests.{known, number}

abbrev bits : List (Option ℤ)
bits = some (pos 1) ∷ some (pos 0) ∷ some (pos 1) ∷ some (pos 0) ∷ []

abbrev values : List (Option ℤ)
values = some (pos 5) ∷ some (pos 8) ∷ []

abbrev representation : Reader ℤ
representation = known (("bitsPerValue", number 8) ∷ [])

abbrev bitmapped : Reader ℤ
bitmapped = known (("bitMapIndicator", number 0) ∷ ("bitmap", ints bits) ∷ [])

abbrev coded : Reader ℤ
coded = known (("codedValues", reals values) ∷ [])

abbrev sections : ℕ → Option (Reader ℤ)
sections n = lookup n ((5, representation) ∷ (6, bitmapped) ∷ (7, coded) ∷ [])

get_data-element_example :
    (read : List (Option ℤ)) × (get_data (pos 0) (2 ∷ 2 ∷ []) sections ≡ ok read)
    × (length read ≡ product (2 ∷ 2 ∷ []))
    × (get_elem? read 2 ≡ some (some (pos 8)))
unfolding lookup
get_data-element_example =
    get_data-element (pos 0) (2 ∷ 2 ∷ []) sections representation bitmapped coded 8 bits values 2
      true refl refl refl refl refl refl refl refl refl refl
