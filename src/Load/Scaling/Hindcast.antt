-- ===== src/Load/Scaling/Hindcast.antt =====
-- `_hindcast_fix` of _load_convert.py: forecast times below zero. The cast to int64 changes none of
-- the 32-bit numbers that the key holds.
use gribbi.Base.{
  ℕ, suc, ◌+◌, ◌*◌, ◌^◌, ◌<◌, ◌≡◌, ◌&&◌, arith, if◌then◌else◌, nat_eq, string_eq, option_eq,
  pair_eq,
}
use gribbi.Base.Int.{ℤ, pos, negsuc, pos_part, neg_part, ◌-ℤ◌, ltb_ℤ, int_eq}

abbrev pub high_bit : ℕ
high_bit = 2 ^ 30

unfoldable pub hindcast_fix : ℤ → ℤ
hindcast_fix uft =
    if ltb_ℤ (pos (2 * high_bit)) uft && ltb_ℤ uft (pos (3 * high_bit))
    then pos 0 -ℤ (uft -ℤ pos (2 * high_bit))
    else uft

-- GRIB's signed four-octet number: the sign in the highest bit, and the magnitude in the others.
unfoldable pub encode_signed : ℤ → ℕ
encode_signed (pos n) = n
encode_signed (negsuc n) = 2 ^ 31 + suc n

-- A forecast time above minus 2 ^ 30 and below 2 ^ 31 is read back, whatever its sign, from the
-- unsigned reading of its encoding.
pub hindcast_fix-encode_signed :
    (t : ℤ) → pos_part t < 2 ^ 31 → neg_part t < 2 ^ 30 → hindcast_fix (pos (encode_signed t)) ≡ t
unfolding hindcast_fix encode_signed ◌-ℤ◌
hindcast_fix-encode_signed (pos n) lo hi = ground arith
hindcast_fix-encode_signed (negsuc n) lo hi = ground arith
