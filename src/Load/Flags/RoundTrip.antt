-- ===== src/Load/Flags/RoundTrip.antt =====
-- The scanning mode is what its bits say, and what is saved is read back.
use gribbi.Base.{
  ℕ, ◌+◌, ◌%◌, ◌<◌, ◌≡◌, refl, Bool, true, false, not, List, arith, nat_eq, string_eq, option_eq,
  pair_eq, ok, ◌>>=◌,
}
use gribbi.Base.Int.{pos, int_eq}
use gribbi.Externals.{Externals}
use gribbi.Load.Flags.{ScanningMode, scanning_mode, increases, scanning_mode_flags}

abbrev pub weight : Bool → ℕ → ℕ
weight true n = n
weight false n = 0

-- A scanning mode of one octet that is accepted is determined by its flags and the four reserved
-- bits, and has no alternative rows.
pub scanning_mode-bits :
    (mode : ℕ) (flags : ScanningMode)
    → mode < 256
    → scanning_mode (pos mode) ≡ ok flags
    → (mode
        ≡ weight flags.i_negative 128
          + weight flags.j_positive 64
          + weight flags.j_consecutive 32
          + mode % 16)
      × (flags.i_alternative ≡ false)
unfolding scanning_mode
scanning_mode-bits mode flags h k = ground arith

module _ {F : Type 0} (x : Externals F) (is_positive : F → Bool) where
  -- The scanning mode that is saved reads back with the directions of the two coordinates.
  pub scanning_mode-scanning_mode_flags :
      (x_points y_points : List F) (x_positive y_positive : Bool)
      → increases x is_positive x_points ≡ ok x_positive
      → increases x is_positive y_points ≡ ok y_positive
      → (do mode ← scanning_mode_flags x is_positive x_points y_points; scanning_mode (pos mode))
        ≡ ok (record {
          i_negative = not x_positive;
          j_positive = y_positive;
          j_consecutive = false;
          i_alternative = false;
        })
  unfolding scanning_mode scanning_mode_flags
  scanning_mode-scanning_mode_flags x_points y_points true true h k = rw (h, k) refl
  scanning_mode-scanning_mode_flags x_points y_points true false h k = rw (h, k) refl
  scanning_mode-scanning_mode_flags x_points y_points false true h k = rw (h, k) refl
  scanning_mode-scanning_mode_flags x_points y_points false false h k = rw (h, k) refl
