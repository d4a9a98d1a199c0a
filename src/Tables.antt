-- ===== src/Tables.antt =====
-- The code tables of _load_convert.py.
use gribbi.Base.{
  ℕ, ◌-◌, ◌^◌, String, Option, none, some, [], ◌∷◌, nat_eq, string_eq, option_eq, pair_eq,
}
use gribbi.Base.Int.{pos, int_eq}
use gribbi.Base.Dict.{Dict, lookup}
use gribbi.Value.{Value, int}

-- Code table 4.4, in UDUNITS-2 text.
abbrev pub time_range_units : Dict ℕ String
time_range_units =
    (0, "minutes")
    ∷ (1, "hours")
    ∷ (2, "days")
    ∷ (10, "3 hours")
    ∷ (11, "6 hours")
    ∷ (12, "12 hours")
    ∷ (13, "seconds")
    ∷ []

abbrev pub time_range_missing : ℕ
time_range_missing = 2 ^ 32 - 1

abbrev pub type_of_fixed_surface_missing : ℕ
type_of_fixed_surface_missing = 255

pub record FixedSurface : Type 0 where
  pub standard_name : Option String
  pub long_name : Option String
  pub units : Option String

-- Code table 4.5.
abbrev pub fixed_surfaces : Dict ℕ FixedSurface
fixed_surfaces =
    (100, record { standard_name = none; long_name = some "pressure"; units = some "Pa" })
    ∷ (103, record { standard_name = none; long_name = some "height"; units = some "m" })
    ∷ []

-- Code table 4.10.
abbrev pub statistic_type_names : Dict ℕ String
statistic_type_names =
    (0, "mean") ∷ (1, "sum") ∷ (2, "maximum") ∷ (3, "minimum") ∷ (6, "standard_deviation") ∷ []

-- Code table 4.15.
pub record InterpolationParameters : Type 0 where
  pub interpolation_type : String
  pub statistical_process : Option String
  pub number_of_points_used : ℕ

abbrev parameters : String → Option String → ℕ → InterpolationParameters
parameters t p n = record {
  interpolation_type = t;
  statistical_process = p;
  number_of_points_used = n;
}

abbrev pub spatial_processing_types : Dict ℕ InterpolationParameters
spatial_processing_types =
    (0, parameters "No interpolation" (some "cell_method") 0)
    ∷ (1, parameters "Bilinear interpolation" none 4)
    ∷ (2, parameters "Bicubic interpolation" none 4)
    ∷ (3, parameters "Nearest neighbour interpolation" none 1)
    ∷ (4, parameters "Budget interpolation" none 4)
    ∷ (5, parameters "Spectral interpolation" none 4)
    ∷ (6, parameters "Neighbour-budget interpolation" none 4)
    ∷ []

-- `table.get(value)`: keys are natural numbers, and nothing but an integer is equal to one.
unfoldable pub lookup_value : {F V : Type 0} → Value F → Dict ℕ V → Option V
lookup_value (int (pos n)) table = lookup n table
lookup_value v table = none
