-- ===== src/Phenom/Names.antt =====
-- The keys and values of the tables in _grib_cf_map.py, which are named tuples.
use gribbi.Base.{ℕ, String, Option}

-- CFName(standard_name, long_name, units)
abbrev pub CfName : Type 0
CfName = Option String × (Option String × String)

abbrev pub cf_name : Option String → Option String → String → CfName
cf_name standard_name long_name units = (standard_name, (long_name, units))

-- G2Param(edition, discipline, category, number)
abbrev pub G2Param : Type 0
G2Param = ℕ × (ℕ × (ℕ × ℕ))

abbrev pub g2_param : ℕ → ℕ → ℕ → ℕ → G2Param
g2_param edition discipline category number = (edition, (discipline, (category, number)))
