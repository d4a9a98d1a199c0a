-- ===== src/Tests/Codes.antt =====
-- Codes of a statistic and of a type of spatial processing.
use gribbi.Base.{◌≡◌, ◌↔◌, some, nat_eq, string_eq, option_eq, pair_eq, ok}
use gribbi.Base.Dict.{lookup}
use gribbi.Tables.{InterpolationParameters, statistic_type_names, spatial_processing_types}
use gribbi.Save.Codes.{statistical_method_code, get_spatial_process_code}
use gribbi.Save.Codes.Inverse.{statistical_method_code-inverse, get_spatial_process_code-inverse}

statistical_method_code-inverse_example :
    (statistical_method_code "maximum" ≡ ok 2) ↔ (lookup 2 statistic_type_names ≡ some "maximum")
statistical_method_code-inverse_example = statistical_method_code-inverse "maximum" 2

get_spatial_process_code-inverse_example :
    (get_spatial_process_code "Budget interpolation" ≡ ok 4) ↔ (
      (p : InterpolationParameters) × (lookup 4 spatial_processing_types ≡ some p)
      × (p.interpolation_type ≡ "Budget interpolation"))
get_spatial_process_code-inverse_example = get_spatial_process_code-inverse "Budget interpolation" 4
