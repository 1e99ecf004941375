-- ===== src/Extract.antt =====
-- internal/extract: the extraction of a file's records into rows.
pub mod Csv
pub mod Xlsx
pub mod Xml
pub mod Loader
use churro.Common.{String, List, map}
use churro.Domain.{ExtractRule}

-- `extractapi.Column`
pub record Column : Type 0 where
  pub name : String
  pub path : String
  pub type : String

-- `getColumns`, with the rules in the order in which the loop takes them from the map
abbrev pub get_columns : List (String × ExtractRule) → List Column
get_columns rules =
    map (λ r. record { name = r.1.column_name; path = r.1.column_path; type = r.1.column_type })
      rules

abbrev pub get_column_names : List Column → List String
get_column_names cols = map (λ c. c.name) cols

abbrev pub get_column_types : List Column → List String
get_column_types cols = map (λ c. c.type) cols
