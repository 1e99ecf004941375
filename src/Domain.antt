-- ===== src/Domain.antt =====
-- internal/domain/domain.go: the values that the services exchange. Their `LastUpdated` fields are
-- left out: no modelled function reads or sets them.
pub mod Scheme
use churro.Common.{String, Bool, List, ℕ}
use churro.Common.Int.{ℤ}

pub record ExtractRule : Type 0 where
  pub id : String
  pub extract_source_id : String
  pub column_name : String
  pub column_path : String
  pub column_type : String
  pub match_values : String
  pub transform_function : String

pub record Extension : Type 0 where
  pub id : String
  pub extract_source_id : String
  pub extension_name : String
  pub extension_path : String

pub record TransformFunction : Type 0 where
  pub id : String
  pub name : String
  pub source : String

-- The two maps are association lists under the key.
pub record ExtractSource : Type 0 where
  pub id : String
  pub name : String
  pub path : String
  pub scheme : String
  pub regex : String
  pub tablename : String
  pub cronexpression : String
  pub skipheaders : ℤ
  pub multiline : Bool
  pub sheetname : String
  pub port : ℤ
  pub encoding : String
  pub transport : String
  pub servicetype : String
  pub initialized : Bool
  pub running : Bool
  pub extract_rules : List (String × ExtractRule)
  pub extensions : List (String × Extension)

pub record Metric : Type 0 where
  pub name : String
  pub value : String

pub record JobProfile : Type 0 where
  pub id : String
  pub job_name : String
  pub records_loaded : ℕ
  pub data_provenance_id : String
  pub start_date : String
  pub file_name : String
  pub table_name : String

pub record DataProvenance : Type 0 where
  pub id : String
  pub name : String
  pub path : String

pub record UserProfile : Type 0 where
  pub id : String
  pub first_name : String
  pub last_name : String
  pub password : String
  pub access : String
  pub email : String

pub record UserPipelineAccess : Type 0 where
  pub user_profile_id : String
  pub pipeline_id : String
  pub access : String
