-- ===== src/Tests/Loads.antt =====
-- A database that counts, and a message of two rows.
use churro.Common.{ℕ, ◌+◌, [], ◌∷◌, some, none, length}
use churro.Common.Int.{pos}
use churro.Common.Action.{Result, ok, err, returned, Action, give}
use churro.Domain.{JobProfile}
use churro.Extract.Loader.{GenericFormat, LoaderMessage, LoaderDb, Loader}

-- The rows that are stored, and the records that are counted
abbrev Store : Type 0
Store = ℕ × ℕ

abbrev job : JobProfile
job = record {
  id = "j1";
  job_name = "orders";
  records_loaded = 0;
  data_provenance_id = "d1";
  start_date = "";
  file_name = "orders.csv";
  table_name = "orders";
}

abbrev store_db : LoaderDb Store
store_db = record {
  get_bulk_insert_statement =
      λ scheme d t names rows types s. (returned tt, (s.0 + length rows, s.1));
  get_insert_statement = λ scheme d t names cols key s. (returned tt, (s.0 + 1, s.1));
  update_pipeline_stats = λ p s. (returned tt, (s.0, s.1 + p.records_in));
  get_extract_log_by_id = λ id. give job;
  update_extract_log = λ p. give tt;
}

abbrev two_rows : GenericFormat
two_rows = record {
  path = "/churro/orders/orders.csv";
  dataprov = "d1";
  tablename = "orders";
  pipeline_name = "sales";
  column_names = "city" ∷ [];
  column_types = "TEXT" ∷ [];
  records =
      record { key = pos 1; cols = some "Oslo" ∷ [] }
      ∷ record { key = pos 2; cols = none ∷ [] }
      ∷ [];
}

abbrev server : Loader Store
server = record {
  scheme_value = "csv";
  pi_name = "sales";
  source_path = "/churro/orders";
  source_tablename = "orders";
  table_name = "orders";
  extensions = "audit:1" ∷ [];
  generic = λ _. ok two_rows;
  raw = λ _. err "no raw message";
  connect_extension = λ _. ok (λ elem. give tt);
}

abbrev message : LoaderMessage
message = record { key = pos 0; metadata = "{}"; data_format = "csv" }

abbrev push_of :
    Result (LoaderMessage → Action Store (Unit {0})) → LoaderMessage → Action Store (Unit {0})
push_of (ok push) = push
push_of (err e) = λ elem. give tt
